-- ===== src/Stream/Packet.antt =====
-- stream/var_length_packet.go: `VarLenPacketStream`, whose packets follow their length as a varint.
-- A connection is the bytes still to be read, or the bytes that were written; its own errors are
-- those of its end.
use uptp.Common.{ℕ, ◌+◌, List, ◌++◌, String, Result, ok, err, panic, ltb, if◌then◌else◌, length}
use Prim.Native.String.{◌++◌ as append}
use uptp.Stream.Bytes.{read_full, put_uvarint, read_uvarint}

abbrev pub short_buffer : String
short_buffer = "short buffer"

-- `Read` into a buffer of `size` bytes; the stream takes packets of at most `max_size` bytes.
unfoldable pub read : ℕ → ℕ → List ℕ → Result (List ℕ) × List ℕ
read max_size size conn =
    let (header, rest) = read_uvarint conn in
    elim header [
      | err e ↦ (err (append "invalid header: " e), rest)
      | panic ↦ (panic, rest)
      | ok n ↦
          let packet = read_full n rest in
          if ltb max_size n
          then (err short_buffer, rest)
          else if ltb size n
          then (err short_buffer, rest)
          else packet
    ]

-- `Write`: the bytes that go to the connection. The header and the packet share a buffer of
-- `max_size` bytes, so that the slice of both panics where they do not fit.
unfoldable pub write : ℕ → List ℕ → Result (List ℕ)
write max_size p =
    let header = put_uvarint (length p) in
    if ltb max_size (length p)
    then err short_buffer
    else if ltb max_size (length p + length header)
    then panic
    else ok (header ++ p)
