-- ===== src/Stream/Tests.antt =====
-- Packets on a connection, run.
use uptp.Common.{ℕ, ◌≡◌, refl, arith, List, [], ◌∷◌, ◌++◌, ok, panic}
use uptp.Stream.Bytes.{put_uvarint, put_loop}
use uptp.Stream.Packet.{write}
use uptp.Stream.RoundTrip.{write_all, read_all, read_all-write_all}

abbrev hello : List ℕ
hello = 104 ∷ 105 ∷ []

-- Two bytes are within the limit of two, but not with their header.
hello_panics : write 2 hello ≡ panic
unfolding write put_uvarint put_loop
hello_panics = refl

hello_sent : write 1500 hello ≡ ok (2 ∷ 104 ∷ 105 ∷ [])
unfolding write put_uvarint put_loop
hello_sent = refl

both_sent : write_all 1500 (hello ∷ [] ∷ []) ≡ ok (2 ∷ 104 ∷ 105 ∷ 0 ∷ [])
unfolding write_all write put_uvarint put_loop
both_sent = refl

read_all-write_all_example :
    read_all 1500 2 ((2 ∷ 104 ∷ 105 ∷ 0 ∷ []) ++ (7 ∷ [])) ≡ (ok (hello ∷ [] ∷ []), 7 ∷ [])
read_all-write_all_example =
    read_all-write_all 1500 (hello ∷ [] ∷ []) (2 ∷ 104 ∷ 105 ∷ 0 ∷ []) (7 ∷ []) (omega arith)
      both_sent
