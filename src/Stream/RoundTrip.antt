-- ===== src/Stream/RoundTrip.antt =====
-- What is written is read back, packet by packet.
use uptp.Common.{ℕ, ◌+◌, ◌^◌, ◌≤◌, ◌<◌, ◌≡◌, ◌↔◌, inl, inr, arith, ap, List, [], ◌∷◌, ◌++◌}
use uptp.Common.{Result, ok, err, panic, Result-cases, ltb, length, Bool-cases, ◌>>=◌, zero, suc}
use uptp.Stream.Bytes.{put_uvarint, read_uvarint, read_uvarint-put_uvarint, read_full-append}
use uptp.Stream.Packet.{read, write, short_buffer}
use mathlib.Core.List.{append_assoc}

-- `Write` refuses exactly the packets that are longer than the limit, and panics exactly on those that
-- are not, but whose header and bytes together are.
pub write_cases :
    (max_size : ℕ) (p : List ℕ)
    → ((write max_size p ≡ err short_buffer) ↔ (max_size < length p))
      × ((write max_size p ≡ panic)
          ↔ ((length p ≤ max_size) × (max_size < length p + length (put_uvarint (length p)))))
unfolding write
write_cases max_size p =
    ((λ h. ground (arith), λ h. ground (arith)), (λ h. ground (arith), λ h. ground (arith)))

written :
    (max_size : ℕ) (p sent : List ℕ)
    → write max_size p ≡ ok sent
    → (length p ≤ max_size) × (sent ≡ put_uvarint (length p) ++ p)
unfolding write
written max_size p sent h = (
  ground (arith, h),
  elim (Bool-cases (ltb max_size (length p))) [
    | inl b ↦ absurd (ground (arith, b, h))
    | inr b ↦ elim (Bool-cases (ltb max_size (length p + length (put_uvarint (length p))))) [
      | inl c ↦ absurd (ground (arith, b, c, h))
      | inr c ↦ ground (arith, b, c, h)
    ]
  ],
)

-- A packet that was written is read back whole by a stream of the same limit, into a buffer that holds
-- it, and what follows it on the connection stays there.
pub read-write :
    (max_size size : ℕ) (p sent rest : List ℕ)
    → length p < 2 ^ 64
    → write max_size p ≡ ok sent
    → length p ≤ size
    → read max_size size (sent ++ rest) ≡ (ok p, rest)
unfolding read
read-write max_size size p sent rest small h fits =
    let (limit, same) = written max_size p sent h in
    let framed : sent ++ rest ≡ put_uvarint (length p) ++ (p ++ rest) =
      rw same (append_assoc (put_uvarint (length p)) p rest) in
    ground (
      arith,
      limit,
      fits,
      framed,
      ap read_uvarint framed,
      read_uvarint-put_uvarint (length p) (p ++ rest) small,
      read_full-append p rest,
    )

-- One `Write` after the other, up to the first that does not go through
unfoldable pub write_all : ℕ → List (List ℕ) → Result (List ℕ)
write_all max_size [] = ok []
write_all max_size (p ∷ ps) =
    write max_size p >>= (λ a. write_all max_size ps >>= (λ b. ok (a ++ b)))

abbrev pub with_first :
    Result (List ℕ) → Result (List (List ℕ)) × List ℕ → Result (List (List ℕ)) × List ℕ
with_first (ok p) (ok ps, conn) = (ok (p ∷ ps), conn)
with_first (ok p) (err e, conn) = (err e, conn)
with_first (ok p) (panic, conn) = (panic, conn)
with_first (err e) (ps, conn) = (err e, conn)
with_first panic (ps, conn) = (panic, conn)

-- `count` times `Read`, into buffers of the limit
unfoldable pub read_all : ℕ → ℕ → List ℕ → Result (List (List ℕ)) × List ℕ
read_all max_size zero conn = (ok [], conn)
read_all max_size (suc count) conn =
    let (p, rest) = read max_size max_size conn in with_first p (read_all max_size count rest)

-- Packets that were all written, under a limit below 2 ^ 64, are read back one by one, in their
-- order, by a stream of that limit, with what follows them left on the connection.
pub read_all-write_all :
    (max_size : ℕ) (ps : List (List ℕ)) (sent rest : List ℕ)
    → max_size < 2 ^ 64
    → write_all max_size ps ≡ ok sent
    → read_all max_size (length ps) (sent ++ rest) ≡ (ok ps, rest)
unfolding write_all read_all
read_all-write_all max_size [] sent rest small h = let nothing : [] ≡ sent = cc h in rw (← nothing)
read_all-write_all max_size (p ∷ ps) sent rest small h = elim (Result-cases (write max_size p)) [
  | inl (a, w) ↦ elim (Result-cases (write_all max_size ps)) [
    | inl (b, v) ↦
        let both : a ++ b ≡ sent = ground (arith, w, v, h) in
        let (limit, _) = written max_size p a w in
        let first =
          read-write max_size max_size p a (b ++ rest) (omega (arith, limit, small)) w limit in
        let later = read_all-write_all max_size ps b rest small v in
        rw (← both, append_assoc a b rest, first, later)
    | inr (inl (e, v)) ↦ absurd (ground (arith, w, v, h))
    | inr (inr v) ↦ absurd (ground (arith, w, v, h))
  ]
  | inr (inl (e, w)) ↦ absurd (ground (arith, w, h))
  | inr (inr w) ↦ absurd (ground (arith, w, h))
]
