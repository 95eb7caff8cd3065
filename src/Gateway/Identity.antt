-- ===== src/Gateway/Identity.antt =====
-- The file uuid, whose content is the seed of the node's key, as `Run` of gateway/gateway.go and
-- `start` of agent/agent.go read it, each by the same lines. A text is the list of its bytes.
use uptp.Common.{
  ℕ, ◌≡◌, Bool, false, Option, none, some, String, List, [], ◌∷◌, ltb, if◌then◌else◌, length,
  Answer, gives, fails, ◌==◌, nat_eq, arith, inl, inr, ◌⊎◌, refl, Bool-cases, Answer-cases,
  Option-cases,
}
use uptp.P2p.Engine.{seed_size}

-- An error of the file system, with what `os.IsExist` says of it.
pub record FileError : Type 0 where
  pub text : String
  pub is_exist : Bool

-- How the steps answer: the fault of a read, if there is one, what `uuid.NewRandom` makes, and of a
-- write that fails, its error and what it leaves in the file.
pub record Answers : Type 0 where
  pub read_fault : Option FileError
  pub new_random : Answer (List ℕ)
  pub write_fault : Option (String × List ℕ)

-- The seed to go on with, or the end of the call with an error, which may be nil.
pub data Seeding : Type 0 where
  seeded : List ℕ → Seeding
  stopped : Option String → Seeding

pub Seeding-cases :
    (s : Seeding) → ((seed : List ℕ) × (s ≡ seeded seed)) ⊎ ((e : Option String) × (s ≡ stopped e))
Seeding-cases (seeded seed) = inl (seed, refl)
Seeding-cases (stopped e) = inr (e, refl)

-- `os.ReadFile` on a file, which may be missing; a read with a fault gives no bytes.
unfoldable pub read_file : Option FileError → Option (List ℕ) → List ℕ × Option FileError
read_file (some e) file = ([], some e)
read_file none none = ([], some (record { text = "file does not exist"; is_exist = false }))
read_file none (some bytes) = (bytes, none)

-- `strings.Replace(s, "-", "", -1)`
unfoldable pub without_dashes : List ℕ → List ℕ
without_dashes [] = []
without_dashes (c ∷ cs) = let rest = without_dashes cs in if c == b'-' then rest else c ∷ rest

-- A seed that is made now and written to the file.
unfoldable pub make_seed : Answers → Option (List ℕ) → Seeding × Option (List ℕ)
make_seed a file = elim a.new_random [
  | fails e ↦ (stopped (some e), file)
  | gives u ↦
      let seed = without_dashes u in
      if ltb (length seed) seed_size then (stopped none, file) else (elim a.write_fault [
        | some (e, left) ↦ (stopped (some e), some left)
        | none ↦ (seeded seed, some seed)
      ])
]

-- The seed, and the file after that.
unfoldable pub load_seed : Answers → Option (List ℕ) → Seeding × Option (List ℕ)
unfolding make_seed
load_seed a file =
    let (bytes, fault) = read_file a.read_fault file in
    let made = make_seed a file in
    let checked = if ltb (length bytes) seed_size then made else (seeded bytes, file) in
    elim fault [
      | none ↦ checked
      | some e ↦ if e.is_exist then (stopped (some e.text), file) else checked
    ]

-- A seed that was made is long enough and stands in the file.
make_seed-seeded :
    (a : Answers) (file : Option (List ℕ)) (seed : List ℕ)
    → (make_seed a file).0 ≡ seeded seed
    → (ltb (length seed) seed_size ≡ false) × ((make_seed a file).1 ≡ some seed)
unfolding make_seed
make_seed-seeded a file seed h = elim (Answer-cases a.new_random) [
  | inr (e, q) ↦ absurd (ground (arith, q, h))
  | inl (u, q) ↦ elim (Bool-cases (ltb (length (without_dashes u)) seed_size)) [
    | inl b ↦ absurd (ground (arith, q, b, h))
    | inr b ↦ elim (Option-cases a.write_fault) [
      | inr (w, f) ↦ absurd (ground (arith, q, b, f, h))
      | inl f ↦
          let same : without_dashes u ≡ seed = ground (arith, q, b, f, h) in
          rw (← same) (b, ground (arith, q, b, f))
    ]
  ]
]

-- What a call goes on with is long enough and stands in the file.
pub load_seed-seeded :
    (a : Answers) (file : Option (List ℕ)) (seed : List ℕ)
    → (load_seed a file).0 ≡ seeded seed
    → (ltb (length seed) seed_size ≡ false) × ((load_seed a file).1 ≡ some seed)
unfolding load_seed read_file
load_seed-seeded a file seed h =
    let made = make_seed-seeded a file seed in
    elim (Option-cases a.read_fault) [
      | inr (e, q) ↦ elim (Bool-cases e.is_exist) [
        | inl x ↦ absurd (ground (arith, q, x, h))
        | inr x ↦ let (l, f) = made (ground (arith, q, x, h)) in (l, ground (arith, q, x, f))
      ]
      | inl q ↦ elim (Option-cases file) [
        | inl n ↦ let (l, f) = made (ground (arith, q, n, h)) in (l, ground (arith, q, n, f))
        | inr (bytes, n) ↦ elim (Bool-cases (ltb (length bytes) seed_size)) [
          | inl b ↦
              let (l, f) = made (ground (arith, q, n, b, h)) in (l, ground (arith, q, n, b, f))
          | inr b ↦
              let same : bytes ≡ seed = ground (arith, q, n, b, h) in
              rw (← same) (b, ground (arith, q, n, b))
        ]
      ]
    ]

-- It is what the next call that can read the file goes on with.
pub load_seed_again :
    (a b : Answers) (file : Option (List ℕ)) (seed : List ℕ)
    → (load_seed a file).0 ≡ seeded seed
    → b.read_fault ≡ none
    → load_seed b (load_seed a file).1 ≡ (seeded seed, (load_seed a file).1)
load_seed_again a b file seed h r =
    let (long, kept) = load_seed-seeded a file seed h in
    rw kept (unfold load_seed in unfold read_file in ground (arith, long, r))
