-- ===== src/Upgrade/Version.antt =====
-- common/version.go: `CompareVersion`. A version is the bytes of its text.
use uptp.Common.{
  ℕ, ◌≡◌, ◌≢◌, ◌↔◌, ◌⊎◌, inl, inr, refl, sym, ap, ◌∙◌, arith, Bool, true, false, List, [], ◌∷◌, map,
  if◌then◌else◌, ◌==◌, nat_beq, nat_eq, Eq, Bool-cases,
}
use uptp.Common.Int.{ℤ, pos, negsuc, ltb_ℤ, int_eq}
use uptp.Common.Decimal.{atoi}

abbrev pub equal : ℤ
equal = pos 0

abbrev pub greater : ℤ
greater = pos 1

abbrev pub less : ℤ
less = negsuc 0

abbrev pub beq_bytes : List ℕ → List ℕ → Bool
beq_bytes [] [] = true
beq_bytes [] (b ∷ bs) = false
beq_bytes (a ∷ xs) [] = false
beq_bytes (a ∷ xs) (b ∷ ys) = if nat_beq a b then beq_bytes xs ys else false

pub beq_bytes_iff : (a b : List ℕ) → (beq_bytes a b ≡ true) ↔ (a ≡ b)
beq_bytes_iff [] [] = (λ h. refl, λ e. refl)
beq_bytes_iff [] (b ∷ bs) = (λ h. absurd (cc h), λ e. absurd (cc e))
beq_bytes_iff (a ∷ xs) [] = (λ h. absurd (cc h), λ e. absurd (cc e))
beq_bytes_iff (a ∷ xs) (b ∷ ys) = ground (arith, beq_bytes_iff xs ys)

instance abbrev pub bytes_eq : Eq (List ℕ)
bytes_eq = record { same = beq_bytes; same_iff = beq_bytes_iff }

-- The byte of "."
abbrev pub dot : ℕ
dot = 46

-- A part in front of the first of the others.
abbrev pub push : ℕ → List (List ℕ) → List (List ℕ)
push b [] = (b ∷ []) ∷ []
push b (p ∷ ps) = (b ∷ p) ∷ ps

-- `strings.Split(v, ".")`
unfoldable pub split_dots : List ℕ → List (List ℕ)
split_dots [] = [] ∷ []
split_dots (b ∷ bs) = if b == dot then [] ∷ split_dots bs else push b (split_dots bs)

-- `strconv.Atoi`, whose error is dropped
abbrev pub number : List ℕ → ℤ
number part = (atoi part).0

-- The loop over the parts of the first version
unfoldable pub compare_parts : List (List ℕ) → List (List ℕ) → ℤ
compare_parts [] ys = less
compare_parts (x ∷ xs) [] = greater
compare_parts (x ∷ xs) (y ∷ ys) =
    if ltb_ℤ (number y) (number x)
    then greater
    else if ltb_ℤ (number x) (number y)
    then less
    else compare_parts xs ys

unfoldable pub compare_version : List ℕ → List ℕ → ℤ
unfolding compare_parts split_dots
compare_version v1 v2 = if v1 == v2 then equal else compare_parts (split_dots v1) (split_dots v2)

-- The numbers of a version
abbrev pub numbers : List ℕ → List ℤ
numbers v = map number (split_dots v)

split_ℤ : (a b : ℤ) → (ltb_ℤ a b ≡ true) ⊎ ((a ≡ b) ⊎ (ltb_ℤ b a ≡ true))
split_ℤ a b = ground arith

lt_ℤ-asym : (a b : ℤ) → ltb_ℤ a b ≡ true → (ltb_ℤ b a ≡ false) × (a ≢ b)
lt_ℤ-asym a b h = ground (arith, h)

lt_ℤ-irrefl : (a : ℤ) → ltb_ℤ a a ≡ false
lt_ℤ-irrefl a = ground arith

-- Both orders give LESS exactly if the numbers are the same.
tied_iff :
    (xs ys : List (List ℕ))
    → ((compare_parts xs ys ≡ less) × (compare_parts ys xs ≡ less))
      ↔ (map number xs ≡ map number ys)
unfolding compare_parts
tied_iff [] [] = (λ h. refl, λ e. (refl, refl))
tied_iff [] (y ∷ ys) = (λ h. absurd (cc (h.1)), λ e. absurd (cc e))
tied_iff (x ∷ xs) [] = (λ h. absurd (cc (h.0)), λ e. absurd (cc e))
tied_iff (x ∷ xs) (y ∷ ys) = elim (split_ℤ (number x) (number y)) [
  | inl h ↦ ground (arith, h, lt_ℤ-asym (number x) (number y) h)
  | inr (inr h) ↦ ground (arith, h, lt_ℤ-asym (number y) (number x) h)
  | inr (inl e) ↦ ground (arith, e, lt_ℤ-irrefl (number x), lt_ℤ-irrefl (number y), tied_iff xs ys)
]

-- One order gives GREATER, and then the other gives LESS, or both give LESS.
compare_parts_cases :
    (xs ys : List (List ℕ))
    → ((compare_parts xs ys ≡ greater) × (compare_parts ys xs ≡ less))
      ⊎ (((compare_parts xs ys ≡ less) × (compare_parts ys xs ≡ greater))
          ⊎ ((compare_parts xs ys ≡ less) × (compare_parts ys xs ≡ less)))
unfolding compare_parts
compare_parts_cases [] [] = inr (inr (refl, refl))
compare_parts_cases [] (y ∷ ys) = inr (inl (refl, refl))
compare_parts_cases (x ∷ xs) [] = inl (refl, refl)
compare_parts_cases (x ∷ xs) (y ∷ ys) = elim (split_ℤ (number x) (number y)) [
  | inl h ↦ ground (arith, h, lt_ℤ-asym (number x) (number y) h)
  | inr (inr h) ↦ ground (arith, h, lt_ℤ-asym (number y) (number x) h)
  | inr (inl e) ↦
      ground (arith, e, lt_ℤ-irrefl (number x), lt_ℤ-irrefl (number y), compare_parts_cases xs ys)
]

distinct : (v1 v2 : List ℕ) → v1 ≢ v2 → (v1 == v2) ≡ false
distinct v1 v2 n = elim (Bool-cases (v1 == v2)) [
  | inl b ↦ absurd (n ((beq_bytes_iff v1 v2).0 b))
  | inr b ↦ b
]

abbrev parts : List ℕ → List ℕ → ℤ
parts v1 v2 = compare_parts (split_dots v1) (split_dots v2)

same_version : (v1 v2 : List ℕ) → v1 ≡ v2 → compare_version v1 v2 ≡ equal
unfolding compare_version
same_version v1 v2 e = rw ((beq_bytes_iff v1 v2).1 e)

other_version : (v1 v2 : List ℕ) → v1 ≢ v2 → compare_version v1 v2 ≡ parts v1 v2
unfolding compare_version
other_version v1 v2 n = rw (distinct v1 v2 n)

not_equal : (xs ys : List (List ℕ)) → compare_parts xs ys ≢ equal
not_equal xs ys = ground (arith, compare_parts_cases xs ys)

same_or_not : (v1 v2 : List ℕ) → (v1 ≡ v2) ⊎ (v1 ≢ v2)
same_or_not v1 v2 = ground (arith, Bool-cases (beq_bytes v1 v2), beq_bytes_iff v1 v2)

equal_only : (v1 v2 : List ℕ) → compare_version v1 v2 ≡ equal → v1 ≡ v2
equal_only v1 v2 h = elim (same_or_not v1 v2) [
  | inl e ↦ e
  | inr n ↦ absurd (not_equal _ _ (sym (other_version v1 v2 n) ∙ h))
]

-- Two versions whose numbers are not all the same are ordered one way: one comparison gives GREATER,
-- the opposite one LESS. EQUAL is given for the same text only.
pub compare_version_ordered :
    (v1 v2 : List ℕ)
    → ((compare_version v1 v2 ≡ equal) ↔ (v1 ≡ v2))
      × (numbers v1 ≢ numbers v2
          → ((compare_version v1 v2 ≡ greater) × (compare_version v2 v1 ≡ less))
            ⊎ ((compare_version v1 v2 ≡ less) × (compare_version v2 v1 ≡ greater)))
compare_version_ordered v1 v2 = (
  (equal_only v1 v2, same_version v1 v2),
  λ n.
      let n' : v1 ≢ v2 = λ e. n (ap numbers e) in
      ground (
        arith,
        n,
        other_version v1 v2 n',
        other_version v2 v1 (λ e. n' (sym e)),
        compare_parts_cases (split_dots v1) (split_dots v2),
        tied_iff (split_dots v1) (split_dots v2),
      ),
)

-- Both orders of two versions give LESS exactly if their texts differ and their numbers do not.
pub compare_version_both_less_iff :
    (v1 v2 : List ℕ)
    → ((compare_version v1 v2 ≡ less) × (compare_version v2 v1 ≡ less))
      ↔ ((v1 ≢ v2) × (numbers v1 ≡ numbers v2))
compare_version_both_less_iff v1 v2 = elim (same_or_not v1 v2) [
  | inl e ↦ (λ h. absurd (cc (h.0, same_version v1 v2 e)), λ h. absurd (h.0 e))
  | inr n ↦ ground (
    arith,
    n,
    other_version v1 v2 n,
    other_version v2 v1 (λ e. n (sym e)),
    tied_iff (split_dots v1) (split_dots v2),
  )
]
