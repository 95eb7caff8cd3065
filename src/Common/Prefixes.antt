-- ===== src/Common/Prefixes.antt =====
-- Texts that begin with different texts.
use uptp.Common.{
  ◌≡◌, sym, ◌∙◌, ap, inl, inr, arith, Bool, true, false, ◌&&◌, ◌==◌, nat_eq, text_eq, eq_iff,
  Bool-cases,
}
use Prim.Native.Char.{code}
use Prim.Native.String.append
use Prim.Native.String.{String, [], ◌∷◌, ◌++◌}
use text.Mathlib.Text.{starts_with}
use text.Mathlib.TextEquality.{starts_with_iff}
use text.Mathlib.TextLemmas.{append-nil}

-- Whether one of two texts begins with the other.
abbrev pub agree : String → String → Bool
agree [] q = true
agree (c ∷ p) [] = true
agree (c ∷ p) (d ∷ q) = code c == code d && agree p q

agree_of_append : (p q u v : String) → p ++ u ≡ q ++ v → agree p q ≡ true
agree_of_append [] q u v e = cc
agree_of_append (c ∷ p) [] u v e = cc
agree_of_append (c ∷ p) (d ∷ q) u v e =
    let both : c ∷ (p ++ u) ≡ d ∷ (q ++ v) = sym (append.cons c p u) ∙ e ∙ append.cons d q v in
    let first : c ≡ d = cc both in
    let rest : p ++ u ≡ q ++ v = cc both in
    ground (arith, ap code first, agree_of_append p q u v rest)

-- A text that begins with one of two texts that differ does not begin with the other.
pub starts_with_other :
    (s p q : String) → agree p q ≡ false → starts_with s p ≡ true → starts_with s q ≡ false
starts_with_other s p q d h = elim (Bool-cases (starts_with s q)) [
  | inr b ↦ b
  | inl b ↦
      let (u, e) = (starts_with_iff s p).0 h in
      let (v, f) = (starts_with_iff s q).0 b in
      absurd (ground (arith, d, agree_of_append p q u v (e ∙ sym f)))
]

pub starts_with_ne :
    (s p q : String) → agree p q ≡ false → starts_with s p ≡ true → (s == q) ≡ false
starts_with_ne s p q d h = elim (Bool-cases (s == q)) [
  | inr b ↦ b
  | inl b ↦
      let (u, e) = (starts_with_iff s p).0 h in
      absurd
        (ground (arith, d, agree_of_append p q u [] (e ∙ (eq_iff s q).0 b ∙ sym (append-nil q))))
]
