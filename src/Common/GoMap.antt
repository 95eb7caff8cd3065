-- ===== src/Common/GoMap.antt =====
-- Go's built-in maps. The list is the order of one iteration; no theorem depends on which.
use mathlib.Core.Path.{◌≡◌, refl}
use mathlib.Core.List.{List, [], ◌∷◌}
use mathlib.Core.Option.{Option, none, some}
use native.Mathlib.Omega.{arith}
use uptp.Common.Tests.{Eq, ◌==◌, if◌then◌else◌}

abbrev pub GoMap {ℓ κ} : Type ℓ → Type κ → Type (ℓ ⊔ κ)
GoMap K V = List (K × V)

module _ {ℓ κ} {K : Type ℓ} {V : Type κ} ⦃e : Eq K⦄ where
  -- v, ok := m[k]
  unfoldable pub lookup : K → GoMap K V → Option V
  lookup key [] = none
  lookup key ((k, value) ∷ rest) =
      let elsewhere = lookup key rest in if k == key then some value else elsewhere

  -- m[k] = v
  unfoldable pub insert : K → V → GoMap K V → GoMap K V
  insert key value [] = (key, value) ∷ []
  insert key value ((k, old) ∷ rest) =
      let below = insert key value rest in
      if k == key then (key, value) ∷ rest else (k, old) ∷ below

  -- delete(m, k)
  unfoldable pub delete : K → GoMap K V → GoMap K V
  delete key [] = []
  delete key ((k, old) ∷ rest) =
      let below = delete key rest in if k == key then below else (k, old) ∷ below

  pub lookup-insert :
      (key other : K) (value : V) (entries : GoMap K V)
      → lookup other (insert key value entries)
        ≡ (if key == other then some value else lookup other entries)
  unfolding lookup insert
  lookup-insert key other value [] = refl
  lookup-insert key other value ((k, old) ∷ rest) = ground (
    lookup-insert key other value rest,
    e.same_iff key other,
    e.same_iff k key,
    e.same_iff k other,
    arith,
  )

  pub lookup-delete :
      (key other : K) (entries : GoMap K V)
      → lookup other (delete key entries) ≡ (if key == other then none else lookup other entries)
  unfolding lookup delete
  lookup-delete key other [] = ground arith
  lookup-delete key other ((k, old) ∷ rest) = ground (
    lookup-delete key other rest,
    e.same_iff key other,
    e.same_iff k key,
    e.same_iff k other,
    arith,
  )

  pub lookup-insert_self :
      (key : K) (value : V) (entries : GoMap K V)
      → lookup key (insert key value entries) ≡ some value
  lookup-insert_self key value entries =
      ground (lookup-insert key key value entries, e.same_iff key key, arith)

  pub lookup-delete_self : (key : K) (entries : GoMap K V) → lookup key (delete key entries) ≡ none
  lookup-delete_self key entries = ground (lookup-delete key key entries, e.same_iff key key, arith)
