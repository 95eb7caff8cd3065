-- ===== src/Gateway/Router/Runs.antt =====
-- Any sequence of `addRoute` and `delRoute` calls on the table of `newProxyRouter`.
use uptp.Common.{List, [], ◌∷◌}
use uptp.Gateway.Cidr.{IpNet}
use uptp.Gateway.Router.{Tree, leaf, AvlTree, find, add_route, del_route}
use uptp.Gateway.Router.Find.{IsValid}
use uptp.Gateway.Router.Routes.{add_route-IsValid, del_route-IsValid}

pub data Call {ℓ} (D : Type ℓ) : Type ℓ where
  adds : IpNet → D → Call D
  deletes : IpNet → Call D

module _ {ℓ} {D : Type ℓ} where
  pub leaf-IsValid : IsValid {D = D} leaf
  unfolding find
  leaf-IsValid = record { ordered = tt; proper = λ k v f. cc; apart = λ j k u v f g lt. cc }

module _ {ℓ} {D : Type ℓ} (avl : AvlTree D) where
  unfoldable pub run : List (Call D) → Tree D → Tree D
  run [] t = t
  run (adds net d ∷ calls) t = run calls (add_route avl net d t).0
  run (deletes net ∷ calls) t = run calls (del_route avl net t)

  run_keeps : (calls : List (Call D)) (t : Tree D) → IsValid t → IsValid (run calls t)
  unfolding run
  run_keeps [] t h = h
  run_keeps (adds net d ∷ calls) t h = run_keeps calls _ (add_route-IsValid avl net t h d)
  run_keeps (deletes net ∷ calls) t h = run_keeps calls _ (del_route-IsValid avl net t h)

  -- After any calls from the empty table it is valid: its keys are ordered, no range is empty, and
  -- no two ranges meet.
  pub run-IsValid : (calls : List (Call D)) → IsValid (run calls leaf)
  run-IsValid calls = run_keeps calls leaf leaf-IsValid
