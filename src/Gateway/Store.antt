-- ===== src/Gateway/Store.antt =====
-- What package gateway uses of goleveldb and of encoding/json, and how its managers keep a map
-- under one key: the bodies that `savePortmap`, `loadRes`, `LoadPortmapApps`, `saveOutbounds` and
-- `loadOutbounds` share. `D` is the database, `B` what a `[]byte` value holds. `none` is a nil error.
use uptp.Common.{◌≡◌, ◌≢◌, refl, Option, none, some, String, List, [], ◌∷◌, ◌⊎◌, inl, inr}
use uptp.Common.{ℕ, nat_eq}
use uptp.Common.GoMap.{GoMap, lookup}
use mathlib.Core.Option

pub data Read (B : Type 0) : Type 0 where
  found : B → Read B
  not_found : Read B
  failed : String → Read B

pub Read-cases :
    {B : Type 0} (r : Read B)
    → ((v : B) × (r ≡ found v)) ⊎ ((r ≡ not_found) ⊎ ((e : String) × (r ≡ failed e)))
Read-cases (found v) = inl (v, refl)
Read-cases not_found = inr (inl refl)
Read-cases (failed e) = inr (inr (e, refl))

-- `leveldb.DB` with what it documents: a write that returns nil is read back, and touches no other
-- key; one that returns an error leaves the database as it was.
pub record Leveldb (D B : Type 0) : Type 0 where
  pub get : String → D → Read B
  pub put : String → B → D → Option String × D
  pub get-put_self :
      (k : String) (v : B) (d : D) → (put k v d).0 ≡ none → get k (put k v d).1 ≡ found v
  pub get-put_ne : (k j : String) (v : B) (d : D) → k ≢ j → get j (put k v d).1 ≡ get j d
  pub put_failed :
      (k : String) (v : B) (d : D) {e : String} → (put k v d).0 ≡ some e → (put k v d).1 ≡ d

pub Sum-cases : {A B : Type 0} (r : A ⊎ B) → ((a : A) × (r ≡ inl a)) ⊎ ((b : B) × (r ≡ inr b))
Sum-cases (inl a) = inl (a, refl)
Sum-cases (inr b) = inr (b, refl)

module _ {V : Type 0} where
  -- `m[k]` in a map that may be nil
  abbrev pub lookup_in : ℕ → Option (GoMap ℕ V) → Option V
  lookup_in k none = none
  lookup_in k (some m) = lookup k m

  -- A nil map, or one fresh from `make`.
  abbrev pub IsEmpty : Option (GoMap ℕ V) → Type 0
  IsEmpty none = Unit
  IsEmpty (some []) = Unit
  IsEmpty (some (x ∷ m)) = ⊥

-- `json.Marshal` and `json.Unmarshal` at a map with integer keys. `kept` is a value without the
-- fields that carry no JSON name. Unmarshal returns its error and what it leaves in the target.
pub record MapJson (B V : Type 0) : Type 0 where
  pub kept : V → V
  pub marshal : GoMap ℕ V → String ⊎ B
  pub unmarshal : B → Option (GoMap ℕ V) → Option String × Option (GoMap ℕ V)
  pub unmarshal-marshal :
      (m : GoMap ℕ V) (s : B) (target : Option (GoMap ℕ V))
      → IsEmpty target
      → marshal m ≡ inr s
      → ((unmarshal s target).0 ≡ none)
        × ((k : ℕ) → lookup_in k (unmarshal s target).1 ≡ Option.map kept (lookup k m))

-- `json.Marshal` and `json.Unmarshal` at a struct whose fields all carry a JSON name.
pub record ValueJson (B V : Type 0) : Type 0 where
  pub marshal : V → String ⊎ B
  pub unmarshal : B → V → Option String × V
  pub unmarshal-marshal :
      (v target : V) (s : B) → marshal v ≡ inr s → unmarshal s target ≡ (none, v)

-- `[]byte(s)` and `string(v)` at ASCII text.
pub record TextBytes (B : Type 0) : Type 0 where
  pub of_text : List ℕ → B
  pub to_text : B → List ℕ
  pub to_text-of_text : (s : List ℕ) → to_text (of_text s) ≡ s

module _ {D B V : Type 0} (ldb : Leveldb D B) (json : MapJson B V) (key : String) where
  unfoldable pub save_map : GoMap ℕ V → D → Option String × D
  save_map m db = elim (json.marshal m) [ inl e ↦ (some e, db) | inr s ↦ ldb.put key s db ]

  unfoldable pub load_map : Option (GoMap ℕ V) → D → Option String × Option (GoMap ℕ V)
  load_map target db = elim (ldb.get key db) [
    | failed e ↦ (some e, target)
    | not_found ↦ (none, target)
    | found v ↦ json.unmarshal v target
  ]

  unmarshaled :
      (m : GoMap ℕ V) (db : D) (s : B) → json.marshal m ≡ inr s → save_map m db ≡ ldb.put key s db
  unfolding save_map
  unmarshaled m db s p = rw (p, save_map)

  refused :
      (m : GoMap ℕ V) (db : D) (e : String) → json.marshal m ≡ inl e → save_map m db ≡ (some e, db)
  unfolding save_map
  refused m db e p = rw (p, save_map)

  loaded :
      (target : Option (GoMap ℕ V)) (db : D) (v : B)
      → ldb.get key db ≡ found v
      → load_map target db ≡ json.unmarshal v target
  unfolding load_map
  loaded target db v p = rw (p, load_map)

  -- A map that was saved with no error is loaded again, up to the fields that JSON drops.
  pub load_map-save_map :
      (m : GoMap ℕ V) (db : D) (target : Option (GoMap ℕ V))
      → IsEmpty target
      → (save_map m db).0 ≡ none
      → ((load_map target (save_map m db).1).0 ≡ none)
        × ((k : ℕ)
            → lookup_in k (load_map target (save_map m db).1).1 ≡ Option.map json.kept (lookup k m))
  load_map-save_map m db target empty saved = elim (Sum-cases (json.marshal m)) [
    | inl (e, p) ↦ let saved' : some e ≡ none = rw (refused m db e p) at saved in absurd (cc)
    | inr (s, p) ↦
        let wrote : (ldb.put key s db).0 ≡ none = rw (unmarshaled m db s p) at saved in
        rw (unmarshaled m db s p, loaded target _ s (ldb.get-put_self key s db wrote))
          (json.unmarshal-marshal m s target empty p)
  ]

  -- A save that returns an error leaves the database as it was.
  pub save_map_failed :
      (m : GoMap ℕ V) (db : D) (e : String) → (save_map m db).0 ≡ some e → (save_map m db).1 ≡ db
  save_map_failed m db e h = elim (Sum-cases (json.marshal m)) [
    | inl (x, p) ↦ rw (refused m db x p)
    | inr (s, p) ↦
        rw (unmarshaled m db s p) (ldb.put_failed key s db (rw (unmarshaled m db s p) at h))
  ]
