-- ===== src/Gateway/Settings/Token.antt =====
-- The access token, once made, stays the same.
use uptp.Common.{ℕ, ◌≡◌, refl, ap, ◌∙◌, arith, ◌^◌, ◌<◌, Bool, true, false, none, some, String}
use uptp.Common.{
  Result, ok, err, panic, Option-cases, inl, inr, ◌⊎◌, ◌==◌, nat_eq, ◌↔◌, nat_beq_iff,
}
use uptp.Common.Decimal.{format_uint, parse_uint, parse_uint-format_uint}
use uptp.Gateway.Store.{Leveldb, Read, found, not_found, failed, TextBytes}
use uptp.Gateway.Settings.{db_key_token, set_token, get_token, proxy_auth}

module _ {D B : Type 0} (ldb : Leveldb D B) (text : TextBytes B) where
  Read-cases :
      (r : Read B) → ((v : B) × (r ≡ found v)) ⊎ ((r ≡ not_found) ⊎ ((e : String) × (r ≡ failed e)))
  Read-cases (found v) = inl (v, refl)
  Read-cases not_found = inr (inl refl)
  Read-cases (failed e) = inr (inr (e, refl))

  read_back :
      (db : D) (v : B) (r : ℕ)
      → ldb.get db_key_token db ≡ found v
      → get_token ldb text r db ≡ (parse_uint (text.to_text v), db)
  unfolding get_token
  read_back db v r e = rw (e, get_token)

  made :
      (db : D) (r : ℕ)
      → ldb.get db_key_token db ≡ not_found
      → (set_token ldb text r db).0 ≡ none
      → get_token ldb text r db ≡ (ok r, (set_token ldb text r db).1)
  unfolding get_token
  made db r e w = rw (e, get_token) (rw w)

  not_made :
      (db : D) (r : ℕ) (x : String)
      → ldb.get db_key_token db ≡ not_found
      → (set_token ldb text r db).0 ≡ some x
      → (get_token ldb text r db).0 ≡ err x
  unfolding get_token
  not_made db r x e w = rw (e, get_token) (rw w)

  unreadable :
      (db : D) (r : ℕ) (x : String)
      → ldb.get db_key_token db ≡ failed x
      → (get_token ldb text r db).0 ≡ err x
  unfolding get_token
  unreadable db r x e = rw (e, get_token)

  written :
      (db : D) (random later : ℕ)
      → random < 2 ^ 64
      → (set_token ldb text random db).0 ≡ none
      → get_token ldb text later (set_token ldb text random db).1
        ≡ (ok random, (set_token ldb text random db).1)
  unfolding set_token
  written db random later small w =
      rw
        (read_back _ (text.of_text (format_uint random)) later
          (ldb.get-put_self db_key_token _ db w))
        (rw (text.to_text-of_text, parse_uint-format_uint random small))

  -- Where `getToken`, drawing a number below 2 ^ 64, returns a token, every later `getToken` on
  -- its database returns the same one and writes nothing, whatever number it would have drawn.
  pub get_token_stable :
      (random later token : ℕ) (db : D)
      → random < 2 ^ 64
      → (get_token ldb text random db).0 ≡ ok token
      → get_token ldb text later (get_token ldb text random db).1
        ≡ (ok token, (get_token ldb text random db).1)
  get_token_stable random later token db small h = elim (Read-cases (ldb.get db_key_token db)) [
    | inl (v, e) ↦
        let p : parse_uint (text.to_text v) ≡ ok token = rw (read_back db v random e) at h in
        rw (read_back db v random e, read_back db v later e, p)
    | inr (inl e) ↦ elim (Option-cases (set_token ldb text random db).0) [
      | inl w ↦
          let p : ok random ≡ ok token = rw (made db random e w) at h in
          rw (made db random e w)
            (written db random later small w ∙ ap (λ r. (r, (set_token ldb text random db).1)) p)
      | inr (x, w) ↦ absurd (cc (h, not_made db random x e w))
    ]
    | inr (inr (x, e)) ↦ absurd (cc (h, unreadable db random x e))
  ]

  -- `proxyAuth` accepts exactly the token that `getToken` returns.
  pub proxy_auth_iff :
      (random auth_token : ℕ) (db : D)
      → ((proxy_auth ldb text random auth_token db).0 ≡ true)
        ↔ ((get_token ldb text random db).0 ≡ ok auth_token)
  unfolding proxy_auth
  proxy_auth_iff random auth_token db = accepts (get_token ldb text random db).0
    where
      accepts :
          (r : Result ℕ)
          → (elim r as (λ _. Bool) [ ok t ↦ t == auth_token | err e ↦ false | panic ↦ false ]
              ≡ true)
            ↔ (r ≡ ok auth_token)
      accepts (ok t) = (λ e. ap ok ((nat_beq_iff t auth_token).0 e), λ e. ground arith)
      accepts (err e) = (λ e. absurd (cc e), λ e. absurd (cc e))
      accepts panic = (λ e. absurd (cc e), λ e. absurd (cc e))
