-- ===== src/Socks5/Negotiate/Laws.antt =====
-- Who passes the negotiation, and that the token of a gateway's outbound is what passes.
use uptp.Common.{
  ℕ, ◌≤◌, ◌≡◌, ◌↔◌, ◌⊎◌, inl, inr, refl, arith, Bool, true, false, none, some, String, length, take,
  from_bytes, nat_eq, text_eq, Option-cases, eq_iff,
}
use uptp.Common.GoMap.{lookup-insert}
use uptp.Socks5.Errors.{GoError, Try, done, failed}
use uptp.Socks5.Negotiate.{
  session_info, Peerstore, UserPass, socks5_precheck, socks5_auth, Dialogue, passed,
  socks5_negotiate,
}

pub Try-cases {ℓ} :
    {A : Type ℓ} (r : Try A) → ((a : A) × (r ≡ done a)) ⊎ ((e : GoError) × (r ≡ failed e))
Try-cases (done a) = inl (a, refl)
Try-cases (failed e) = inr (e, refl)

module _ (auth_func : ℕ → Bool) where
  -- The password begins with the eight bytes of a number that `AuthFunc` takes.
  abbrev pub IsGranted : UserPass → Type 0
  IsGranted urq =
      (8 ≤ urq.plen)
      × ((8 ≤ length urq.passwd) × (auth_func (from_bytes (take 8 urq.passwd)) ≡ true))

  pub socks5_auth_iff :
      (pid : String) (urq : UserPass) (peers : Peerstore)
      → ((socks5_auth auth_func pid urq peers).0 ≡ some true) ↔ IsGranted urq
  unfolding socks5_auth
  socks5_auth_iff pid urq peers = (λ h. ground (arith, h), λ h. ground (arith, h))

  socks5_auth_stored :
      (pid other : String) (urq : UserPass) (peers : Peerstore)
      → socks5_precheck other (socks5_auth auth_func pid urq peers).1 ≡ false
      → (socks5_precheck other peers ≡ false) ⊎ ((other ≡ pid) × IsGranted urq)
  unfolding socks5_auth socks5_precheck
  socks5_auth_stored pid other urq peers h =
      ground (arith, h, lookup-insert pid other session_info peers, eq_iff pid other)

  module _ (auth_error : GoError) (pid : String) (d : Dialogue) where
    -- Who has to authenticate does: with a user name and a password, which are granted.
    abbrev pub IsAuthenticated : Bool → Type 0
    IsAuthenticated need_auth =
        (need_auth ≡ false)
        ⊎ ((need_auth ≡ true) × ((urq : UserPass) × ((d.user_pass ≡ done urq) × IsGranted urq)))

    abbrev pub IsDelivered : Bool → Type 0
    IsDelivered need_auth =
        (d.request ≡ none)
        × ((d.write_method ≡ none) × ((need_auth ≡ false) ⊎ (d.write_status ≡ none)))

    passes :
        (need_auth : Bool) (peers : Peerstore)
        → IsDelivered need_auth
        → IsAuthenticated need_auth
        → (socks5_negotiate auth_func auth_error need_auth pid d peers).0 ≡ passed
    unfolding socks5_negotiate
    passes false peers i a = ground (arith, i, a)
    passes true peers i (inl x) = absurd (cc x)
    passes true peers i (inr (x, (urq, (u, g)))) =
        ground (arith, i, u, (socks5_auth_iff pid urq peers).1 g)

    passed_by :
        (need_auth : Bool) (peers : Peerstore)
        → (socks5_negotiate auth_func auth_error need_auth pid d peers).0 ≡ passed
        → IsDelivered need_auth × IsAuthenticated need_auth
    unfolding socks5_negotiate
    passed_by false peers h = ground (arith, h)
    passed_by true peers h = elim (Option-cases d.request) [
      | inr (e, p) ↦ absurd (ground (arith, h, p))
      | inl p ↦ elim (Option-cases d.write_method) [
        | inr (e, q) ↦ absurd (ground (arith, h, p, q))
        | inl q ↦ elim (Try-cases d.user_pass) [
          | inr (e, u) ↦ absurd (ground (arith, h, p, q, u))
          | inl (urq, u) ↦ elim (Option-cases (socks5_auth auth_func pid urq peers).0) [
            | inl r ↦ absurd (ground (arith, h, p, q, u, r))
            | inr (false, r) ↦ absurd (ground (arith, h, p, q, u, r))
            | inr (true, r) ↦ (
              (p, (q, inr (ground (arith, h, p, q, u, r)))),
              inr (refl, (urq, (u, (socks5_auth_iff pid urq peers).0 r))),
            )
          ]
        ]
      ]
    ]

    -- The negotiation ends without an error exactly if the peer's messages were read and the
    -- server's written, and a peer that must authenticate sent a password of at least eight bytes
    -- whose number `AuthFunc` takes.
    pub socks5_negotiate_iff :
        (need_auth : Bool) (peers : Peerstore)
        → ((socks5_negotiate auth_func auth_error need_auth pid d peers).0 ≡ passed)
          ↔ (IsDelivered need_auth × IsAuthenticated need_auth)
    socks5_negotiate_iff need_auth peers =
        (passed_by need_auth peers, λ (i, a). passes need_auth peers i a)

    remembered :
        (need_auth : Bool) (other : String) (peers : Peerstore) (urq : UserPass)
        → d.user_pass ≡ done urq
        → socks5_precheck other (socks5_negotiate auth_func auth_error need_auth pid d peers).1.1
          ≡ false
        → (socks5_precheck other peers ≡ false)
          ⊎ (socks5_precheck other (socks5_auth auth_func pid urq peers).1 ≡ false)
    unfolding socks5_negotiate
    remembered need_auth other peers urq u h = ground (arith, u, h)

    -- A negotiation lets a peer skip the authentication later only if the peer could do so already,
    -- or if it is the peer of this stream and its password was granted.
    pub negotiate_remembers :
        (need_auth : Bool) (other : String) (peers : Peerstore)
        → socks5_precheck other (socks5_negotiate auth_func auth_error need_auth pid d peers).1.1
          ≡ false
        → (socks5_precheck other peers ≡ false)
          ⊎ ((other ≡ pid) × ((urq : UserPass) × ((d.user_pass ≡ done urq) × IsGranted urq)))
    unfolding socks5_negotiate
    negotiate_remembers need_auth other peers h = elim (Try-cases d.user_pass) [
      | inr (e, u) ↦ inl (ground (arith, h, u))
      | inl (urq, u) ↦ elim (remembered need_auth other peers urq u h) [
        | inl x ↦ inl x
        | inr x ↦ elim (socks5_auth_stored pid other urq peers x) [
          | inl y ↦ inl y
          | inr (p, g) ↦ inr (p, (urq, (u, g)))
        ]
      ]
    ]
