-- ===== src/Socks5/Request/Served.antt =====
-- For whom `handler` serves a request.
use uptp.Common.{
  ℕ, ◌≡◌, ◌≢◌, ◌↔◌, ◌⊎◌, ◌≤◌, ◌<◌, inl, inr, refl, arith, Bool, true, false, Option, none, some,
  String, List, length, Bool-cases, Option-cases, text_eq, ap, ◌∙◌,
}
use uptp.Common.GoMap.{lookup}
use uptp.Socks5.Errors.{
  GoError, eof, unexpected_eof, conn_reset, other, Try, done, failed, contains, should_log_error,
}
use uptp.Socks5.Negotiate.{
  Peerstore, PeerValue, session_info, other_value, UserPass, Dialogue, Ending, passed, ended,
  crashed, socks5_precheck, socks5_negotiate, socks5_auth,
}
use uptp.Socks5.Negotiate.Laws.{IsGranted, Try-cases, socks5_negotiate_iff}
use uptp.Socks5.Request.{Request, Dialer, Action, Answers, socks5_request_connect, handler}

-- The errors that are left out of the log: those of a stream that ended or was reset, and those whose text
-- names a timeout, a reset or something closed.
abbrev pub IsLeftOut : GoError → Type 0
IsLeftOut (other text) =
    (contains text "timeout" ≡ true)
    ⊎ ((contains text "reset" ≡ true) ⊎ (contains text "closed" ≡ true))
IsLeftOut _ = Unit {0}

left_out : (x : GoError) → (should_log_error (some x) ≡ false) ↔ IsLeftOut x
unfolding should_log_error
left_out eof = (λ h. ground arith, λ h. refl)
left_out unexpected_eof = (λ h. ground arith, λ h. refl)
left_out conn_reset = (λ h. ground arith, λ h. refl)
left_out (other text) = (λ h. ground (arith, h), λ h. ground (arith, h))

Ending-cases : (e : Ending) → (e ≡ passed) ⊎ (((x : GoError) × (e ≡ ended x)) ⊎ (e ≡ crashed))
Ending-cases passed = inl refl
Ending-cases (ended x) = inr (inl (x, refl))
Ending-cases crashed = inr (inr refl)

PeerValue-cases : (v : PeerValue) → (v ≡ session_info) ⊎ (v ≡ other_value)
PeerValue-cases session_info = inl refl
PeerValue-cases other_value = inr refl

-- The peer has authenticated before, on any stream.
abbrev pub IsKnown : String → Peerstore → Type 0
IsKnown pid peers = lookup pid peers ≡ some session_info

socks5_precheck-IsKnown :
    (pid : String) (peers : Peerstore) → (socks5_precheck pid peers ≡ false) ↔ IsKnown pid peers
unfolding socks5_precheck
socks5_precheck-IsKnown pid peers = (
  λ h. elim (Option-cases (lookup pid peers)) [
    | inl p ↦ absurd (ground (arith, h, p))
    | inr (v, p) ↦ elim (PeerValue-cases v) [
      | inl e ↦ p ∙ ap some e
      | inr e ↦ absurd (ground (arith, h, p, e))
    ]
  ],
  λ k. ground (arith, k),
)

module _ (auth_func : ℕ → Bool) (auth_error : GoError) (pid : String) (d : Dialogue)
    (peers : Peerstore) where
  -- The messages went through, and the peer is known or has sent a password that is granted.
  abbrev pub IsAdmitted : Type 0
  IsAdmitted =
      (d.request ≡ none)
      × ((d.write_method ≡ none)
          × (IsKnown pid peers
              ⊎ ((urq : UserPass) × ((d.user_pass ≡ done urq)
                    × (IsGranted auth_func urq × (d.write_status ≡ none))))))

  -- The slice of the password's first eight bytes is not taken, or does not panic.
  abbrev pub IsSliced : UserPass → Type 0
  IsSliced urq = (urq.plen < 8) ⊎ (8 ≤ length urq.passwd)

  -- The authentication fails with this error: the one of reading the user name and the password, the one of
  -- writing the status, whether the password was granted or not, or the refusal.
  abbrev pub IsUnauthenticated : GoError → Type 0
  IsUnauthenticated x =
      (d.user_pass ≡ failed x)
      ⊎ ((urq : UserPass) × ((d.user_pass ≡ done urq)
            × (IsSliced urq
                × ((d.write_status ≡ some x)
                    ⊎ ((d.write_status ≡ none)
                        × ((IsGranted auth_func urq → ⊥) × (x ≡ auth_error)))))))

  -- The first call of the negotiation that fails does so with this error.
  abbrev pub IsFailed : GoError → Type 0
  IsFailed x =
      (d.request ≡ some x)
      ⊎ ((d.request ≡ none)
          × ((d.write_method ≡ some x)
              ⊎ ((d.write_method ≡ none) × ((IsKnown pid peers → ⊥) × IsUnauthenticated x))))

  abbrev negotiated : Ending
  negotiated = (socks5_negotiate auth_func auth_error (socks5_precheck pid peers) pid d peers).0

  admitted_iff : (negotiated ≡ passed) ↔ IsAdmitted
  admitted_iff =
      let iff = socks5_negotiate_iff auth_func auth_error pid d (socks5_precheck pid peers) peers in
      let known = socks5_precheck-IsKnown pid peers in
      elim (Bool-cases (socks5_precheck pid peers)) [
        | inr b ↦ (
          λ h. ((iff.0 h).0.0, ((iff.0 h).0.1.0, inl (known.0 b))),
          λ (r, (m, a)). iff.1 ((r, (m, inl b)), inl b),
        )
        | inl b ↦ (
          λ h.
              let ((r, (m, status)), a) = iff.0 h in
              elim status [
                | inl f ↦ absurd (cc (b, f))
                | inr w ↦ elim a [
                  | inl f ↦ absurd (cc (b, f))
                  | inr (t, (urq, (u, g))) ↦ (r, (m, inr (urq, (u, (g, w)))))
                ]
              ],
          λ (r, (m, a)). elim a [
            | inl k ↦ absurd (cc (b, known.1 k))
            | inr (urq, (u, (g, w))) ↦ iff.1 ((r, (m, inr w)), inr (b, (urq, (u, g))))
          ],
        )
      ]

  -- How the check of a password ends.
  auth_cases :
      (urq : UserPass)
      → (((socks5_auth auth_func pid urq peers).0 ≡ none) × (IsSliced urq → ⊥))
        ⊎ ((((socks5_auth auth_func pid urq peers).0 ≡ some true)
              × (IsSliced urq × IsGranted auth_func urq))
            ⊎ (((socks5_auth auth_func pid urq peers).0 ≡ some false)
                × (IsSliced urq × (IsGranted auth_func urq → ⊥))))
  unfolding socks5_auth
  auth_cases urq = ground arith

  socks5_negotiate-IsUnauthenticated :
      (x : GoError) (urq : UserPass)
      → d.request ≡ none
      → d.write_method ≡ none
      → d.user_pass ≡ done urq
      → (socks5_negotiate auth_func auth_error true pid d peers).0 ≡ ended x
      → IsUnauthenticated x
  unfolding socks5_negotiate
  socks5_negotiate-IsUnauthenticated x urq r m u h = elim (Option-cases d.write_status) [
    | inr (e, w) ↦ elim (auth_cases urq) [
      | inl (p, n) ↦ absurd (ground (arith, r, m, u, h, p))
      | inr (inl (p, (i, g))) ↦ inr (urq, (u, (i, inl (ground (arith, r, m, u, h, p, w)))))
      | inr (inr (p, (i, g))) ↦ inr (urq, (u, (i, inl (ground (arith, r, m, u, h, p, w)))))
    ]
    | inl w ↦ elim (auth_cases urq) [
      | inl (p, n) ↦ absurd (ground (arith, r, m, u, h, p))
      | inr (inl (p, (i, g))) ↦ absurd (ground (arith, r, m, u, h, p, w))
      | inr (inr (p, (i, g))) ↦ inr (urq, (u, (i, inr (w, (g, ground (arith, r, m, u, h, p, w))))))
    ]
  ]

  socks5_negotiate-IsFailed :
      (x : GoError) (need_auth : Bool)
      → (need_auth ≡ true → IsKnown pid peers → ⊥)
      → (socks5_negotiate auth_func auth_error need_auth pid d peers).0 ≡ ended x
      → IsFailed x
  unfolding socks5_negotiate
  socks5_negotiate-IsFailed x false n h = elim (Option-cases d.request) [
    | inr (e, r) ↦ inl (ground (arith, r, h))
    | inl r ↦ elim (Option-cases d.write_method) [
      | inr (e, m) ↦ inr (r, inl (ground (arith, r, m, h)))
      | inl m ↦ absurd (ground (arith, r, m, h))
    ]
  ]
  socks5_negotiate-IsFailed x true n h = elim (Option-cases d.request) [
    | inr (e, r) ↦ inl (ground (arith, r, h))
    | inl r ↦ elim (Option-cases d.write_method) [
      | inr (e, m) ↦ inr (r, inl (ground (arith, r, m, h)))
      | inl m ↦ elim (Try-cases d.user_pass) [
        | inr (e, u) ↦ inr (r, inr (m, (n refl, inl (ground (arith, r, m, u, h)))))
        | inl (urq, u) ↦
            inr (r, inr (m, (n refl, socks5_negotiate-IsUnauthenticated x urq r m u h)))
      ]
    ]
  ]

  IsUnauthenticated-ends :
      (x : GoError)
      → d.request ≡ none
      → d.write_method ≡ none
      → IsUnauthenticated x
      → (socks5_negotiate auth_func auth_error true pid d peers).0 ≡ ended x
  unfolding socks5_negotiate
  IsUnauthenticated-ends x r m (inl u) = ground (arith, r, m, u)
  IsUnauthenticated-ends x r m (inr (urq, (u, (i, inl w)))) = elim (auth_cases urq) [
    | inl (p, n) ↦ absurd (n i)
    | inr (inl (p, g)) ↦ ground (arith, r, m, u, p, w)
    | inr (inr (p, g)) ↦ ground (arith, r, m, u, p, w)
  ]
  IsUnauthenticated-ends x r m (inr (urq, (u, (i, inr (w, (g, e)))))) = elim (auth_cases urq) [
    | inl (p, n) ↦ absurd (n i)
    | inr (inl (p, (j, y))) ↦ absurd (g y)
    | inr (inr (p, (j, y))) ↦ ground (arith, r, m, u, p, w, e)
  ]

  IsFailed-ends :
      (x : GoError) (need_auth : Bool)
      → (need_auth ≡ false → IsKnown pid peers)
      → IsFailed x
      → (socks5_negotiate auth_func auth_error need_auth pid d peers).0 ≡ ended x
  unfolding socks5_negotiate
  IsFailed-ends x need_auth k (inl r) = ground (arith, r)
  IsFailed-ends x false k (inr (r, inl m)) = ground (arith, r, m)
  IsFailed-ends x true k (inr (r, inl m)) = ground (arith, r, m)
  IsFailed-ends x false k (inr (r, inr (m, (n, u)))) = absurd (n (k refl))
  IsFailed-ends x true k (inr (r, inr (m, (n, u)))) = IsUnauthenticated-ends x r m u

  negotiated-IsFailed : (x : GoError) → (negotiated ≡ ended x) ↔ IsFailed x
  negotiated-IsFailed x =
      let (told, tells) = socks5_precheck-IsKnown pid peers in
      (
        socks5_negotiate-IsFailed x (socks5_precheck pid peers) (λ b k. cc (b, tells k)),
        IsFailed-ends x (socks5_precheck pid peers) told,
      )

  -- The negotiation fails with an error that is left out of the log.
  abbrev pub IsSwallowed : Type 0
  IsSwallowed = (x : GoError) × (IsFailed x × IsLeftOut x)

  module _ (ob : Dialer) (unsupported : GoError) (a : Answers) (req : Try Request) where
    abbrev pub served : Option (List Action)
    served = (handler ob unsupported auth_func auth_error pid d a req peers).actions

    served_by :
        served ≢ none
        → (negotiated ≡ passed)
          ⊎ ((x : GoError) × ((negotiated ≡ ended x) × (should_log_error (some x) ≡ false)))
    unfolding handler
    served_by n = elim (Ending-cases negotiated) [
      | inl p ↦ inl p
      | inr (inr p) ↦ absurd (n (ground (arith, p)))
      | inr (inl (x, p)) ↦ elim (Bool-cases (should_log_error (some x))) [
        | inl b ↦ absurd (n (ground (arith, p, b)))
        | inr b ↦ inr (x, (p, b))
      ]
    ]

    serves_passed :
        negotiated ≡ passed → served ≡ some (socks5_request_connect ob unsupported a req).1
    unfolding handler
    serves_passed h = ground (arith, h)

    serves_swallowed :
        (x : GoError)
        → negotiated ≡ ended x
        → should_log_error (some x) ≡ false
        → served ≡ some (socks5_request_connect ob unsupported a req).1
    unfolding handler
    serves_swallowed x h s = ground (arith, h, s)

    -- A stream's request is served exactly if the messages of the negotiation went through and the peer has
    -- authenticated before or sends a password whose first eight bytes are a number that `AuthFunc` takes, or
    -- if the first call that fails does so with an EOF, a reset, or an error whose text names a timeout, a
    -- reset or something closed; that call may be the write of the refusal to a peer whose password is wrong.
    pub handler_serves_iff : (served ≢ none) ↔ (IsAdmitted ⊎ IsSwallowed)
    handler_serves_iff = (
      λ n. elim (served_by n) [
        | inl p ↦ inl (admitted_iff.0 p)
        | inr (x, (p, b)) ↦ inr (x, ((negotiated-IsFailed x).0 p, (left_out x).0 b))
      ],
      λ c e. elim c [
        | inl p ↦ absurd (cc (serves_passed (admitted_iff.1 p), e))
        | inr (x, (f, l)) ↦
            absurd (cc (serves_swallowed x ((negotiated-IsFailed x).1 f) ((left_out x).1 l), e))
      ],
    )
