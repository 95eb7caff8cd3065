-- ===== src/Socks5/Negotiate/Tokens.antt =====
-- The password that a client's outbound carries (gateway/proxy_client.go), against the server whose
-- `AuthFunc` is the one that `Run` of gateway/gateway.go gives it.
use uptp.Common.{
  ℕ, ◌<◌, ◌^◌, ◌≡◌, ◌↔◌, ◌⊎◌, refl, subst, ap, sym, ◌∙◌, arith, Bool, true, false, some, String,
  length, take, from_bytes, ok, Result-cases, inl, inr, nat_eq,
}
use uptp.Socks5.Negotiate.{Peerstore, UserPass, socks5_auth}
use uptp.Socks5.Negotiate.Laws.{IsGranted, socks5_auth_iff}
use uptp.Gateway.Store.{Leveldb, TextBytes}
use uptp.Gateway.Settings.{get_token, proxy_auth, serve_auth}
use uptp.Gateway.Outbounds.{SocksOutbound, Reader, PeerWithAuth, fill_running_info, token_bytes}
use uptp.Gateway.Outbounds.Laws.{from_bytes-token_bytes}

eight_bytes : (t : ℕ) → length (token_bytes t) ≡ 8
unfolding token_bytes
eight_bytes t = refl

all_bytes : (t : ℕ) → take 8 (token_bytes t) ≡ token_bytes t
unfolding token_bytes
all_bytes t = refl

filled_password :
    (reader : Reader) (ob ob' : SocksOutbound)
    → fill_running_info reader ob ≡ ok ob'
    → ob'.socks5_peer.password ≡ token_bytes ob.token
unfolding fill_running_info
filled_password reader ob ob' h = elim (Result-cases (reader.decode ob.peer)) [
  | inl (p, d) ↦ elim (Result-cases (reader.parse_cidr ob.route)) [
    | inl (n, r) ↦ ground (arith, h, d, r)
    | inr (inl (e, r)) ↦ absurd (ground (arith, h, d, r))
    | inr (inr r) ↦ absurd (ground (arith, h, d, r))
  ]
  | inr (inl (e, d)) ↦ absurd (ground (arith, h, d))
  | inr (inr d) ↦ absurd (ground (arith, h, d))
]

-- The user name and the password that a client sends, as the server reads them
abbrev pub sent : PeerWithAuth → UserPass
sent p = record { plen = length p.password; passwd = p.password }

module _ (auth_func : ℕ → Bool) where
  token-IsGranted :
      (t : ℕ)
      → t < 2 ^ 64
      → IsGranted auth_func (record { plen = length (token_bytes t); passwd = token_bytes t })
        ↔ (auth_func t ≡ true)
  token-IsGranted t h =
      let read = ap auth_func (ap from_bytes (all_bytes t) ∙ from_bytes-token_bytes t h) in
      (
        λ (a, (b, g)). sym read ∙ g,
        λ g. (omega (arith, eight_bytes t), (omega (arith, eight_bytes t), read ∙ g)),
      )

module _ {D B : Type 0} (ldb : Leveldb D B) (text : TextBytes B) (random : ℕ) (db : D) where
  serve_auth_iff :
      (trial : Bool) (t : ℕ)
      → ((serve_auth ldb text trial random t db).0 ≡ true)
        ↔ ((trial ≡ true) ⊎ ((get_token ldb text random db).0 ≡ ok t))
  unfolding serve_auth proxy_auth
  serve_auth_iff true t = (λ h. inl refl, λ h. refl)
  serve_auth_iff false t = (
    λ h. inr (ground (arith, h)),
    λ h. elim h [ inl f ↦ absurd (cc f) | inr e ↦ ground (arith, e) ],
  )

  -- An outbound that was filled with a token of 64 bits authenticates at a gateway exactly if this is a
  -- trial gateway, whose `AuthFunc` takes every number, or if the gateway's own token is that token.
  pub socks5_auth-fill_running_info :
      (trial : Bool) (reader : Reader) (ob ob' : SocksOutbound)
      → fill_running_info reader ob ≡ ok ob'
      → ob.token < 2 ^ 64
      → (pid : String) (peers : Peerstore)
      → ((socks5_auth
            (λ t. (serve_auth ldb text trial random t db).0)
            pid
            (sent ob'.socks5_peer)
            peers).0
          ≡ some true)
        ↔ ((trial ≡ true) ⊎ ((get_token ldb text random db).0 ≡ ok ob.token))
  socks5_auth-fill_running_info trial reader ob ob' f h pid peers =
      let auth : ℕ → Bool = λ t. (serve_auth ldb text trial random t db).0 in
      let spelled =
        ap (λ b. record { plen = length b; passwd = b }) (filled_password reader ob ob' f) in
      let (granted, grants) = token-IsGranted auth ob.token h in
      let (told, tells) = serve_auth_iff trial ob.token in
      let (taken, takes) = socks5_auth_iff auth pid (sent ob'.socks5_peer) peers in
      (
        λ a. told (granted (subst (IsGranted auth) spelled (taken a))),
        λ e. takes (subst (IsGranted auth) (sym spelled) (grants (tells e))),
      )
