-- ===== src/Gateway/ResourceApi/Laws.antt =====
-- Which requests change the resources, and what a peer's handshake reaches.
use uptp.Common.{ℕ, ◌≡◌, ◌≢◌, ◌↔◌, ◌⊎◌, inl, inr, refl, sym, ap, ◌∙◌, arith, none, some}
use uptp.Common.{Bool, true, false, Bool-cases, Option-cases, ok, err, eq_iff, nat_beq_iff}
use uptp.Common.{if◌then◌else◌, ◌==◌, ◌&&◌, nat_eq, text_eq, nat_beq_ne}
use uptp.Common.Int.{pos, leb_ℤ, ltb_ℤ}
use native.Mathlib.Decide.{ℕ_discrete}
use uptp.Apiutil.{parsed, send_message, code_of}
use uptp.Gateway.Store.{Leveldb, MapJson, lookup_in}
use uptp.Gateway.PortmapResource.{
  PortmapResource, PortmapResMgr, get_app_by_id, or_zero, zero_resource,
}
use uptp.Gateway.PortmapResource.Laws.{updates, apply, lookup-apply, lookup-made}
use uptp.Gateway.ResourceApi.{
  validate_portmap_resource, update_resource, handle_portmap_handshake, Target, PortmapAppHandshake,
  trial_id,
}

-- What the web console may store.
pub record IsUsable (r : PortmapResource) : Type 0 where
  pub named : r.name ≢ ""
  pub network : (r.network ≡ "tcp") ⊎ (r.network ≡ "udp")
  pub addressed : r.target_addr ≢ ""
  pub port_above : ltb_ℤ (pos 0) r.target_port ≡ true
  pub port_below : leb_ℤ r.target_port (pos 65535) ≡ true
  pub local_below : leb_ℤ r.local_port (pos 65535) ≡ true

-- `validatePortmapResource` returns nil exactly for the usable resources. Any negative local port
-- is usable.
pub validate_iff : (r : PortmapResource) → (validate_portmap_resource r ≡ none) ↔ IsUsable r
unfolding validate_portmap_resource
validate_iff r = (
  λ h. ground (
    arith,
    eq_iff r.name "",
    eq_iff r.network "tcp",
    eq_iff r.network "udp",
    eq_iff r.target_addr "",
  ),
  λ u. ground (
    arith,
    eq_iff r.name "",
    eq_iff r.network "tcp",
    eq_iff r.network "udp",
    eq_iff r.target_addr "",
    u.network,
  ),
)

-- The target of a resource, and that which a peer names itself.
abbrev pub target_of : PortmapResource → Target
target_of r = record { network = r.network; addr = r.target_addr; port = r.target_port }

abbrev pub asked_target : PortmapAppHandshake → Target
asked_target hs = record { network = hs.network; addr = hs.target_addr; port = hs.target_port }

abbrev pub IsTrialRequest : Bool → PortmapAppHandshake → Type 0
IsTrialRequest trial hs = (trial ≡ true) × (hs.res_id ≡ trial_id)

pub request_cases :
    (trial : Bool) (hs : PortmapAppHandshake)
    → IsTrialRequest trial hs ⊎ (IsTrialRequest trial hs → ⊥)
request_cases true hs = elim (ℕ_discrete hs.res_id trial_id) [
  | yes e ↦ inl (refl, e)
  | no n ↦ inr (λ b. n b.1)
]
request_cases false hs = inr (λ b. cc (b.0))

module _ {D : Type 0} where
  -- Every resource stands under its own id.
  pub record IsKeyed (m : PortmapResMgr D) : Type 0 where
    pub at_key : (id : ℕ) (r : PortmapResource) → lookup_in id m.resources ≡ some r → r.id ≡ id

  pub found_app :
      (id : ℕ) (m : PortmapResMgr D) (r : PortmapResource)
      → lookup_in id m.resources ≡ some r
      → (get_app_by_id id m).0 ≡ r
  unfolding get_app_by_id
  found_app id m r e = ap or_zero (lookup-made id m.resources ∙ e)

  pub missing_app :
      (id : ℕ) (m : PortmapResMgr D)
      → lookup_in id m.resources ≡ none
      → (get_app_by_id id m).0 ≡ zero_resource
  unfolding get_app_by_id
  missing_app id m e = ap or_zero (lookup-made id m.resources ∙ e)

  pub lookup-get_app_by_id :
      (k id : ℕ) (m : PortmapResMgr D)
      → lookup_in k (get_app_by_id id m).1.resources ≡ lookup_in k m.resources
  unfolding get_app_by_id
  lookup-get_app_by_id k id m = lookup-made k m.resources

  module _ (trial : Bool) (hs : PortmapAppHandshake) (m : PortmapResMgr D) where
    asked :
        IsTrialRequest trial hs
        → (handle_portmap_handshake trial (ok hs) m).0 ≡ ok (asked_target hs)
    unfolding handle_portmap_handshake
    asked (b, e) = rw (b, e, handle_portmap_handshake)

    not_trial : (IsTrialRequest trial hs → ⊥) → (trial && hs.res_id == trial_id) ≡ false
    not_trial n = elim (Bool-cases (trial && hs.res_id == trial_id)) [
      | inl b ↦ absurd (n (ground arith, ground (arith, nat_beq_iff hs.res_id trial_id)))
      | inr b ↦ b
    ]

    nowhere :
        (IsTrialRequest trial hs → ⊥)
        → (get_app_by_id hs.res_id m).0.id ≡ 0
        → (handle_portmap_handshake trial (ok hs) m).0 ≡ err "portmap app not found"
    unfolding handle_portmap_handshake
    nowhere n e = rw (not_trial n, e)

    somewhere :
        (IsTrialRequest trial hs → ⊥)
        → (r : PortmapResource) → (get_app_by_id hs.res_id m).0 ≡ r
        → r.id ≢ 0
        → (handle_portmap_handshake trial (ok hs) m).0 ≡ ok (target_of r)
    unfolding handle_portmap_handshake
    somewhere n r e ne = rw (not_trial n, e, nat_beq_ne r.id 0 ne)

    -- The targets that the handshake may reach.
    abbrev pub Reaches : Target → Type 0
    Reaches t =
        (IsTrialRequest trial hs × (t ≡ asked_target hs))
        ⊎ ((IsTrialRequest trial hs → ⊥)
            × (hs.res_id ≢ 0)
            × ((r : PortmapResource) × (lookup_in hs.res_id m.resources ≡ some r)
                × (t ≡ target_of r)))

    module _ (keyed : IsKeyed m) where
      answered : (t : Target) → Reaches t → (handle_portmap_handshake trial (ok hs) m).0 ≡ ok t
      answered t (inl (b, e)) = asked b ∙ ap ok (sym e)
      answered t (inr (n, ne, (r, l, e))) =
          somewhere n r (found_app hs.res_id m r l) (λ z. ne (sym (keyed.at_key _ r l) ∙ z))
          ∙ ap ok (sym e)

      reached : (t : Target) → (handle_portmap_handshake trial (ok hs) m).0 ≡ ok t → Reaches t
      reached t h = elim (request_cases trial hs) [
        | inl b ↦ inl (b, cc (asked b))
        | inr n ↦ elim (Option-cases (lookup_in hs.res_id m.resources)) [
          | inl l ↦ absurd (cc (h, nowhere n (ap (λ r. r.id) (missing_app hs.res_id m l))))
          | inr (r, l) ↦ elim (ℕ_discrete r.id 0) [
            | yes z ↦ absurd (cc (h, nowhere n (ap (λ x. x.id) (found_app hs.res_id m r l) ∙ z)))
            | no ne ↦ inr (
              n,
              λ z. ne (keyed.at_key _ r l ∙ z),
              (r, l, cc (somewhere n r (found_app hs.res_id m r l) ne)),
            )
          ]
        ]
      ]

      -- Where every resource stands under its own id, a handshake that decodes is answered with a
      -- target exactly if this is a trial gateway and the trial id is asked for, and then the
      -- target is the peer's own choice; or otherwise the id is not 0 and a resource stands under
      -- it, and then the target is that resource's.
      pub handle_portmap_handshake_iff :
          (t : Target) → ((handle_portmap_handshake trial (ok hs) m).0 ≡ ok t) ↔ Reaches t
      handle_portmap_handshake_iff t = (reached t, answered t)

module _ {D B : Type 0} (ldb : Leveldb D B) (json : MapJson B PortmapResource) where
  module _ (pa : PortmapResource) (m : PortmapResMgr D) where
    -- An update whose body parses and that is answered with a code other than 0 and 500 changes no
    -- resource.
    pub update_resource_refused :
        (k : ℕ)
        → code_of (update_resource ldb json (parsed pa) m).0 ≢ 0
        → code_of (update_resource ldb json (parsed pa) m).0 ≢ 500
        → lookup_in k (update_resource ldb json (parsed pa) m).1.resources ≡ lookup_in k m.resources
    unfolding update_resource send_message
    update_resource_refused k n n' = ground (arith, lookup-get_app_by_id k pa.id m)

    update_missing :
        lookup_in pa.id m.resources ≡ none → code_of (update_resource ldb json (parsed pa) m).0 ≢ 0
    unfolding update_resource send_message
    update_missing l h = ground (arith, ap (λ r. r.id) (missing_app pa.id m l))

    update_checked :
        code_of (update_resource ldb json (parsed pa) m).0 ≡ 0
        → (pa.id ≢ 0) × (validate_portmap_resource pa ≡ none)
    unfolding update_resource send_message
    update_checked h = ground arith

    update_written :
        (k : ℕ)
        → code_of (update_resource ldb json (parsed pa) m).0 ≡ 0
        → lookup_in k (update_resource ldb json (parsed pa) m).1.resources
          ≡ (if pa.id == k then some pa else lookup_in k m.resources)
    unfolding update_resource send_message apply
    update_written k h = ground (
      arith,
      lookup-apply ldb json (updates pa) (get_app_by_id pa.id m).1 k,
      lookup-get_app_by_id k pa.id m,
    )

    -- An update whose body parses and that is answered with code 0 named a usable resource whose
    -- id is not 0 and was there before, and has replaced that one and no other.
    pub update_resource_accepted :
        code_of (update_resource ldb json (parsed pa) m).0 ≡ 0
        → (pa.id ≢ 0)
          × ((old : PortmapResource) × (lookup_in pa.id m.resources ≡ some old))
          × IsUsable pa
          × ((k : ℕ)
              → lookup_in k (update_resource ldb json (parsed pa) m).1.resources
                ≡ (if pa.id == k then some pa else lookup_in k m.resources))
    update_resource_accepted h = (
      (update_checked h).0,
      elim (Option-cases (lookup_in pa.id m.resources)) [
        | inl l ↦ absurd (update_missing l h)
        | inr found ↦ found
      ],
      (validate_iff pa).0 (update_checked h).1,
      λ k. update_written k h,
    )
