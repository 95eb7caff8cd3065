-- ===== src/Gateway/Tests.antt =====
-- The resources, the settings and the authorization of package gateway, run on a database in memory.
use uptp.Common.{true, ℕ, ◌≡◌, ◌↔◌, refl, arith, none, some, []}
use uptp.Common.{false, ok, nat_eq, text_eq}
use uptp.Common.Int.{pos, negsuc}
use uptp.Common.GoMap.{lookup, insert}
use uptp.Gateway.Memory.{Db, memory, resource_json, ascii_bytes}
use uptp.Gateway.Store.{lookup_in, save_map, load_map}
use uptp.Gateway.PortmapResource.{
  PortmapResource, PortmapResMgr, save_portmap, add_portmap_res, new_portmap_res_mgr, load_res,
}
use uptp.Gateway.PortmapResource.Laws.{adds, apply, IsSynced, apply-IsSynced}
use uptp.Gateway.ResourceApi.{Target, handle_portmap_handshake, PortmapAppHandshake}
use uptp.Gateway.ResourceApi.Laws.{IsKeyed, Reaches, handle_portmap_handshake_iff, target_of}
use uptp.Gateway.Authorize.{portmap_auth_res}
use uptp.Gateway.Authorize.Laws.{authorized_iff_reachable}
use uptp.Gateway.Settings.{get_token, set_token}
use uptp.Gateway.Settings.Token.{get_token_stable}

abbrev ssh : PortmapResource
ssh = record {
  id = 7;
  name = "ssh";
  type = pos 0;
  network = "tcp";
  target_addr = "10.0.0.1";
  target_port = pos 22;
  local_ip = "";
  local_port = negsuc 4;
}

abbrev empty_mgr : PortmapResMgr Db
empty_mgr = record { db = []; resources = none }

-- One resource, in memory and in the database.
with_ssh : PortmapResMgr Db
unfolding apply add_portmap_res save_portmap save_map insert
with_ssh = (apply memory resource_json (adds ssh) empty_mgr).1

empty-IsSynced : IsSynced memory resource_json empty_mgr
unfolding new_portmap_res_mgr load_res load_map lookup
empty-IsSynced = (empty_mgr, refl, λ id. refl)

added : (apply memory resource_json (adds ssh) empty_mgr).0 ≡ none
unfolding apply add_portmap_res save_portmap save_map
added = refl

apply-IsSynced_example :
    IsSynced memory resource_json (apply memory resource_json (adds ssh) empty_mgr).1
apply-IsSynced_example =
    apply-IsSynced memory resource_json (λ r. refl) (adds ssh) empty_mgr empty-IsSynced added

some_eq : (a b : PortmapResource) → some a ≡ some b → a ≡ b
some_eq a b e = cc e

at_seven : (id : ℕ) (r : PortmapResource) → lookup_in id with_ssh.resources ≡ some r → r.id ≡ id
unfolding with_ssh lookup
at_seven id r h = ground (arith)

with_ssh-IsKeyed : IsKeyed with_ssh
with_ssh-IsKeyed = record { at_key = at_seven }

abbrev to_ssh : PortmapAppHandshake
to_ssh = record { res_id = 7; network = "udp"; target_addr = "elsewhere"; target_port = pos 1 }

handle_portmap_handshake_iff_example :
    ((handle_portmap_handshake false (ok to_ssh) with_ssh).0 ≡ ok (target_of ssh))
    ↔ Reaches false to_ssh with_ssh (target_of ssh)
handle_portmap_handshake_iff_example =
    handle_portmap_handshake_iff false to_ssh with_ssh with_ssh-IsKeyed (target_of ssh)

authorized_iff_reachable_example :
    ((portmap_auth_res false 7 with_ssh).0 ≡ true)
    ↔ ((t : Target) × ((handle_portmap_handshake false (ok to_ssh) with_ssh).0 ≡ ok t))
authorized_iff_reachable_example =
    authorized_iff_reachable with_ssh with_ssh-IsKeyed false to_ssh (λ e. omega (arith, e))

first_token : (get_token memory ascii_bytes 42 []).0 ≡ ok 42
unfolding get_token set_token lookup
first_token = refl

get_token_stable_example :
    get_token memory ascii_bytes 99 (get_token memory ascii_bytes 42 []).1
    ≡ (ok 42, (get_token memory ascii_bytes 42 []).1)
get_token_stable_example = get_token_stable memory ascii_bytes 42 99 42 [] (omega arith) first_token
