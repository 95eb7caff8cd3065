-- ===== src/Gateway/Router/Tests.antt =====
-- The router at concrete networks, over the plain search tree; dialers are numbers.
use uptp.Common.{ℕ, ◌≡◌, refl, List, true, none, some, [], ◌∷◌, if◌then◌else◌}
use uptp.Gateway.Cidr.{IpNet, get_cidr_int_range, host_mask, to4, set_bytes}
use uptp.Gateway.Cidr.Range.{ipv4_net}
use uptp.Gateway.Router.{Tree, leaf, find, get, clashes, add, add_range, add_route, del_route}
use uptp.Gateway.Router.Find.{IsValid}
use uptp.Gateway.Router.Routes.{within, get-add_route}
use uptp.Gateway.Router.Runs.{Call, adds, run, run-IsValid}
use uptp.Gateway.Router.Plain.{insert_key, remove_key, plain_tree}

abbrev ten_8 : IpNet
ten_8 = ipv4_net 10 0 0 0 8

abbrev ten_1_16 : IpNet
ten_1_16 = ipv4_net 10 1 0 0 16

abbrev ten_16 : IpNet
ten_16 = ipv4_net 10 0 0 0 16

abbrev lan : IpNet
lan = ipv4_net 192 168 1 0 24

range_of_lan : get_cidr_int_range lan ≡ (0xc0a8_0100, 0xc0a8_01ff)
unfolding get_cidr_int_range host_mask to4 set_bytes
range_of_lan = refl

abbrev calls : List (Call ℕ)
calls = adds lan 1 ∷ adds ten_8 2 ∷ adds ten_1_16 3 ∷ []

table : Tree ℕ
unfolding run add_route add_range get_cidr_int_range host_mask to4 set_bytes insert_key find clashes
table = run plain_tree calls leaf

-- The /16 inside the /8 is refused.
table_routes :
    (get table 0xc0a8_0105 ≡ some 1) × (get table 0x0a01_0000 ≡ some 2) × (get table 5 ≡ none)
unfolding table get
table_routes = (refl, refl, refl)

table-IsValid : IsValid table
unfolding table
table-IsValid = run-IsValid plain_tree calls

-- A second route in a free range.
abbrev far : IpNet
far = ipv4_net 172 16 0 0 12

far_accepted : (add_route plain_tree far 4 table).1 ≡ true
unfolding table add_route add_range add get_cidr_int_range host_mask to4 set_bytes find clashes
far_accepted = refl

get-add_route_example : get (add_route plain_tree far 4 table).0 0xac10_0001 ≡ (
    if within (get_cidr_int_range far).0 (get_cidr_int_range far).1 0xac10_0001
    then some 4
    else get table 0xac10_0001)
get-add_route_example = get-add_route plain_tree far table table-IsValid 4 0xac10_0001 far_accepted

ten_16_takes_ten_8 : get (del_route plain_tree ten_16 table) 0x0aff_0000 ≡ none
unfolding table del_route get_cidr_int_range host_mask to4 set_bytes find get remove_key
ten_16_takes_ten_8 = refl
