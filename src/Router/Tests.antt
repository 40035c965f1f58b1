-- ===== src/Router/Tests.antt =====
-- The witnesses of the theorems on the router: a default route and one for 10.0.0.0/8.
use tcp_lab.Base.{
  ℕ, ◌+◌, zero, ◌⊎◌, suc, ◌≡◌, refl, Option, none, some, List, [], ◌∷◌, arith, ◌>>=◌, ok,
}
use tcp_lab.Util.BufferList
use tcp_lab.Wire.Ipv4Header
use tcp_lab.Wire.Ipv4Datagram
use tcp_lab.Wire.Ipv4Datagram.{Ipv4Datagram}
use tcp_lab.Interface
use tcp_lab.Interface.Waiting.{Serializes}
use tcp_lab.Router.Forward.{hopped, Forwarded, route_one_datagram_lem}
use tcp_lab.Router.{
  Router, AsyncNetworkInterface, route_one_datagram, Route, add_route, rejoin, locate, follow,
  choose,
}
use tcp_lab.Router.Search.{spot, Linked, Holds}
use tcp_lab.Router.Longest.{Skipping, IsLongest, choose-IsLongest}

abbrev default_route : Route
default_route = record {
  key = record { start = 0; end = 0xffff_ffff };
  nearest = none;
  interface_num = 0;
  next_hop = 0xc0a8_0001;
  prefix_length = 0;
}

abbrev local_route : Route
local_route = record {
  key = record { start = 0x0a00_0000; end = 0x0aff_ffff };
  nearest = some default_route.key;
  interface_num = 1;
  next_hop = 0;
  prefix_length = 8;
}

abbrev routes : List Route
routes = default_route ∷ local_route ∷ []

routes-Linked : Linked routes
unfolding spot follow locate rejoin
routes-Linked zero = tt
routes-Linked (suc zero) =
    (default_route, [], local_route ∷ [], refl, refl, omega arith, omega arith)
routes-Linked (suc (suc n)) = tt

-- Two routes inside 10.0.0.0/8; the stored iterator of the second leaves out the first.
abbrev inner : ℕ → Route
inner start = record {
  key = record { start = start; end = start + 0xffff };
  nearest = some local_route.key;
  interface_num = 1;
  next_hop = 0;
  prefix_length = 16;
}

abbrev nested : List Route
nested = default_route ∷ local_route ∷ inner 0x0a01_0000 ∷ inner 0x0a02_0000 ∷ []

-- `add_route` builds this table.
nested_built :
    (add_route (λ n. 20) (record { interfaces = []; table = [] }) 0 0 (some 0xc0a8_0001) 0 >>= (λ a.
      add_route (λ n. 16) a 0x0a00_0000 8 none 1 >>= (λ b.
        add_route (λ n. 11) b 0x0a01_0000 16 none 1
        >>= (λ c. add_route (λ n. 11) c 0x0a02_0000 16 none 1))))
    ≡ ok (record { interfaces = []; table = nested })
unfolding add_route rejoin
nested_built = refl

nested-Linked : Linked nested
unfolding spot follow locate rejoin
nested-Linked zero = tt
nested-Linked (suc zero) = (default_route, [], _, refl, refl, omega arith, omega arith)
nested-Linked (suc (suc zero)) =
    (local_route, default_route ∷ [], _, refl, refl, omega arith, omega arith)
nested-Linked (suc (suc (suc zero))) =
    (local_route, default_route ∷ [], _, refl, refl, omega arith, omega arith)
nested-Linked (suc (suc (suc (suc n)))) = tt

nested-Skipping : Skipping nested
unfolding spot follow locate
nested-Skipping zero = tt
nested-Skipping (suc zero) = ([], refl, tt, omega arith)
nested-Skipping (suc (suc zero)) = ([], refl, tt, omega arith)
nested-Skipping (suc (suc (suc zero))) =
    (inner 0x0a01_0000 ∷ [], refl, (omega arith, tt), omega arith)
nested-Skipping (suc (suc (suc (suc n)))) = tt

choose-IsLongest_example :
    (found : Option Route) × (choose nested 0x0a03_0203 ≡ ok found)
    × ((x : Route) → found ≡ some x → Holds nested 0x0a03_0203 x)
    × IsLongest nested 0x0a03_0203 found
choose-IsLongest_example =
    choose-IsLongest nested 0x0a03_0203 nested-Linked nested-Skipping
      (
        omega arith,
        omega arith,
        (omega arith, omega arith, (omega arith, omega arith, (omega arith, omega arith, tt))),
      )
      (omega arith)

abbrev port : AsyncNetworkInterface
port = record {
  interface = Interface.new (2 ∷ 0 ∷ 0 ∷ 0 ∷ 0 ∷ 1 ∷ []) 0x0a00_0001;
  datagrams_out = [];
}

abbrev router : Router
router = record { interfaces = port ∷ port ∷ []; table = routes }

-- An empty datagram for 10.1.2.3.
abbrev datagram : Ipv4Datagram
datagram = record Ipv4Datagram.default {
  header = record Ipv4Header.default { len = 20; ttl = 64; dst = 0x0a01_0203 };
}

hopped-Serializes : Serializes (hopped datagram)
unfolding Ipv4Datagram.serialize Ipv4Header.serialize BufferList.size Ipv4Header.payload_length
hopped-Serializes = (_, refl)

route_one_datagram_lem_example :
    (r' : Router) × (route_one_datagram router datagram ≡ ok r')
    × (((choose routes 0x0a01_0203 ≡ ok none) × (r' ≡ router)) ⊎ Forwarded router datagram r')
unfolding Interface.new
route_one_datagram_lem_example =
    route_one_datagram_lem router datagram routes-Linked (omega arith) (omega arith) (omega arith)
      hopped-Serializes
