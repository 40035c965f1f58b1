-- ===== src/Router.antt =====
-- libsponge/router.hh and router.cc: longest-prefix matching between interfaces.
-- The map `_router_table` is the list of its elements in the order of `cmp_map`. An iterator that
-- the table stores is the key that it points to, `none` for `end()`. `ln` stands for the C library's
-- `log`, cut to an integer. The loops that follow stored iterators run on fuel.
pub mod Search
pub mod Longest
pub mod Forward
mod Tests
use Prim.Native.Nat.{bit_and}
use tcp_lab.Base.{
  ℕ, zero, suc, ◌+◌, ◌-◌, ◌*◌, ◌%◌, ◌^◌, Bool, not, ◌&&◌, Option, none, some, List, [], ◌∷◌, ◌++◌,
  ltb, leb, ◌==◌, if◌then◌else◌, length, add32, sub32, uint32_max, Result, ok, throw, ◌>>=◌,
  out_of_range, undefined_behaviour, out_of_fuel,
}
use tcp_lab.Wire.Ethernet.{EthernetFrame}
use tcp_lab.Wire.Ipv4Datagram.{Ipv4Datagram}
use tcp_lab.Interface
use tcp_lab.Interface.{NetworkInterface}

-- `AsyncNetworkInterface`
pub record AsyncNetworkInterface : Type 0 where
  pub interface : NetworkInterface
  pub datagrams_out : List Ipv4Datagram

-- `AsyncNetworkInterface::recv_frame`
unfoldable pub recv_frame : AsyncNetworkInterface → EthernetFrame → Result AsyncNetworkInterface
recv_frame a frame = do
  (i, dgram) ← Interface.recv_frame a.interface frame
  ok (elim dgram [
    | none ↦ record a { interface = i }
    | some d ↦ record { interface = i; datagrams_out = a.datagrams_out ++ (d ∷ []) }
  ])

-- `_rt_k`
pub record RouteKey : Type 0 where
  pub start : ℕ
  pub end : ℕ

-- A key with its `_rt_v`.
pub record Route : Type 0 where
  pub key : RouteKey
  pub nearest : Option RouteKey
  pub interface_num : ℕ
  pub next_hop : ℕ
  pub prefix_length : ℕ

pub record Router : Type 0 where
  pub interfaces : List AsyncNetworkInterface
  pub table : List Route

-- `cmp_map`, and the equivalence of keys that it gives.
unfoldable pub key_less : RouteKey → RouteKey → Bool
key_less ts tb = if ts.start == tb.start then ltb tb.end ts.end else ltb ts.start tb.start

abbrev pub same_key : RouteKey → RouteKey → Bool
same_key a b = a.start == b.start && a.end == b.end

-- `_router_table.lower_bound(key)`: the elements with smaller keys, nearest first, and the rest.
unfoldable pub lower_bound : RouteKey → List Route → List Route → List Route × List Route
unfolding key_less
lower_bound key before [] = (before, [])
lower_bound key before (x ∷ xs) =
    let further = lower_bound key (x ∷ before) xs in
    if key_less x.key key then further else (before, x ∷ xs)

unfoldable pub rejoin : List Route → List Route → List Route
rejoin [] after = after
rejoin (x ∷ before) after = rejoin before (x ∷ after)

-- The entry that `_router_table.insert` returns, and what is behind it. A key that is there keeps
-- its value.
unfoldable pub insert : Route → List Route → Route × List Route
insert new [] = (new, [])
insert new (x ∷ after) =
    let same = same_key x.key new.key in
    (if same then x else new, if same then after else x ∷ after)

-- `_router_table.begin()`
abbrev pub begin_of : List Route → Option RouteKey
begin_of [] = none
begin_of (x ∷ xs) = some x.key

-- The first loop: the nearest element before `insert` whose end is larger.
unfoldable pub find_wider : ℕ → List Route → Option RouteKey
find_wider end_index [] = none
find_wider end_index (x ∷ before) =
    let further = find_wider end_index before in
    if ltb end_index x.key.end then some x.key else further

-- The inner loop of the short strategy, behind its `++it`: the elements passed, nearest first.
unfoldable pub skip_inside : ℕ → List Route → List Route → List Route × List Route
skip_inside it_end passed [] = (passed, [])
skip_inside it_end passed (x ∷ xs) =
    let further = skip_inside it_end (x ∷ passed) xs in
    if ltb x.key.start it_end then further else (passed, x ∷ xs)

-- The second loop, on fuel: `passed` are the elements from `insert` up to `it`, nearest first.
-- The long strategy looks in the whole table.
unfoldable pub relink : ℕ → ℕ → Route → List Route → List Route → Result (List Route)
unfolding skip_inside lower_bound
relink zero log_length new passed after = throw out_of_fuel
relink (suc fuel) log_length new passed [] = ok (rejoin passed [])
relink (suc fuel) log_length new passed (x ∷ after) =
    let x' = record x { nearest = some new.key } in
    let short = skip_inside x.key.end (x' ∷ passed) after in
    let long =
      lower_bound (record { start = x.key.end; end = uint32_max }) []
        (rejoin passed (x' ∷ after)) in
    let target = if ltb (add32 (sub32 x.key.end x.key.start) 1) log_length then short else long in
    let rest = relink fuel log_length new target.0 target.1 in
    if leb x.key.end new.key.end then ok (rejoin passed (x ∷ after)) else rest

-- The numbers of a route: the mask is `UINT32_MAX << shift`.
abbrev pub start_index : ℕ → ℕ → ℕ
start_index route_prefix prefix_length =
    let shift : ℕ = if prefix_length == 0 then 0 else 32 - prefix_length in
    bit_and route_prefix (uint32_max * 2 ^ shift % 2 ^ 32)

abbrev pub end_index : ℕ → ℕ → ℕ
end_index route_prefix prefix_length =
    add32 (start_index route_prefix prefix_length) (2 ^ (32 - prefix_length) - 1)

-- `next_hop` is the address's `ipv4_numeric()`. The fuel is two turns for each element.
unfoldable pub add_route : (ℕ → ℕ) → Router → ℕ → ℕ → Option ℕ → ℕ → Result Router
unfolding lower_bound insert find_wider relink
add_route ln r route_prefix prefix_length next_hop interface_num =
    let key : RouteKey = record {
      start = route_prefix;
      end = end_index route_prefix prefix_length;
    } in
    let new : Route = record {
      key = key;
      nearest = begin_of r.table;
      interface_num = interface_num;
      next_hop = elim next_hop [ none ↦ 0 | some a ↦ a ];
      prefix_length = prefix_length;
    } in
    let (before, from) = lower_bound key [] r.table in
    let (x, after) = insert new from in
    let x' : Route = record x {
      nearest = elim (find_wider key.end before) [ none ↦ x.nearest | some k ↦ some k ];
    } in
    let log_length = ln (add32 (sub32 key.end route_prefix) 1) in
    do
      table ← relink (2 * length r.table + 2) log_length x' (x' ∷ before) after
      ok (record r { table = table })

-- The element that a stored iterator points to, with what is before it.
unfoldable pub locate : RouteKey → List Route → List Route → Option (Route × List Route)
locate key before [] = none
locate key before (x ∷ xs) =
    let further = locate key (x ∷ before) xs in
    if same_key x.key key then some (x, before) else further

-- The best route so far, `none` until `saved`.
unfoldable pub better : ℕ → Option Route → Route → Option Route
better dst saved x =
    let plen : ℕ = elim saved [ none ↦ 0 | some s ↦ s.prefix_length ] in
    if leb dst x.key.end && leb plen x.prefix_length then some x else saved

-- `get<0>(it->second)`, followed. What is behind `end()` is undefined.
unfoldable pub follow : List Route → Route → Result (Route × List Route)
unfolding locate
follow table x = elim x.nearest [
  | none ↦ throw undefined_behaviour
  | some key ↦ elim (locate key [] table) [ none ↦ throw undefined_behaviour | some p ↦ ok p ]
]

-- The loop once `fast_search` is set, on fuel: `it` is `x`, with `before` before it.
unfoldable pub fast_search :
    ℕ → List Route → ℕ → Option Route → Route → List Route → Result (Option Route)
unfolding better follow
fast_search zero table dst saved x before = throw out_of_fuel
fast_search (suc fuel) table dst saved x [] = ok saved
fast_search (suc fuel) table dst saved x (y ∷ before) = do
  (z, earlier) ← follow table x
  fast_search fuel table dst (better dst saved z) z earlier

-- The loop before that: one step back at a time.
unfoldable pub search : ℕ → List Route → ℕ → Option Route → List Route → Result (Option Route)
unfolding better fast_search
search fuel table dst saved [] = ok saved
search fuel table dst saved (x ∷ before) =
    let saved' = better dst saved x in
    let back = search fuel table dst saved' before in
    let fast = fast_search fuel table dst saved' x before in
    if leb x.key.end dst then fast else back

-- The route that `route_one_datagram` chooses.
unfoldable pub choose : List Route → ℕ → Result (Option Route)
unfolding lower_bound search
choose table dst =
    search (length table + 1) table dst none
      (lower_bound (record { start = dst; end = 0 }) [] table).0

-- `interface(n)`, changed by `f`; `at` throws out of range.
unfoldable pub at_interface :
    List AsyncNetworkInterface
    → ℕ
    → (NetworkInterface → Result NetworkInterface)
    → Result (List AsyncNetworkInterface)
at_interface [] n f = throw out_of_range
at_interface (a ∷ rest) zero f = do i ← f a.interface; ok (record a { interface = i } ∷ rest)
at_interface (a ∷ rest) (suc n) f = do rest' ← at_interface rest n f; ok (a ∷ rest')

-- The hop limit: `none` for a datagram that ends here.
unfoldable pub decrement_ttl : Ipv4Datagram → Option Ipv4Datagram
decrement_ttl d =
    let ttl = if not (d.header.ttl == 0) then d.header.ttl - 1 else d.header.ttl in
    if ttl == 0 then none else some (record d { header = record d.header { ttl = ttl } })

unfoldable pub forward : Router → Ipv4Datagram → Result Router
unfolding choose at_interface
forward r d = do
  found ← choose r.table d.header.dst
  elim found [
    | none ↦ ok r
    | some x ↦ do
      let hop = if x.next_hop == 0 then d.header.dst else x.next_hop
      is ← at_interface r.interfaces x.interface_num (λ i. Interface.send_datagram i d hop)
      ok (record r { interfaces = is })
  ]

unfoldable pub route_one_datagram : Router → Ipv4Datagram → Result Router
unfolding decrement_ttl forward
route_one_datagram r d = elim (decrement_ttl d) [ none ↦ ok r | some d' ↦ forward r d' ]

-- `while (not queue.empty())`
unfoldable pub route_all : Router → List Ipv4Datagram → Result Router
unfolding route_one_datagram
route_all r [] = ok r
route_all r (d ∷ ds) = do r' ← route_one_datagram r d; route_all r' ds

-- The queue of the interface at `n`, and the interfaces with that queue empty.
unfoldable pub take_queue :
    List AsyncNetworkInterface → ℕ → List Ipv4Datagram × List AsyncNetworkInterface
take_queue [] n = ([], [])
take_queue (a ∷ rest) zero = (a.datagrams_out, record a { datagrams_out = [] } ∷ rest)
take_queue (a ∷ rest) (suc n) = let (q, rest') = take_queue rest n in (q, a ∷ rest')

-- The loop over the interfaces from `n` on, of which `left` are to be done.
unfoldable pub route_from : ℕ → ℕ → Router → Result Router
unfolding route_all take_queue
route_from zero n r = ok r
route_from (suc left) n r = do
  let (queue, is) = take_queue r.interfaces n
  r' ← route_all (record r { interfaces = is }) queue
  route_from left (n + 1) r'

unfoldable pub route : Router → Result Router
unfolding route_from
route r = route_from (length r.interfaces) 0 r

-- `add_interface`, and the index that it returns.
unfoldable pub add_interface : Router → AsyncNetworkInterface → Router × ℕ
add_interface r a =
    let is = r.interfaces ++ (a ∷ []) in (record r { interfaces = is }, length is - 1)
