-- ===== src/Router/Forward.antt =====
-- What libsponge/router.cc (`route_one_datagram`) does with a datagram, down to the interface.
use tcp_lab.Base.{
  ℕ, zero, suc, ◌-◌, ◌<◌, ◌≡◌, refl, ap, subst, ◌⊎◌, inl, inr, Option, none, some, List, [], ◌∷◌,
  ◌++◌, arith, ◌==◌, if◌then◌else◌, length, All, ok, IsU64,
}
use tcp_lab.Wire.Ethernet.{EthernetAddress, EthernetFrame, type_ipv4}
use tcp_lab.Wire.Ipv4Datagram
use tcp_lab.Wire.Ipv4Datagram.{Ipv4Datagram}
use tcp_lab.Interface.{NetworkInterface, known_address, send_datagram}
use tcp_lab.Interface.Arp.{Asked, send_datagram_unknown}
use tcp_lab.Interface.Waiting.{Serializes, send_dgram_lem}
use tcp_lab.Router.{
  AsyncNetworkInterface, Route, Router, rejoin, choose, at_interface, decrement_ttl, forward,
  route_one_datagram,
}
use tcp_lab.Router.Search.{Linked, Holds, choose_lem}

-- The interface has sent the datagram to the known address of the neighbour, in one frame.
abbrev pub Sent : NetworkInterface → ℕ → Ipv4Datagram → NetworkInterface → Type 0
Sent i hop d i' =
    (a : EthernetAddress) × (f : EthernetFrame) × (known_address i hop ≡ some a)
    × (i' ≡ record i { frames_out = i.frames_out ++ (f ∷ []) })
    × (f.header ≡ record { dst = a; src = i.ethernet_address; type = type_ipv4 })
    × (Ipv4Datagram.serialize d ≡ ok f.payload)

-- Or it does not know the address; the datagram waits, and the address is asked for.
abbrev pub Handed : NetworkInterface → ℕ → Ipv4Datagram → NetworkInterface → Type 0
Handed i hop d i' = Sent i hop d i' ⊎ ((known_address i hop ≡ none) × Asked i hop d i')

send_datagram_lem :
    (i : NetworkInterface) (d : Ipv4Datagram) (hop : ℕ)
    → IsU64 i.timer
    → Serializes d
    → (i' : NetworkInterface) × (send_datagram i d hop ≡ ok i') × Handed i hop d i'
unfolding send_datagram
send_datagram_lem i d hop word fits = go (known_address i hop) refl
  where
    go :
        (k : Option EthernetAddress)
        → known_address i hop ≡ k
        → (i' : NetworkInterface) × (send_datagram i d hop ≡ ok i') × Handed i hop d i'
    go none e =
        let (i', sent, asked) = send_datagram_unknown i d hop word e in (i', sent, inr (e, asked))
    go (some a) e =
        let (f, sent, header, payload) = send_dgram_lem i d a fits in
        (
          record i { frames_out = i.frames_out ++ (f ∷ []) },
          rw (e, send_datagram) sent,
          inl (a, f, e, refl, header, payload),
        )

-- The interface at `n`, between the others.
abbrev pub At : List AsyncNetworkInterface → ℕ → Type 0
At is n =
    (before : List AsyncNetworkInterface) × (a : AsyncNetworkInterface) × (after : List
      AsyncNetworkInterface)
    × (is ≡ before ++ (a ∷ after))
    × (length before ≡ n)

at_interface_lem :
    (is : List AsyncNetworkInterface) (n : ℕ) (d : Ipv4Datagram) (hop : ℕ)
    → n < length is
    → All (λ a. IsU64 a.interface.timer) is
    → Serializes d
    → (p : At is n) × (i' : NetworkInterface) × (at_interface is n (λ i. send_datagram i d hop)
        ≡ ok (p.0 ++ (record p.1 { interface = i' } ∷ p.2)))
      × Handed p.1.interface hop d i'
unfolding at_interface
at_interface_lem [] n d hop small words fits = absurd (omega arith)
at_interface_lem (a ∷ rest) zero d hop small (word, words) fits =
    let (i', e, h) = send_datagram_lem a.interface d hop word fits in
    (([], a, rest, refl, refl), i', rw e refl, h)
at_interface_lem (a ∷ rest) (suc n) d hop small (word, words) fits =
    let ((before, b, after, e, at), i', r, h) =
      at_interface_lem rest n d hop (omega arith) words fits in
    ((a ∷ before, b, after, ap (λ k. a ∷ k) e, ap suc at), i', rw r refl, h)

All-rejoin : (P : Route → Type 0) (before xs : List Route) → All P (rejoin before xs) → All P xs
unfolding rejoin
All-rejoin P [] xs a = a
All-rejoin P (y ∷ before) xs a = (All-rejoin P before (y ∷ xs) a).1

-- The datagram with one hop less to go.
abbrev pub hopped : Ipv4Datagram → Ipv4Datagram
hopped d = record d { header = record d.header { ttl = d.header.ttl - 1 } }

decrement_ttl_lem : (d : Ipv4Datagram) → 1 < d.header.ttl → decrement_ttl d ≡ some (hopped d)
unfolding decrement_ttl
decrement_ttl_lem d h = ground arith

-- The router `r'` after `r` has forwarded the datagram by a route of its destination.
abbrev pub Forwarded : Router → Ipv4Datagram → Router → Type 0
Forwarded r d r' =
    (x : Route) × Holds r.table d.header.dst x
    × ((p : At r.interfaces x.interface_num) × (i' : NetworkInterface) × (r'
          ≡ record r { interfaces = p.0 ++ (record p.1 { interface = i' } ∷ p.2) })
        × Handed p.1.interface (if x.next_hop == 0 then d.header.dst else x.next_hop) (hopped d) i')

-- On a router whose table is linked and whose routes name interfaces that it has, with 64-bit clocks,
-- a datagram that has more than one hop to go and can be serialized with one hop less is routed
-- without an exception. Either no route is found, and the router stays as it is; or a route of the
-- table whose range holds the destination decides, and only the interface that it names changes.
-- That interface sends the datagram, with one hop less, in one frame to the Ethernet address of the
-- next hop (the destination itself where the route has no gateway) if it knows it, and otherwise
-- keeps it and asks for the address.
pub route_one_datagram_lem :
    (r : Router) (d : Ipv4Datagram)
    → Linked r.table
    → All (λ x. x.interface_num < length r.interfaces) r.table
    → All (λ a. IsU64 a.interface.timer) r.interfaces
    → 1 < d.header.ttl
    → Serializes (hopped d)
    → (r' : Router) × (route_one_datagram r d ≡ ok r')
      × (((choose r.table d.header.dst ≡ ok none) × (r' ≡ r)) ⊎ Forwarded r d r')
unfolding route_one_datagram forward
route_one_datagram_lem r d linked named words hops fits =
    let (found, e, holds) = choose_lem r.table d.header.dst linked in go found e holds
  where
    go :
        (found : Option Route)
        → choose r.table d.header.dst ≡ ok found
        → ((x : Route) → found ≡ some x → Holds r.table d.header.dst x)
        → (r' : Router) × (route_one_datagram r d ≡ ok r')
          × (((choose r.table d.header.dst ≡ ok none) × (r' ≡ r)) ⊎ Forwarded r d r')
    go none e holds = (r, rw (decrement_ttl_lem d hops, route_one_datagram, e) refl, inl (e, refl))
    go (some x) e holds =
        let k = holds x refl in
        let (before, after, at) = k.0 in
        let inside = (All-rejoin _ before (x ∷ after) (subst (All _) at named)).0 in
        let (p, i', sent, handed) =
          at_interface_lem r.interfaces x.interface_num (hopped d)
            (if x.next_hop == 0 then d.header.dst else x.next_hop) inside words fits in
        (
          record r { interfaces = p.0 ++ (record p.1 { interface = i' } ∷ p.2) },
          rw (decrement_ttl_lem d hops, route_one_datagram, e, sent) refl,
          inr (x, k, (p, i', refl, handed)),
        )
