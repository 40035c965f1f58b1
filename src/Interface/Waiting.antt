-- ===== src/Interface/Waiting.antt =====
-- The datagrams of libsponge/network_interface.cc that wait for an address: a reply sends them.
use tcp_lab.Base.{
  ℕ, ◌≡◌, refl, sym, ◌∙◌, ap, none, some, List, [], ◌∷◌, IsU64, ◌>>=◌, ltb, ◌*◌, sub64, ◌++◌,
  append_assoc, append-nil, arith, ◌==◌, ==_self, if◌then◌else◌, Bool-cases, inl, inr, All, ok,
}
use tcp_lab.Util.BufferList.{BufferList}
use tcp_lab.Wire.Ethernet.{EthernetAddress, EthernetFrame, type_ipv4}
use tcp_lab.Wire.ArpMessage.{ArpMessage, opcode_reply}
use tcp_lab.Wire.Ipv4Datagram
use tcp_lab.Wire.Ipv4Datagram.{Ipv4Datagram}
use tcp_lab.Interface.{
  NetworkInterface, send_dgram, send_waiting, react, recv_arp, learn, known_address,
}
use tcp_lab.Interface.Arp.{known_address_found, find-assign}

-- The datagrams that wait for the address `ip`, in order, and the others.
abbrev pub waiting_for : ℕ → List (ℕ × Ipv4Datagram) → List Ipv4Datagram
waiting_for ip [] = []
waiting_for ip ((k, d) ∷ rest) =
    let more = waiting_for ip rest in if k == ip then d ∷ more else more

abbrev pub others : ℕ → List (ℕ × Ipv4Datagram) → List (ℕ × Ipv4Datagram)
others ip [] = []
others ip ((k, d) ∷ rest) = let more = others ip rest in if k == ip then more else (k, d) ∷ more

abbrev pub Serializes : Ipv4Datagram → Type 0
Serializes d = (out : BufferList) × (Ipv4Datagram.serialize d ≡ ok out)

-- The frames go from `src` to `dst` and carry the datagrams, one each, in order.
abbrev pub Carry :
    EthernetAddress → EthernetAddress → List Ipv4Datagram → List EthernetFrame → Type 0
Carry src dst [] [] = Unit {0}
Carry src dst [] (f ∷ frames) = ⊥
Carry src dst (d ∷ ds) [] = ⊥
Carry src dst (d ∷ ds) (f ∷ frames) =
    (f.header ≡ record { dst = dst; src = src; type = type_ipv4 })
    × (Ipv4Datagram.serialize d ≡ ok f.payload)
    × Carry src dst ds frames

-- What the loop leaves.
abbrev sent : NetworkInterface → List EthernetFrame → List (ℕ × Ipv4Datagram) → NetworkInterface
sent i frames kept = record i {
  frames_out = i.frames_out ++ frames;
  sent_dgram = kept ++ i.sent_dgram;
}

pub send_dgram_lem :
    (i : NetworkInterface) (d : Ipv4Datagram) (address : EthernetAddress)
    → Serializes d
    → (f : EthernetFrame) × (send_dgram i d address
        ≡ ok (record i { frames_out = i.frames_out ++ (f ∷ []) }))
      × (f.header ≡ record { dst = address; src = i.ethernet_address; type = type_ipv4 })
      × (Ipv4Datagram.serialize d ≡ ok f.payload)
unfolding send_dgram
send_dgram_lem i d address (out, e) = (
  record {
    header = record { dst = address; src = i.ethernet_address; type = type_ipv4 };
    payload = out;
  },
  rw e refl,
  refl,
  e,
)

send_waiting_lem :
    (i : NetworkInterface) (ip : ℕ) (address : EthernetAddress) (waiting : List (ℕ × Ipv4Datagram))
    → All (λ p. Serializes p.1) waiting
    → (frames : List EthernetFrame) × (send_waiting i ip address waiting
        ≡ ok (sent i frames (others ip waiting)))
      × Carry i.ethernet_address address (waiting_for ip waiting) frames
unfolding send_waiting
send_waiting_lem i ip address [] a =
    ([], ap (λ k. ok (record i { frames_out = k })) (sym (append-nil i.frames_out)), tt)
send_waiting_lem i ip address ((k, d) ∷ waiting) (s, a) = elim (Bool-cases (k == ip)) [
  | inl same ↦
      let (f, e, h, out) = send_dgram_lem i d address s in
      let i' = record i { frames_out = i.frames_out ++ (f ∷ []) } in
      let (frames, e', c) = send_waiting_lem i' ip address waiting a in
      (
        f ∷ frames,
        rw (same, e, ◌>>=◌, e')
            (ap
              (λ l.
                ok (record i { frames_out = l; sent_dgram = others ip waiting ++ i.sent_dgram }))
              (append_assoc i.frames_out (f ∷ []) frames)),
        rw same (h, out, c),
      )
  | inr other ↦
      let (frames, e', c) = send_waiting_lem i ip address waiting a in
      (frames, rw (other, e', ◌>>=◌) refl, rw other c)
]

-- An ARP reply to this interface sends the datagrams that wait for the address of its sender, each in
-- one frame to the Ethernet address which the reply gives and in the order in which they were
-- handed in, and nothing else, if those that wait can be serialized. The other datagrams go on
-- waiting, in their order. From then on the address is known.
pub recv_arp_reply :
    (i : NetworkInterface) (m : ArpMessage)
    → m.opcode ≡ opcode_reply
    → m.target_ip_address ≡ i.ip_address
    → IsU64 i.timer
    → All (λ p. Serializes p.1) i.sent_dgram
    → (i' : NetworkInterface) × (recv_arp i m ≡ ok i')
      × ((frames : List EthernetFrame) × (i'.frames_out ≡ i.frames_out ++ frames)
          × Carry i.ethernet_address m.sender_ethernet_address
              (waiting_for m.sender_ip_address i.sent_dgram)
              frames)
      × (i'.sent_dgram ≡ others m.sender_ip_address i.sent_dgram)
      × (known_address i' m.sender_ip_address ≡ some m.sender_ethernet_address)
unfolding recv_arp react learn
recv_arp_reply i m reply ours word serializes =
    let (frames, e, c) =
      send_waiting_lem (record i { sent_dgram = [] }) m.sender_ip_address m.sender_ethernet_address
        i.sent_dgram serializes in
    let now : sub64 i.timer i.timer ≡ 0 = omega arith in
    (
      learn (sent (record i { sent_dgram = [] }) frames (others m.sender_ip_address i.sent_dgram))
          m,
      rw (ours, ==_self i.ip_address, reply, e) refl,
      (frames, refl, c),
      append-nil _,
      known_address_found _ m.sender_ip_address _ (find-assign i.arp_table m.sender_ip_address _)
          ∙ ap (λ k. if ltb (30 * 1000) k then none else some m.sender_ethernet_address) now,
    )
