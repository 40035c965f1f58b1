-- ===== src/Interface/Arp.antt =====
-- The address resolution of libsponge/network_interface.cc: when an interface asks, and how long
-- it trusts what it learned.
use tcp_lab.Base.{
  ℕ, ◌+◌, ◌*◌, ◌≡◌, refl, sym, ◌∙◌, ap, true, false, not, ◌||◌, none, some, List, [], ◌∷◌, ◌++◌,
  arith, ltb, leb, ◌==◌, ==_self, if◌then◌else◌, if_true, Bool-cases, inl, inr, append-nil, add64,
  sub64, IsU64, ok,
}
use mathlib.Core.Bool.{true≢false}
use tcp_lab.Util.Buffer
use tcp_lab.Util.BufferList
use tcp_lab.Wire.Ethernet.{EthernetFrame, ethernet_broadcast, type_arp}
use tcp_lab.Wire.ArpMessage
use tcp_lab.Wire.ArpMessage.{ArpMessage, opcode_request}
use tcp_lab.Wire.Ipv4Datagram.{Ipv4Datagram}
use tcp_lab.Interface.{
  NetworkInterface, ArpEntry, find, assign, arp_message, arp_frame, too_soon, entry_of, send_arp,
  send_datagram, known_address, same_address, learn, tick,
}

pub find-assign :
    (t : List (ℕ × ArpEntry)) (ip : ℕ) (e : ArpEntry) → find (assign t ip e) ip ≡ some e
unfolding find assign
find-assign [] ip e = if_true _ _ _ (==_self ip)
find-assign ((k, x) ∷ t) ip e = elim (Bool-cases (k == ip)) [
  | inl same ↦ rw (same, same) refl
  | inr other ↦ rw (other, other) (find-assign t ip e)
]

pub known_address_found :
    (i : NetworkInterface) (ip : ℕ) (e : ArpEntry)
    → find i.arp_table ip ≡ some e
    → known_address i ip ≡ (
        if not e.exist || ltb (30 * 1000) (sub64 i.timer e.updated_time)
        then none
        else some e.ethernet_address)
unfolding known_address
known_address_found i ip e h = rw (h, known_address) refl

too_soon_found :
    (i : NetworkInterface) (ip : ℕ) (e : ArpEntry)
    → find i.arp_table ip ≡ some e
    → too_soon i ip ≡ leb (sub64 i.timer e.ask_time) (5 * 1000)
unfolding too_soon
too_soon_found i ip e h = rw (h, too_soon) refl

-- An address learned from an ARP message is used for 30 seconds, and not after them: `ms`
-- milliseconds later, with a clock that does not wrap, it is the known address of the sender of
-- the message exactly if `ms` is at most 30,000.
pub known_address-learn :
    (i : NetworkInterface) (m : ArpMessage) (ms : ℕ)
    → IsU64 (i.timer + ms)
    → known_address (tick (learn i m) ms) m.sender_ip_address
      ≡ (if ltb (30 * 1000) ms then none else some m.sender_ethernet_address)
unfolding learn tick
known_address-learn i m ms h =
    let passed : sub64 (add64 i.timer ms) i.timer ≡ ms = omega arith in
    known_address_found (tick (learn i m) ms) m.sender_ip_address _
      (find-assign i.arp_table m.sender_ip_address _)
    ∙ ap (λ k. if ltb (30 * 1000) k then none else some m.sender_ethernet_address) passed

-- The frame is a request for the address of `ip`, to all.
pub record IsRequest (i : NetworkInterface) (ip : ℕ) (f : EthernetFrame) : Type 0 where
  pub to_all : f.header.dst ≡ ethernet_broadcast
  pub from_us : f.header.src ≡ i.ethernet_address
  pub is_arp : f.header.type ≡ type_arp
  pub message : ArpMessage
  pub content : ArpMessage.serialize message ≡ ok (BufferList.concatenate f.payload)
  pub asks_for : (message.opcode ≡ opcode_request) × (message.target_ip_address ≡ ip)
  pub names_us :
      (message.sender_ip_address ≡ i.ip_address)
      × (message.sender_ethernet_address ≡ i.ethernet_address)

arp_frame_ok :
    (i : NetworkInterface) (ip : ℕ)
    → (f : EthernetFrame) × (arp_frame i ip none ≡ ok f) × IsRequest i ip f
unfolding arp_frame arp_message same_address ArpMessage.serialize ArpMessage.supported
    BufferList.concatenate Buffer.str
arp_frame_ok i ip = (
  record {
    header = record { dst = ethernet_broadcast; src = i.ethernet_address; type = type_arp };
    payload = BufferList.of_string (ArpMessage.layout (arp_message i ip none));
  },
  refl,
  record {
    to_all = refl;
    from_us = refl;
    is_arp = refl;
    message = arp_message i ip none;
    content = ap ok (sym (append-nil _));
    asks_for = (refl, refl);
    names_us = (refl, refl);
  },
)

-- The interface after it was given a datagram for a neighbour whose address it does not know.
pub record Asked (i : NetworkInterface) (ip : ℕ) (d : Ipv4Datagram) (i' : NetworkInterface)
    : Type 0 where
  pub waits : i'.sent_dgram ≡ i.sent_dgram ++ ((ip, d) ∷ [])
  pub quiet : too_soon i ip ≡ true → i'.frames_out ≡ i.frames_out
  pub asks :
      too_soon i ip ≡ false
      → (f : EthernetFrame) × (i'.frames_out ≡ i.frames_out ++ (f ∷ [])) × IsRequest i ip f
  pub once : too_soon i' ip ≡ true

too_soon-same :
    (i i' : NetworkInterface) (ip : ℕ)
    → i'.arp_table ≡ i.arp_table
    → i'.timer ≡ i.timer
    → too_soon i' ip ≡ too_soon i ip
unfolding too_soon
too_soon-same i i' ip t c = rw (t, c) refl

module _ (i : NetworkInterface) (ip : ℕ) (frames : List EthernetFrame)
    (sent : List (ℕ × Ipv4Datagram)) where
  -- The interface once it has sent a message to `ip`.
  abbrev asked : NetworkInterface
  asked = record i {
    sent_dgram = sent;
    frames_out = frames;
    arp_table = assign i.arp_table ip (record (entry_of i ip) { ask_time = i.timer });
  }

  just_asked : IsU64 i.timer → too_soon asked ip ≡ true
  just_asked word =
      too_soon_found asked ip _
        (find-assign i.arp_table ip (record (entry_of i ip) { ask_time = i.timer }))
      ∙ ground arith

-- On a 64-bit clock, a datagram for a neighbour whose address is not known, or is older than 30 seconds, waits
-- behind those that wait already. The interface broadcasts one ARP request for the address, unless it
-- sent a message to it in the last 5 seconds; then it sends nothing. Afterwards such a message
-- counts as sent.
pub send_datagram_unknown :
    (i : NetworkInterface) (d : Ipv4Datagram) (ip : ℕ)
    → IsU64 i.timer
    → known_address i ip ≡ none
    → (i' : NetworkInterface) × (send_datagram i d ip ≡ ok i') × Asked i ip d i'
unfolding send_datagram send_arp
send_datagram_unknown i d ip word unknown = elim (Bool-cases (too_soon i ip)) [
  | inl soon ↦ (
    record i { sent_dgram = i.sent_dgram ++ ((ip, d) ∷ []) },
    rw (unknown, send_datagram, soon) refl,
    record {
      waits = refl;
      quiet = λ _. refl;
      asks = λ late. absurd (true≢false (sym soon ∙ late));
      once =
          too_soon-same i (record i { sent_dgram = i.sent_dgram ++ ((ip, d) ∷ []) }) ip refl refl
          ∙ soon;
    },
  )
  | inr late ↦
      let (f, e, k) = arp_frame_ok i ip in
      (
        asked i ip (i.frames_out ++ (f ∷ [])) (i.sent_dgram ++ ((ip, d) ∷ [])),
        rw (unknown, send_datagram, late, e) refl,
        record {
          waits = refl;
          quiet = λ soon. absurd (true≢false (sym soon ∙ late));
          asks = λ _. (f, refl, k);
          once = just_asked i ip (i.frames_out ++ (f ∷ [])) (i.sent_dgram ++ ((ip, d) ∷ [])) word;
        },
      )
]
