-- ===== src/Interface.antt =====
-- libsponge/network_interface.hh and network_interface.cc: IPv4 over Ethernet, with ARP.
-- An `Address` is the number that its `ipv4_numeric()` returns. `_arp_table` is an association
-- list with one entry for a key; the source never iterates over it. The multimap `_sent_dgram` is
-- the list of its pairs in the order of insertion, the order in which it holds those of one key.
pub mod Arp
pub mod Waiting
mod Tests
use tcp_lab.Base.{
  ℕ, ◌*◌, Bool, true, false, not, ◌&&◌, ◌||◌, Option, none, some, List, [], ◌∷◌, ◌++◌, ltb, leb,
  ◌==◌, if◌then◌else◌, add64, sub64, Result, ok, ◌>>=◌,
}
use tcp_lab.Util.BufferList
use tcp_lab.Util.BufferList.{BufferList}
use tcp_lab.Util.NetParser.{is_error}
use tcp_lab.Wire.Ethernet.{
  EthernetAddress, EthernetHeader, EthernetFrame, ethernet_broadcast, no_address, type_ipv4,
  type_arp,
}
use tcp_lab.Wire.ArpMessage
use tcp_lab.Wire.ArpMessage.{ArpMessage, opcode_request, opcode_reply}
use tcp_lab.Wire.Ipv4Datagram
use tcp_lab.Wire.Ipv4Datagram.{Ipv4Datagram}

-- `_etb_node_t`
pub record ArpEntry : Type 0 where
  pub ethernet_address : EthernetAddress
  pub updated_time : ℕ
  pub ask_time : ℕ
  pub exist : Bool

pub record NetworkInterface : Type 0 where
  pub ethernet_address : EthernetAddress
  pub ip_address : ℕ
  pub frames_out : List EthernetFrame
  pub arp_table : List (ℕ × ArpEntry)
  pub sent_dgram : List (ℕ × Ipv4Datagram)
  pub timer : ℕ

unfoldable pub new : EthernetAddress → ℕ → NetworkInterface
new ethernet_address ip_address = record {
  ethernet_address = ethernet_address;
  ip_address = ip_address;
  frames_out = [];
  arp_table = [];
  sent_dgram = [];
  timer = 0;
}

-- `_arp_table.find`
unfoldable pub find : List (ℕ × ArpEntry) → ℕ → Option ArpEntry
find [] ip = none
find ((k, e) ∷ t) ip = let rest = find t ip in if k == ip then some e else rest

-- An assignment through the iterator that `find` returned, or the insertion of a new key.
unfoldable pub assign : List (ℕ × ArpEntry) → ℕ → ArpEntry → List (ℕ × ArpEntry)
assign [] ip e = (ip, e) ∷ []
assign ((k, x) ∷ t) ip e = let rest = assign t ip e in if k == ip then (k, e) ∷ t else (k, x) ∷ rest

-- `==` of two addresses.
unfoldable pub same_address : EthernetAddress → EthernetAddress → Bool
same_address [] [] = true
same_address [] (b ∷ y) = false
same_address (a ∷ x) [] = false
same_address (a ∷ x) (b ∷ y) = a == b && same_address x y

-- The frame that `send_arp` sends: a request to all, or a reply to an address.
unfoldable pub arp_message : NetworkInterface → ℕ → Option EthernetAddress → ArpMessage
unfolding same_address
arp_message i target_ip target =
    let dst : EthernetAddress = elim target [ none ↦ ethernet_broadcast | some a ↦ a ] in
    record ArpMessage.default {
      opcode = if same_address dst ethernet_broadcast then opcode_request else opcode_reply;
      sender_ethernet_address = i.ethernet_address;
      sender_ip_address = i.ip_address;
      target_ethernet_address = elim target [ none ↦ no_address | some a ↦ a ];
      target_ip_address = target_ip;
    }

unfoldable pub arp_frame : NetworkInterface → ℕ → Option EthernetAddress → Result EthernetFrame
unfolding arp_message
arp_frame i target_ip target =
    let dst : EthernetAddress = elim target [ none ↦ ethernet_broadcast | some a ↦ a ] in
    do
      bytes ← ArpMessage.serialize (arp_message i target_ip target)
      ok (record {
        header = record { dst = dst; src = i.ethernet_address; type = type_arp };
        payload = BufferList.of_string bytes;
      })

abbrev pub fresh_entry : ArpEntry
fresh_entry = record {
  ethernet_address = no_address;
  updated_time = 0;
  ask_time = 0;
  exist = false;
}

-- Whether the last message to this address is too recent.
unfoldable pub too_soon : NetworkInterface → ℕ → Bool
unfolding find
too_soon i ip = elim (find i.arp_table ip) [
  | none ↦ false
  | some e ↦ leb (sub64 i.timer e.ask_time) (5 * 1000)
]

-- `auto &se = arpt_findres->second`, after the insertion of a new entry where there was none.
unfoldable pub entry_of : NetworkInterface → ℕ → ArpEntry
unfolding find
entry_of i ip = elim (find i.arp_table ip) [ none ↦ fresh_entry | some e ↦ e ]

unfoldable pub send_arp : NetworkInterface → ℕ → Option EthernetAddress → Result NetworkInterface
unfolding assign arp_frame too_soon entry_of
send_arp i target_ip target =
    let sent = (do
      frame ← arp_frame i target_ip target
      ok (record i {
        frames_out = i.frames_out ++ (frame ∷ []);
        arp_table =
            assign i.arp_table target_ip (record (entry_of i target_ip) { ask_time = i.timer });
      })) in
    if too_soon i target_ip then ok i else sent

unfoldable pub send_dgram :
    NetworkInterface → Ipv4Datagram → EthernetAddress → Result NetworkInterface
send_dgram i dgram address = do
  payload ← Ipv4Datagram.serialize dgram
  let frame : EthernetFrame = record {
    header = record { dst = address; src = i.ethernet_address; type = type_ipv4 };
    payload = payload;
  }
  ok (record i { frames_out = i.frames_out ++ (frame ∷ []) })

-- The address of a neighbour that is known and was confirmed in the last 30 seconds. The source
-- binds a reference through the iterator before it tests it; it reads it only for an entry.
unfoldable pub known_address : NetworkInterface → ℕ → Option EthernetAddress
unfolding find
known_address i ip = elim (find i.arp_table ip) [
  | none ↦ none
  | some e ↦
      if not e.exist || ltb (30 * 1000) (sub64 i.timer e.updated_time)
      then none
      else some e.ethernet_address
]

unfoldable pub send_datagram : NetworkInterface → Ipv4Datagram → ℕ → Result NetworkInterface
unfolding send_arp send_dgram known_address
send_datagram i dgram next_ip = elim (known_address i next_ip) [
  | none ↦ do
    i' ← send_arp i next_ip none
    ok (record i' { sent_dgram = i'.sent_dgram ++ ((next_ip, dgram) ∷ []) })
  | some a ↦ send_dgram i dgram a
]

-- `pkg_type`: 0 for a frame that is not for this interface, 1 for IPv4, 2 for ARP.
unfoldable pub package_type : NetworkInterface → EthernetHeader → ℕ
unfolding same_address
package_type i h =
    if same_address h.dst i.ethernet_address
    then if h.type == type_ipv4 then 1 else if h.type == type_arp then 2 else 0
    else if same_address h.dst ethernet_broadcast && h.type == type_arp
    then 2
    else 0

-- The loop that sends, and erases, the datagrams which wait for this address.
unfoldable pub send_waiting :
    NetworkInterface → ℕ → EthernetAddress → List (ℕ × Ipv4Datagram) → Result NetworkInterface
unfolding send_dgram
send_waiting i ip address [] = ok i
send_waiting i ip address ((k, d) ∷ waiting) =
    let sent = send_dgram i d address >>= (λ i'. send_waiting i' ip address waiting) in
    let kept = (do
      i' ← send_waiting i ip address waiting
      ok (record i' { sent_dgram = (k, d) ∷ i'.sent_dgram })) in
    if k == ip then sent else kept

-- "update arp"
unfoldable pub learn : NetworkInterface → ArpMessage → NetworkInterface
unfolding assign entry_of
learn i m = record i {
  arp_table = assign i.arp_table m.sender_ip_address (record (entry_of i m.sender_ip_address) {
    ethernet_address = m.sender_ethernet_address;
    updated_time = i.timer;
    exist = true;
  });
}

-- What an ARP message for this interface makes it send.
unfoldable pub react : NetworkInterface → ArpMessage → Result NetworkInterface
unfolding send_arp send_waiting
react i m =
    if m.opcode == opcode_request
    then send_arp i m.sender_ip_address (some m.sender_ethernet_address)
    else if m.opcode == opcode_reply
    then send_waiting (record i { sent_dgram = [] }) m.sender_ip_address m.sender_ethernet_address
        i.sent_dgram
    else ok i

-- An ARP message that was parsed; one for another host that is no announcement is ignored.
unfoldable pub recv_arp : NetworkInterface → ArpMessage → Result NetworkInterface
unfolding learn react
recv_arp i m =
    if not (m.target_ip_address == i.ip_address) && not (m.sender_ip_address == m.target_ip_address)
    then ok i
    else (react i m >>= (λ i'. ok (learn i' m)))

unfoldable pub recv_frame :
    NetworkInterface → EthernetFrame → Result (NetworkInterface × Option Ipv4Datagram)
unfolding package_type recv_arp
recv_frame i frame =
    let as_datagram : Result (NetworkInterface × Option Ipv4Datagram) = (do
      b ← BufferList.to_buffer frame.payload
      (idata, err) ← Ipv4Datagram.parse Ipv4Datagram.default b
      ok (i, if is_error err then none else some idata)) in
    let as_arp : Result (NetworkInterface × Option Ipv4Datagram) = (do
      b ← BufferList.to_buffer frame.payload
      (arpm, err) ← ArpMessage.parse ArpMessage.default b
      i' ← if is_error err then ok i else recv_arp i arpm
      ok (i', none)) in
    let pkg_type = package_type i frame.header in
    if pkg_type == 0 then ok (i, none) else if pkg_type == 1 then as_datagram else as_arp

unfoldable pub tick : NetworkInterface → ℕ → NetworkInterface
tick i ms = record i { timer = add64 i.timer ms }
