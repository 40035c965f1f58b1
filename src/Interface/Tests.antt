-- ===== src/Interface/Tests.antt =====
-- The witnesses of the theorems on address resolution.
use tcp_lab.Base.{List, ◌++◌, ◌*◌, ◌≡◌, refl, none, some, [], ◌∷◌, arith, ltb, if◌then◌else◌, ok}
use tcp_lab.Wire.ArpMessage
use tcp_lab.Wire.ArpMessage.{ArpMessage}
use tcp_lab.Wire.Ipv4Datagram
use tcp_lab.Wire.Ipv4Datagram.{Ipv4Datagram}
use tcp_lab.Wire.Ipv4Header
use tcp_lab.Util.BufferList
use tcp_lab.Wire.Ethernet.{EthernetFrame}
use tcp_lab.Interface.Waiting.{Carry, Serializes, recv_arp_reply}
use tcp_lab.Interface.{
  recv_arp, NetworkInterface, new, known_address, send_datagram, learn, tick, find,
}
use tcp_lab.Interface.Arp.{Asked, known_address-learn, send_datagram_unknown}

abbrev card : NetworkInterface
card = new (2 ∷ 0 ∷ 0 ∷ 0 ∷ 0 ∷ 1 ∷ []) 0x0a00_0001

-- The reply of 10.0.0.2.
abbrev reply : ArpMessage
reply = record ArpMessage.default {
  opcode = 2;
  sender_ethernet_address = 2 ∷ 0 ∷ 0 ∷ 0 ∷ 0 ∷ 2 ∷ [];
  sender_ip_address = 0x0a00_0002;
  target_ip_address = 0x0a00_0001;
}

known_address-learn_example :
    known_address (tick (learn card reply) 30001) 0x0a00_0002
    ≡ (if ltb (30 * 1000) 30001 then none else some (2 ∷ 0 ∷ 0 ∷ 0 ∷ 0 ∷ 2 ∷ []))
unfolding new
known_address-learn_example = known_address-learn card reply 30001 (omega arith)

send_datagram_unknown_example :
    (i' : NetworkInterface) × (send_datagram card Ipv4Datagram.default 0x0a00_0002 ≡ ok i')
    × Asked card 0x0a00_0002 Ipv4Datagram.default i'
unfolding new known_address find
send_datagram_unknown_example =
    send_datagram_unknown card Ipv4Datagram.default 0x0a00_0002 (omega arith) refl

-- An empty datagram.
abbrev datagram : Ipv4Datagram
datagram = record Ipv4Datagram.default { header = record Ipv4Header.default { len = 20 } }

datagram-Serializes : Serializes datagram
unfolding Ipv4Datagram.serialize Ipv4Header.serialize BufferList.size Ipv4Header.payload_length
datagram-Serializes = (_, refl)

-- One datagram waits for 10.0.0.2, and one for 10.0.0.3.
abbrev waiting_card : NetworkInterface
waiting_card = record card { sent_dgram = (0x0a00_0002, datagram) ∷ (0x0a00_0003, datagram) ∷ [] }

recv_arp_reply_example :
    (i' : NetworkInterface) × (recv_arp waiting_card reply ≡ ok i')
    × ((frames : List EthernetFrame) × (i'.frames_out ≡ [] ++ frames)
        × Carry (2 ∷ 0 ∷ 0 ∷ 0 ∷ 0 ∷ 1 ∷ []) (2 ∷ 0 ∷ 0 ∷ 0 ∷ 0 ∷ 2 ∷ []) (datagram ∷ []) frames)
    × (i'.sent_dgram ≡ (0x0a00_0003, datagram) ∷ [])
    × (known_address i' 0x0a00_0002 ≡ some (2 ∷ 0 ∷ 0 ∷ 0 ∷ 0 ∷ 2 ∷ []))
unfolding new
recv_arp_reply_example =
    recv_arp_reply waiting_card reply refl refl (omega arith)
      (datagram-Serializes, (datagram-Serializes, tt))
