-- ===== src/Wire/ArpMessage.antt =====
-- libsponge/tcp_helpers/arp_message.hh and arp_message.cc. `to_string` only prints.
pub mod RoundTrip
use tcp_lab.Base.{
  ℕ, Bool, not, ◌&&◌, ◌||◌, List, [], ltb, ◌==◌, if◌then◌else◌, Result, ok, throw, runtime_error,
}
use tcp_lab.Util.Buffer
use tcp_lab.Util.Buffer.{Buffer}
use tcp_lab.Util.NetParser
use tcp_lab.Util.NetParser.{
  NetParser, Parse, ParseResult, packet_too_short, unsupported, ◌>>=◌, return, get_error, u8, u16,
  u32, put_u8, put_u16, put_u32,
}
use tcp_lab.Wire.Ethernet.{EthernetAddress, no_address, type_ipv4, read_bytes, write_bytes}

pub record ArpMessage : Type 0 where
  pub hardware_type : ℕ
  pub protocol_type : ℕ
  pub hardware_address_size : ℕ
  pub protocol_address_size : ℕ
  pub opcode : ℕ
  pub sender_ethernet_address : EthernetAddress
  pub sender_ip_address : ℕ
  pub target_ethernet_address : EthernetAddress
  pub target_ip_address : ℕ

-- `ARPMessage::LENGTH`, `TYPE_ETHERNET`, `OPCODE_REQUEST` and `OPCODE_REPLY`
abbrev pub message_length : ℕ
message_length = 28

abbrev pub type_ethernet : ℕ
type_ethernet = 1

abbrev pub opcode_request : ℕ
opcode_request = 1

abbrev pub opcode_reply : ℕ
opcode_reply = 2

-- The member initialisers.
abbrev pub default : ArpMessage
default = record {
  hardware_type = type_ethernet;
  protocol_type = type_ipv4;
  hardware_address_size = 6;
  protocol_address_size = 4;
  opcode = 0;
  sender_ethernet_address = no_address;
  sender_ip_address = 0;
  target_ethernet_address = no_address;
  target_ip_address = 0;
}

unfoldable pub supported : ArpMessage → Bool
supported m =
    m.hardware_type == type_ethernet
    && (m.protocol_type == type_ipv4
        && (m.hardware_address_size == 6
            && (m.protocol_address_size == 4
                && (m.opcode == opcode_request || m.opcode == opcode_reply))))

-- The fields up to `opcode`; the others are those of `m`.
unfoldable pub kind : ArpMessage → Parse ArpMessage
kind m = do
  hardware_type ← u16
  protocol_type ← u16
  hardware_address_size ← u8
  protocol_address_size ← u8
  opcode ← u16
  return (record m {
    hardware_type = hardware_type;
    protocol_type = protocol_type;
    hardware_address_size = hardware_address_size;
    protocol_address_size = protocol_address_size;
    opcode = opcode;
  })

-- The addresses, and the end of `parse`.
unfoldable pub addresses : ArpMessage → Parse (ArpMessage × ParseResult)
addresses m = do
  sender_ethernet ← read_bytes 6
  sender_ip ← u32
  target_ethernet ← read_bytes 6
  target_ip ← u32
  e ← get_error
  return (
    record m {
      sender_ethernet_address = sender_ethernet;
      sender_ip_address = sender_ip;
      target_ethernet_address = target_ethernet;
      target_ip_address = target_ip;
    },
    e,
  )

unfoldable pub parse_message : ArpMessage → Parse (ArpMessage × ParseResult)
unfolding supported kind addresses
parse_message m =
    kind m >>= (λ m'. if not (supported m') then return (m', unsupported) else addresses m')

-- The message that `parse` leaves in `*this`, which was `m`, and its result.
unfoldable pub parse : ArpMessage → Buffer → Result (ArpMessage × ParseResult)
unfolding parse_message
parse m buffer =
    let all : Result (ArpMessage × ParseResult) = elim (parse_message m (NetParser.new buffer)) [
      | ok (r, p) ↦ ok r
      | throw e ↦ throw e
    ] in
    if ltb (Buffer.size buffer) message_length then ok (m, packet_too_short) else all

unfoldable pub layout : ArpMessage → List ℕ
layout m =
    let s = put_u16 [] m.hardware_type in
    let s = put_u16 s m.protocol_type in
    let s = put_u8 s m.hardware_address_size in
    let s = put_u8 s m.protocol_address_size in
    let s = put_u16 s m.opcode in
    let s = write_bytes s m.sender_ethernet_address in
    let s = put_u32 s m.sender_ip_address in
    let s = write_bytes s m.target_ethernet_address in put_u32 s m.target_ip_address

unfoldable pub serialize : ArpMessage → Result (List ℕ)
unfolding supported layout
serialize m = if not (supported m) then throw runtime_error else ok (layout m)
