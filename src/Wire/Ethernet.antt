-- ===== src/Wire/Ethernet.antt =====
-- libsponge/tcp_helpers/ethernet_header.hh and .cc, ethernet_frame.hh and .cc. `to_string` only
-- prints. An `EthernetAddress`, an array of six bytes, is the list of them.
pub mod RoundTrip
use tcp_lab.Base.{ℕ, zero, suc, List, [], ◌∷◌, ltb, if◌then◌else◌, Result, ok, throw}
use tcp_lab.Util.Buffer
use tcp_lab.Util.Buffer.{Buffer}
use tcp_lab.Util.BufferList
use tcp_lab.Util.BufferList.{BufferList}
use tcp_lab.Util.NetParser
use tcp_lab.Util.NetParser.{
  Parse, ParseResult, packet_too_short, ◌>>=◌, return, get_error, get_buffer, u8, u16, put_u8,
  put_u16,
}

abbrev pub EthernetAddress : Type 0
EthernetAddress = List ℕ

-- `ETHERNET_BROADCAST`, and an address of zeros.
abbrev pub ethernet_broadcast : EthernetAddress
ethernet_broadcast = 0xff ∷ 0xff ∷ 0xff ∷ 0xff ∷ 0xff ∷ 0xff ∷ []

abbrev pub no_address : EthernetAddress
no_address = 0 ∷ 0 ∷ 0 ∷ 0 ∷ 0 ∷ 0 ∷ []

pub record EthernetHeader : Type 0 where
  pub dst : EthernetAddress
  pub src : EthernetAddress
  pub type : ℕ

-- `EthernetHeader::LENGTH`, `TYPE_IPv4` and `TYPE_ARP`
abbrev pub header_length : ℕ
header_length = 14

abbrev pub type_ipv4 : ℕ
type_ipv4 = 0x800

abbrev pub type_arp : ℕ
type_arp = 0x806

-- `for (auto &byte : dst) { byte = p.u8(); }`, and the loop that writes.
unfoldable pub read_bytes : ℕ → Parse (List ℕ)
read_bytes zero = return []
read_bytes (suc n) = do b ← u8; bs ← read_bytes n; return (b ∷ bs)

unfoldable pub write_bytes : List ℕ → List ℕ → List ℕ
write_bytes s [] = s
write_bytes s (b ∷ bs) = write_bytes (put_u8 s b) bs

unfoldable pub fields : Parse (EthernetHeader × ParseResult)
fields = do
  dst ← read_bytes 6
  src ← read_bytes 6
  type ← u16
  e ← get_error
  return (record { dst = dst; src = src; type = type }, e)

-- The header that `parse` leaves in `*this`, which was `h`, and its result.
unfoldable pub parse_header : EthernetHeader → Parse (EthernetHeader × ParseResult)
unfolding read_bytes fields
parse_header h = do
  b ← get_buffer
  if ltb (Buffer.size b) header_length then return (h, packet_too_short) else fields

unfoldable pub serialize_header : EthernetHeader → List ℕ
unfolding write_bytes
serialize_header h = put_u16 (write_bytes (write_bytes [] h.dst) h.src) h.type

pub record EthernetFrame : Type 0 where
  pub header : EthernetHeader
  pub payload : BufferList

-- `EthernetFrame::parse`: the result of parsing the header is dropped.
unfoldable pub parse_frame : EthernetFrame → Buffer → Result (EthernetFrame × ParseResult)
unfolding parse_header
parse_frame f buffer = elim (parse_header f.header (NetParser.new buffer)) [
  | ok (r, p) ↦ ok (record { header = r.0; payload = p.buffer ∷ [] }, p.error)
  | throw e ↦ throw e
]

-- `EthernetFrame::serialize`
unfoldable pub serialize_frame : EthernetFrame → BufferList
unfolding serialize_header
serialize_frame f =
    BufferList.append (BufferList.append [] (BufferList.of_string (serialize_header f.header)))
      f.payload
