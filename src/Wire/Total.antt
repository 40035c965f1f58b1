-- ===== src/Wire/Total.antt =====
-- The parsers of libsponge/tcp_helpers on arbitrary input.
use tcp_lab.Base.{
  ℕ, zero, suc, refl, ◌≡◌, List, [], ◌∷◌, ltb, not, ◌==◌, if◌then◌else◌, Bool-cases, inl, inr, ok,
  Result, ◌∙◌, if_true, if_false,
}
use tcp_lab.Util.Buffer
use tcp_lab.Util.Buffer.{Buffer}
use tcp_lab.Util.BufferList
use tcp_lab.Util.InternetChecksum
use tcp_lab.Util.NetParser
use tcp_lab.Util.NetParser.{NetParser, ParseResult, packet_too_short, ◌>>=◌, ◌>>◌, return, is_error}
use tcp_lab.Util.NetParser.Total.{
  NeverThrows, >>=-NeverThrows, return-NeverThrows, if-NeverThrows, u8-NeverThrows, u16-NeverThrows,
  u32-NeverThrows, remove_prefix-NeverThrows, get_error-NeverThrows, get_buffer-NeverThrows,
}
use tcp_lab.Wire.TcpHeader
use tcp_lab.Wire.TcpHeader.{TcpHeader}
use tcp_lab.Wire.TcpSegment
use tcp_lab.Wire.TcpSegment.{TcpSegment}
use tcp_lab.Wire.Ipv4Header
use tcp_lab.Wire.Ipv4Header.{Ipv4Header}
use tcp_lab.Wire.Ipv4Datagram
use tcp_lab.Wire.Ipv4Datagram.{Ipv4Datagram}
use tcp_lab.Wire.Ethernet
use tcp_lab.Wire.Ethernet.{EthernetHeader, EthernetFrame}
use tcp_lab.Wire.ArpMessage
use tcp_lab.Wire.ArpMessage.{ArpMessage}

ruleset total = (
  >>=-NeverThrows, return-NeverThrows, if-NeverThrows, u8-NeverThrows, u16-NeverThrows,
  u32-NeverThrows, remove_prefix-NeverThrows, get_error-NeverThrows, get_buffer-NeverThrows,
)

skip_options-NeverThrows : (h : TcpHeader) → NeverThrows (TcpHeader.skip_options h)
unfolding TcpHeader.skip_options
skip_options-NeverThrows h = search total

tcp-NeverThrows : NeverThrows TcpHeader.parse
unfolding TcpHeader.parse
tcp-NeverThrows = search (total, skip_options-NeverThrows) depth 40

verify-NeverThrows :
    (original : List ℕ) (h : Ipv4Header) → NeverThrows (Ipv4Header.verify original h)
unfolding Ipv4Header.verify
verify-NeverThrows original h = search total

inspect-NeverThrows :
    (original : List ℕ) (h : Ipv4Header) → NeverThrows (Ipv4Header.inspect original h)
unfolding Ipv4Header.inspect
inspect-NeverThrows original h = search (total, verify-NeverThrows)

fields-NeverThrows : NeverThrows Ipv4Header.fields
unfolding Ipv4Header.fields
fields-NeverThrows = search total depth 40

ipv4-NeverThrows : (h : Ipv4Header) → NeverThrows (Ipv4Header.parse h)
unfolding Ipv4Header.parse
ipv4-NeverThrows h = search (total, inspect-NeverThrows, fields-NeverThrows)

read_bytes-NeverThrows : (n : ℕ) → NeverThrows (Ethernet.read_bytes n)
unfolding Ethernet.read_bytes
read_bytes-NeverThrows zero = search total
read_bytes-NeverThrows (suc n) = search (total, read_bytes-NeverThrows n)

ethernet-NeverThrows : (h : EthernetHeader) → NeverThrows (Ethernet.parse_header h)
unfolding Ethernet.parse_header
ethernet-NeverThrows h = search (total, read_bytes-NeverThrows) depth 40

arp-NeverThrows : (m : ArpMessage) → NeverThrows (ArpMessage.parse_message m)
unfolding ArpMessage.parse_message ArpMessage.kind ArpMessage.addresses
arp-NeverThrows m = search (total, read_bytes-NeverThrows) depth 40

-- A call of `Result` that returns a value.
abbrev pub Returns : {A : Type 0} → Result A → Type 0
Returns {A} r = (a : A) × (r ≡ ok a)

tcp_segment-Returns : (s : TcpSegment) (b : Buffer) (c : ℕ) → Returns (TcpSegment.parse s b c)
unfolding TcpSegment.parse
tcp_segment-Returns s b c =
    let check =
      InternetChecksum.value (InternetChecksum.add (InternetChecksum.new c) (Buffer.str b)) in
    let ((r, p), e) = tcp-NeverThrows (NetParser.new b) in
    elim (Bool-cases (not (check == 0))) [
      | inl bad ↦ (_, if_true _ _ _ bad)
      | inr good ↦
          ((record { header = r.0; payload = p.buffer }, p.error), if_false _ _ _ good ∙ rw e refl)
    ]

ipv4_datagram-Returns : (d : Ipv4Datagram) (b : Buffer) → Returns (Ipv4Datagram.parse d b)
unfolding Ipv4Datagram.parse
ipv4_datagram-Returns d b =
    let ((r, p), e) = ipv4-NeverThrows d.header (NetParser.new b) in
    let size = BufferList.size (p.buffer ∷ []) in
    (
      (
        record { header = r.0; payload = p.buffer ∷ [] },
        if not (size == Ipv4Header.payload_length r.0) then packet_too_short else p.error,
      ),
      rw (e, Ipv4Datagram.parse) refl,
    )

ethernet_frame-Returns : (f : EthernetFrame) (b : Buffer) → Returns (Ethernet.parse_frame f b)
unfolding Ethernet.parse_frame
ethernet_frame-Returns f b =
    let ((r, p), e) = ethernet-NeverThrows f.header (NetParser.new b) in
    ((record { header = r.0; payload = p.buffer ∷ [] }, p.error), rw (e, Ethernet.parse_frame) refl)

arp_message-Returns : (m : ArpMessage) (b : Buffer) → Returns (ArpMessage.parse m b)
unfolding ArpMessage.parse
arp_message-Returns m b =
    let ((r, p), e) = arp-NeverThrows m (NetParser.new b) in
    elim (Bool-cases (ltb (Buffer.size b) ArpMessage.message_length)) [
      | inl short ↦ (_, if_true _ _ _ short)
      | inr long ↦ (r, if_false _ _ _ long ∙ rw e refl)
    ]

-- Whatever bytes arrive, parsing them as a TCP segment, an IPv4 datagram, an Ethernet frame or an
-- ARP message throws no exception, whatever the object held before.
pub parse_total :
    (b : Buffer) (s : TcpSegment) (cksum : ℕ) (d : Ipv4Datagram) (f : EthernetFrame)
    (m : ArpMessage)
    → Returns (TcpSegment.parse s b cksum)
      × Returns (Ipv4Datagram.parse d b)
      × Returns (Ethernet.parse_frame f b)
      × Returns (ArpMessage.parse m b)
parse_total b s cksum d f m = (
  tcp_segment-Returns s b cksum,
  ipv4_datagram-Returns d b,
  ethernet_frame-Returns f b,
  arp_message-Returns m b,
)
