-- ===== src/Wire/ArpMessage/RoundTrip.antt =====
-- Parsing a serialized ARP message (libsponge/tcp_helpers/arp_message.cc) gives it back.
use tcp_lab.Base.{
  ℕ, ◌≤◌, ◌<◌, ◌≡◌, refl, sym, ◌∙◌, ap, true, not, if_false, List, [], ◌++◌, append-nil,
  append_assoc, arith, length, length-append, ok, IsU32,
}
use tcp_lab.Util.Buffer
use tcp_lab.Util.Buffer.{Buffer}
use tcp_lab.Util.NetParser
use tcp_lab.Util.NetParser.{
  NetParser, ParseResult, no_error, u8, u16, u32, put_u8, put_u16, put_u32, unparse_int,
}
use tcp_lab.Util.NetParser.RoundTrip.{Shows, u8_reads, u16_reads, u32_reads, unparse_int-append}
use tcp_lab.Wire.Ethernet.RoundTrip.{IsAddress, address_reads, write_bytes_lem}
use tcp_lab.Wire.ArpMessage.{
  ArpMessage, message_length, supported, kind, addresses, parse_message, parse, layout, serialize,
}
use tcp_lab.Wire.Ethernet.{write_bytes}

-- A message that is supported, with addresses that fit their types.
pub record IsValid (m : ArpMessage) : Type 0 where
  pub kind_ok : supported m ≡ true
  pub sender_ok : IsAddress m.sender_ethernet_address
  pub sender_ip_ok : IsU32 m.sender_ip_address
  pub target_ok : IsAddress m.target_ethernet_address
  pub target_ip_ok : IsU32 m.target_ip_address

abbrev Kind : ArpMessage → Type 0
Kind m =
    (m.hardware_type ≡ 1)
    × (m.protocol_type ≡ 0x800)
    × (m.hardware_address_size ≡ 6)
    × (m.protocol_address_size ≡ 4)
    × (m.opcode < 3)

supported-Kind : (m : ArpMessage) → supported m ≡ true → Kind m
unfolding supported
supported-Kind m e = (ground arith, ground arith, ground arith, ground arith, ground arith)

-- The fields one after the other.
kind_text : ArpMessage → List ℕ → List ℕ
kind_text m rest =
    put_u16 [] m.hardware_type
    ++ (put_u16 [] m.protocol_type
        ++ (put_u8 [] m.hardware_address_size
            ++ (put_u8 [] m.protocol_address_size ++ (put_u16 [] m.opcode ++ rest))))

addresses_text : ArpMessage → List ℕ
addresses_text m =
    m.sender_ethernet_address
    ++ (put_u32 [] m.sender_ip_address
        ++ (m.target_ethernet_address ++ (put_u32 [] m.target_ip_address ++ [])))

-- What the first fields of the message make of the old one.
abbrev with_kind : ArpMessage → ArpMessage → ArpMessage
with_kind old m = record old {
  hardware_type = m.hardware_type;
  protocol_type = m.protocol_type;
  hardware_address_size = m.hardware_address_size;
  protocol_address_size = m.protocol_address_size;
  opcode = m.opcode;
}

abbrev head : ArpMessage → List ℕ
head m = kind_text m []

supported-with_kind : (old m : ArpMessage) → supported (with_kind old m) ≡ supported m
unfolding supported
supported-with_kind old m = refl

layout_parts :
    (m : ArpMessage)
    → layout m
      ≡ unparse_int
          (write_bytes
            (unparse_int
              (write_bytes (kind_text m []) m.sender_ethernet_address)
              4
              m.sender_ip_address)
            m.target_ethernet_address)
          4
          m.target_ip_address
unfolding layout kind_text put_u16 put_u8 put_u32
layout_parts m = refl

kind_text-append : (m : ArpMessage) (rest : List ℕ) → kind_text m [] ++ rest ≡ kind_text m rest
unfolding kind_text put_u16 put_u8
kind_text-append m rest = refl

length-kind_text : (m : ArpMessage) → length (kind_text m []) ≡ 8
unfolding kind_text put_u16 put_u8
length-kind_text m = refl

length-put_u32 : (n : ℕ) → length (put_u32 [] n) ≡ 4
unfolding put_u32
length-put_u32 n = refl

length-addresses_text : (m : ArpMessage) → IsValid m → length (addresses_text m) ≡ 20
unfolding addresses_text
length-addresses_text m v =
    let last : List ℕ = put_u32 [] m.target_ip_address ++ [] in
    let low : List ℕ = m.target_ethernet_address ++ last in
    omega (
      arith,
      length-append m.sender_ethernet_address (put_u32 [] m.sender_ip_address ++ low),
      length-append (put_u32 [] m.sender_ip_address) low,
      length-append m.target_ethernet_address last,
      length-append (put_u32 [] m.target_ip_address) [],
      length-put_u32 m.sender_ip_address,
      length-put_u32 m.target_ip_address,
      v.sender_ok.six,
      v.target_ok.six,
    )

module _ (m : ArpMessage) (v : IsValid m) where
  layout_lem : layout m ≡ kind_text m (addresses_text m)
  unfolding addresses_text put_u32 unparse_int
  layout_lem =
      let s1 = kind_text m [] ++ m.sender_ethernet_address in
      let s2 = s1 ++ unparse_int [] 4 m.sender_ip_address in
      layout_parts m
      ∙ rw
          (
            write_bytes_lem (kind_text m []) m.sender_ethernet_address v.sender_ok.bytes_ok,
            unparse_int-append s1 4 m.sender_ip_address,
            write_bytes_lem s2 m.target_ethernet_address v.target_ok.bytes_ok,
            unparse_int-append (s2 ++ m.target_ethernet_address) 4 m.target_ip_address,
            sym (kind_text-append m (addresses_text m)),
          )
          (simp (append_assoc, append-nil) refl)

  kind_read :
      (old : ArpMessage) (p : NetParser) (rest : List ℕ)
      → Shows p (kind_text m rest)
      → (q : NetParser) × (kind old p ≡ ok (with_kind old m, q)) × Shows q rest
  unfolding kind kind_text
  kind_read old p rest s =
      let (h1, h2, h3, h4, h5) = supported-Kind m v.kind_ok in
      let (p1, e1, s1) = u16_reads p m.hardware_type _ (omega (arith, h1)) s in
      let (p2, e2, s2) = u16_reads p1 m.protocol_type _ (omega (arith, h2)) s1 in
      let (p3, e3, s3) = u8_reads p2 m.hardware_address_size _ (omega (arith, h3)) s2 in
      let (p4, e4, s4) = u8_reads p3 m.protocol_address_size _ (omega (arith, h4)) s3 in
      let (q, e5, s5) = u16_reads p4 m.opcode rest (omega (arith, h5)) s4 in
      (q, ground (arith, e1, e2, e3, e4, e5), s5)

  addresses_read :
      (old : ArpMessage) (p : NetParser)
      → Shows p (addresses_text m)
      → (q : NetParser) × (addresses (with_kind old m) p ≡ ok ((m, no_error), q))
  unfolding addresses addresses_text
  addresses_read old p s =
      let (p1, e1, s1) = address_reads p m.sender_ethernet_address _ v.sender_ok s in
      let (p2, e2, s2) = u32_reads p1 m.sender_ip_address _ v.sender_ip_ok s1 in
      let (p3, e3, s3) = address_reads p2 m.target_ethernet_address _ v.target_ok s2 in
      let (q, e4, s4) = u32_reads p3 m.target_ip_address [] v.target_ip_ok s3 in
      (q, ground (arith, e1, e2, e3, e4, s4.sound))

  length-layout : length (layout m) ≡ message_length
  length-layout =
      ap length (layout_lem ∙ sym (kind_text-append m (addresses_text m)))
      ∙ omega (
        arith,
        length-append (kind_text m []) (addresses_text m),
        length-kind_text m,
        length-addresses_text m v,
      )

  parse_step :
      (old : ArpMessage) (b : Buffer) (p q : NetParser)
      → message_length ≤ length (Buffer.str b)
      → kind old (NetParser.new b) ≡ ok (with_kind old m, p)
      → addresses (with_kind old m) p ≡ ok ((m, no_error), q)
      → parse old b ≡ ok (m, no_error)
  unfolding parse parse_message Buffer.size
  parse_step old b p q k e1 e2 =
      let good : supported (with_kind old m) ≡ true = supported-with_kind old m ∙ v.kind_ok in
      ground (arith, e1, e2, good)

-- For a message that is supported, whose Ethernet addresses have six bytes and whose IP addresses
-- fit 32 bits, `serialize` does not throw, and writes 28 bytes; `parse` of them, into any message,
-- returns the message without an error.
pub parse-serialize_arp :
    (m : ArpMessage)
    → IsValid m
    → (bytes : List ℕ) × (serialize m ≡ ok bytes)
      × (length bytes ≡ message_length)
      × ((old : ArpMessage) (b : Buffer) → Buffer.str b ≡ bytes → parse old b ≡ ok (m, no_error))
unfolding serialize
parse-serialize_arp m v = (
  layout m,
  if_false _ _ _ (ap not v.kind_ok),
  length-layout m v,
  λ old b e.
      let (p, e1, s) =
        kind_read m v old (NetParser.new b) (addresses_text m)
          (record { view = e ∙ layout_lem m v; sound = refl }) in
      let (q, e2) = addresses_read m v old p s in
      parse_step m v old b p q (omega (arith, ap length e, length-layout m v)) e1 e2,
)
