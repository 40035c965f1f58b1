-- ===== src/Wire/Ipv4Header.antt =====
-- libsponge/tcp_helpers/ipv4_header.hh and ipv4_header.cc. `to_string` and `summary` only print.
pub mod Words
pub mod RoundTrip
use Prim.Native.Nat.{bit_or}
use tcp_lab.Base.{
  ℕ, ◌+◌, ◌-◌, ◌*◌, ◌/◌, ◌%◌, ◌^◌, Bool, true, false, not, ◌||◌, List, [], ltb, ◌==◌, if◌then◌else◌,
  take, add32, Result, ok, throw, runtime_error,
}
use tcp_lab.Util.Buffer
use tcp_lab.Util.InternetChecksum
use tcp_lab.Util.NetParser
use tcp_lab.Util.NetParser.{
  Parse, ParseResult, no_error, packet_too_short, wrong_ip_version, header_too_short,
  truncated_packet, bad_checksum, ◌>>=◌, ◌>>◌, return, is_error, get_error, get_buffer, u8, u16,
  u32, put_u8, put_u16, put_u32,
}
use tcp_lab.Wire.Flags.{test_bit, flag}
use tcp_lab.Wire.TcpHeader.{resize}

pub record Ipv4Header : Type 0 where
  pub ver : ℕ
  pub hlen : ℕ
  pub tos : ℕ
  pub len : ℕ
  pub id : ℕ
  pub df : Bool
  pub mf : Bool
  pub offset : ℕ
  pub ttl : ℕ
  pub proto : ℕ
  pub cksum : ℕ
  pub src : ℕ
  pub dst : ℕ

-- `IPv4Header::LENGTH`, `DEFAULT_TTL` and `PROTO_TCP`
abbrev pub header_length : ℕ
header_length = 20

abbrev pub default_ttl : ℕ
default_ttl = 128

abbrev pub proto_tcp : ℕ
proto_tcp = 6

-- The member initialisers.
abbrev pub default : Ipv4Header
default = record {
  ver = 4;
  hlen = header_length / 4;
  tos = 0;
  len = 0;
  id = 0;
  df = true;
  mf = false;
  offset = 0;
  ttl = default_ttl;
  proto = proto_tcp;
  cksum = 0;
  src = 0;
  dst = 0;
}

-- The fields, in the order in which `parse` reads them.
unfoldable pub fields : Parse Ipv4Header
fields = do
  first_byte ← u8
  tos ← u8
  len ← u16
  id ← u16
  fo_val ← u16
  ttl ← u8
  proto ← u8
  cksum ← u16
  src ← u32
  dst ← u32
  return (record {
    ver = first_byte / 16;
    hlen = first_byte % 16;
    tos = tos;
    len = len;
    id = id;
    df = test_bit fo_val 0x4000;
    mf = test_bit fo_val 0x2000;
    offset = fo_val % 0x2000;
    ttl = ttl;
    proto = proto;
    cksum = cksum;
    src = src;
    dst = dst;
  })

-- The end of `parse`, from `p.remove_prefix` on. `original` is the text that the header begins.
unfoldable pub verify : List ℕ → Ipv4Header → Parse (Ipv4Header × ParseResult)
verify original h =
    let check = InternetChecksum.add (InternetChecksum.new 0) (take (4 * h.hlen) original) in
    let result = if not (InternetChecksum.value check == 0) then bad_checksum else no_error in
    do
      NetParser.remove_prefix (h.hlen * 4 - header_length)
      e ← get_error
      return (h, if is_error e then e else result)

-- The tests between the fields and the options.
unfoldable pub inspect : List ℕ → Ipv4Header → Parse (Ipv4Header × ParseResult)
unfolding verify
inspect original h =
    let data_size = Buffer.size (Buffer.of_string original) in
    if ltb data_size (4 * h.hlen)
    then return (h, packet_too_short)
    else if not (h.ver == 4)
    then return (h, wrong_ip_version)
    else if ltb h.hlen 5
    then return (h, header_too_short)
    else if not (data_size == h.len)
    then return (h, truncated_packet)
    else verify original h

-- The header that `parse` leaves in `*this`, which was `h`, and its result.
unfoldable pub parse : Ipv4Header → Parse (Ipv4Header × ParseResult)
unfolding fields inspect
parse h = do
  b ← get_buffer
  if ltb (Buffer.size b) header_length
      then return (h, packet_too_short)
      else (fields >>= (λ h'. inspect (Buffer.str b) h'))

unfoldable pub flags_word : Bool → Bool → ℕ → ℕ
flags_word df mf offset = bit_or (bit_or (flag df 0x4000) (flag mf 0x2000)) (offset % 0x2000)

unfoldable pub fixed_part : Ipv4Header → List ℕ
unfolding flags_word
fixed_part h =
    let s = put_u8 [] (bit_or (h.ver * 16) (h.hlen % 16) % 256) in
    let s = put_u8 s h.tos in
    let s = put_u16 s h.len in
    let s = put_u16 s h.id in
    let s = put_u16 s (flags_word h.df h.mf h.offset) in
    let s = put_u8 s h.ttl in
    let s = put_u8 s h.proto in
    let s = put_u16 s h.cksum in let s = put_u32 s h.src in put_u32 s h.dst

unfoldable pub serialize : Ipv4Header → Result (List ℕ)
unfolding fixed_part
serialize h =
    if not (h.ver == 4) || ltb (4 * h.hlen) header_length
    then throw runtime_error
    else ok (resize (fixed_part h) (4 * h.hlen))

-- `uint16_t` arithmetic; `4 * hlen` is at most 1020.
unfoldable pub payload_length : Ipv4Header → ℕ
payload_length h = (h.len + 2 ^ 16 - 4 * h.hlen) % 2 ^ 16

unfoldable pub pseudo_cksum : Ipv4Header → ℕ
unfolding payload_length
pseudo_cksum h =
    let pcksum = add32 (h.src / 2 ^ 16) (h.src % 2 ^ 16) in
    let pcksum = add32 pcksum (add32 (h.dst / 2 ^ 16) (h.dst % 2 ^ 16)) in
    let pcksum = add32 pcksum h.proto in add32 pcksum (payload_length h)
