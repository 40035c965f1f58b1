-- ===== src/Wire/TcpHeader.antt =====
-- libsponge/tcp_helpers/tcp_header.hh and tcp_header.cc.
-- The model's fields are the header's; `to_string` and `summary` only print them.
pub mod RoundTrip
use Prim.Native.Nat.{bit_or}
use tcp_lab.Base.{
  ℕ, ◌+◌, ◌-◌, ◌*◌, ◌/◌, ◌%◌, Bool, false, not, ◌&&◌, List, [], ◌++◌, ltb, ◌==◌, if◌then◌else◌,
  length, take, replicate, Result, ok, throw, runtime_error,
}
use tcp_lab.Seqno.{WrappingInt32}
use tcp_lab.Util.NetParser
use tcp_lab.Util.NetParser.{
  Parse, ParseResult, no_error, header_too_short, ◌>>=◌, ◌>>◌, return, is_error, get_error, u8, u16,
  u32, put_u8, put_u16, put_u32,
}
use tcp_lab.Wire.Flags.{test_bit, flag, same}

pub record TcpHeader : Type 0 where
  pub sport : ℕ
  pub dport : ℕ
  pub seqno : WrappingInt32
  pub ackno : WrappingInt32
  pub doff : ℕ
  pub urg : Bool
  pub ack : Bool
  pub psh : Bool
  pub rst : Bool
  pub syn : Bool
  pub fin : Bool
  pub win : ℕ
  pub cksum : ℕ
  pub uptr : ℕ

-- `TCPHeader::LENGTH`
abbrev pub header_length : ℕ
header_length = 20

-- The member initialisers.
abbrev pub default : TcpHeader
default = record {
  sport = 0;
  dport = 0;
  seqno = 0;
  ackno = 0;
  doff = header_length / 4;
  urg = false;
  ack = false;
  psh = false;
  rst = false;
  syn = false;
  fin = false;
  win = 0;
  cksum = 0;
  uptr = 0;
}

-- The end of `parse`, from `if (doff < 5)` on.
unfoldable pub skip_options : TcpHeader → Parse (TcpHeader × ParseResult)
skip_options h = if ltb h.doff 5 then return (h, header_too_short) else do
  NetParser.remove_prefix (h.doff * 4 - header_length)
  e ← get_error
  if is_error e then return (h, e) else return (h, no_error)

-- The header that `parse` leaves in `*this`, and its result.
unfoldable pub parse : Parse (TcpHeader × ParseResult)
parse = do
  sport ← u16
  dport ← u16
  seqno ← u32
  ackno ← u32
  offset_byte ← u8
  fl_b ← u8
  win ← u16
  cksum ← u16
  uptr ← u16
  skip_options (record {
    sport = sport;
    dport = dport;
    seqno = seqno;
    ackno = ackno;
    doff = offset_byte / 16;
    urg = test_bit fl_b 0b0010_0000;
    ack = test_bit fl_b 0b0001_0000;
    psh = test_bit fl_b 0b0000_1000;
    rst = test_bit fl_b 0b0000_0100;
    syn = test_bit fl_b 0b0000_0010;
    fin = test_bit fl_b 0b0000_0001;
    win = win;
    cksum = cksum;
    uptr = uptr;
  })

flags_byte : (urg ack psh rst syn fin : Bool) → ℕ
flags_byte urg ack psh rst syn fin =
    bit_or
      (bit_or
        (bit_or
          (bit_or (bit_or (flag urg 0b0010_0000) (flag ack 0b0001_0000)) (flag psh 0b0000_1000))
          (flag rst 0b0000_0100))
        (flag syn 0b0000_0010))
      (flag fin 0b0000_0001)

-- The fixed part: 20 bytes.
unfoldable pub fixed_part : TcpHeader → List ℕ
unfolding flags_byte
fixed_part h =
    let s = put_u16 [] h.sport in
    let s = put_u16 s h.dport in
    let s = put_u32 s h.seqno in
    let s = put_u32 s h.ackno in
    let s = put_u8 s (h.doff * 16 % 256) in
    let s = put_u8 s (flags_byte h.urg h.ack h.psh h.rst h.syn h.fin) in
    let s = put_u16 s h.win in let s = put_u16 s h.cksum in put_u16 s h.uptr

-- `std::string::resize`, which pads by zero bytes.
abbrev pub resize : List ℕ → ℕ → List ℕ
resize s n = take n s ++ replicate (n - length s) 0

unfoldable pub serialize : TcpHeader → Result (List ℕ)
unfolding fixed_part
serialize h = if ltb h.doff 5 then throw runtime_error else ok (resize (fixed_part h) (4 * h.doff))

-- `operator==`
unfoldable pub equals : TcpHeader → TcpHeader → Bool
equals a b =
    a.seqno == b.seqno
    && (a.ackno == b.ackno
        && (a.doff == b.doff
            && (same a.urg b.urg
                && (same a.ack b.ack
                    && (same a.psh b.psh
                        && (same a.rst b.rst
                            && (same a.syn b.syn
                                && (same a.fin b.fin && (a.win == b.win && a.uptr == b.uptr)))))))))
