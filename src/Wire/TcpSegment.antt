-- ===== src/Wire/TcpSegment.antt =====
-- libsponge/tcp_helpers/tcp_segment.hh and tcp_segment.cc.
pub mod RoundTrip
use tcp_lab.Base.{ℕ, ◌+◌, not, [], ◌∷◌, ◌==◌, if◌then◌else◌, Result, ok, throw, ◌>>=◌}
use tcp_lab.Util.Buffer
use tcp_lab.Util.Buffer.{Buffer}
use tcp_lab.Util.BufferList
use tcp_lab.Util.BufferList.{BufferList}
use tcp_lab.Util.InternetChecksum
use tcp_lab.Util.NetParser
use tcp_lab.Util.NetParser.{NetParser, ParseResult, bad_checksum}
use tcp_lab.Wire.TcpHeader
use tcp_lab.Wire.TcpHeader.{TcpHeader}

pub record TcpSegment : Type 0 where
  pub header : TcpHeader
  pub payload : Buffer

-- `TCPSegment{}`
abbrev pub default : TcpSegment
default = record { header = TcpHeader.default; payload = Buffer.empty }

-- The segment that the call leaves in `*this`, and its result. The result of parsing the header is
-- dropped; what is returned is the parser's own error.
unfoldable pub parse : TcpSegment → Buffer → ℕ → Result (TcpSegment × ParseResult)
parse s buffer datagram_layer_checksum =
    let check =
      InternetChecksum.add (InternetChecksum.new datagram_layer_checksum) (Buffer.str buffer) in
    if not (InternetChecksum.value check == 0)
    then ok (s, bad_checksum)
    else elim (TcpHeader.parse (NetParser.new buffer)) [
      | ok (r, p) ↦ ok (record { header = r.0; payload = p.buffer }, p.error)
      | throw e ↦ throw e
    ]

unfoldable pub length_in_sequence_space : TcpSegment → ℕ
length_in_sequence_space s =
    Buffer.size s.payload + (if s.header.syn then 1 else 0) + (if s.header.fin then 1 else 0)

unfoldable pub serialize : TcpSegment → ℕ → Result BufferList
serialize s datagram_layer_checksum =
    let header_out = record s.header { cksum = 0 } in
    do
      zeroed ← TcpHeader.serialize header_out
      let check =
          InternetChecksum.add
            (InternetChecksum.add (InternetChecksum.new datagram_layer_checksum) zeroed)
            (Buffer.str s.payload)
      bytes ← TcpHeader.serialize (record header_out { cksum = InternetChecksum.value check })
      ok (BufferList.append (BufferList.append [] (BufferList.of_string bytes)) (s.payload ∷ []))
