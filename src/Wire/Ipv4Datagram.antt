-- ===== src/Wire/Ipv4Datagram.antt =====
-- libsponge/tcp_helpers/ipv4_datagram.hh and ipv4_datagram.cc.
pub mod RoundTrip
use tcp_lab.Base.{not, [], ◌∷◌, ◌==◌, if◌then◌else◌, Result, ok, throw, ◌>>=◌, runtime_error}
use tcp_lab.Util.Buffer.{Buffer}
use tcp_lab.Util.BufferList
use tcp_lab.Util.BufferList.{BufferList}
use tcp_lab.Util.InternetChecksum
use tcp_lab.Util.NetParser
use tcp_lab.Util.NetParser.{NetParser, ParseResult, packet_too_short}
use tcp_lab.Wire.Ipv4Header
use tcp_lab.Wire.Ipv4Header.{Ipv4Header, payload_length}

pub record Ipv4Datagram : Type 0 where
  pub header : Ipv4Header
  pub payload : BufferList

-- `InternetDatagram{}`
abbrev pub default : Ipv4Datagram
default = record { header = Ipv4Header.default; payload = [] }

-- The datagram that `parse` leaves in `*this`, and its result. The result of parsing the header is
-- dropped; what is returned is the parser's own error.
unfoldable pub parse : Ipv4Datagram → Buffer → Result (Ipv4Datagram × ParseResult)
parse d buffer = elim (Ipv4Header.parse d.header (NetParser.new buffer)) [
  | ok (r, p) ↦
      let payload : BufferList = p.buffer ∷ [] in
      ok (
        record { header = r.0; payload = payload },
        if not (BufferList.size payload == payload_length r.0) then packet_too_short else p.error,
      )
  | throw e ↦ throw e
]

unfoldable pub serialize : Ipv4Datagram → Result BufferList
serialize d =
    let header_out = record d.header { cksum = 0 } in
    let bytes = (do
      zeroed ← Ipv4Header.serialize header_out
      let check = InternetChecksum.add (InternetChecksum.new 0) zeroed
      Ipv4Header.serialize (record header_out { cksum = InternetChecksum.value check })) in
    if not (BufferList.size d.payload == payload_length d.header)
    then throw runtime_error
    else (bytes
        >>= (λ b. ok (BufferList.append (BufferList.append [] (BufferList.of_string b)) d.payload)))
