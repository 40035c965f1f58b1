-- ===== src/Wire/Tests.antt =====
-- The witnesses of the theorems on the wire formats.
use tcp_lab.Base.{ℕ, ◌≡◌, List, [], ◌∷◌, ◌++◌, true, arith, ok, refl, length}
use tcp_lab.Util.NetParser
use tcp_lab.Util.NetParser.{NetParser, no_error}
use tcp_lab.Util.NetParser.RoundTrip.{Shows}
use tcp_lab.Wire.TcpHeader
use tcp_lab.Wire.TcpHeader.{TcpHeader}
use tcp_lab.Wire.TcpHeader.RoundTrip
use tcp_lab.Util.Buffer
use tcp_lab.Util.Buffer.{Buffer}
use tcp_lab.Util.BufferList
use tcp_lab.Util.BufferList.{BufferList}
use tcp_lab.Wire.TcpSegment
use tcp_lab.Wire.TcpSegment.{TcpSegment}
use tcp_lab.Wire.TcpSegment.RoundTrip.{with_cksum, parse-serialize_checked}
use tcp_lab.Util.InternetChecksum.Laws.{words}
use tcp_lab.Wire.Ipv4Header
use tcp_lab.Wire.Ipv4Datagram
use tcp_lab.Wire.Ipv4Datagram.{Ipv4Datagram}
use tcp_lab.Wire.Ipv4Datagram.RoundTrip.{parse-serialize_datagram}
use tcp_lab.Wire.Ethernet
use tcp_lab.Wire.Ethernet.{EthernetFrame}
use tcp_lab.Wire.Ethernet.RoundTrip.{parse_frame-serialize_frame}
use tcp_lab.Wire.ArpMessage
use tcp_lab.Wire.ArpMessage.{ArpMessage}
use tcp_lab.Wire.ArpMessage.RoundTrip.{parse-serialize_arp}
use tcp_lab.Wire.Total.{Returns, parse_total}
use tcp_lab.Wire.TcpHeader.{fixed_part}

-- A SYN of 24 bytes.
abbrev syn_header : TcpHeader
syn_header = record TcpHeader.default {
  sport = 0xbeef;
  dport = 80;
  seqno = 0xffff_fff0;
  doff = 6;
  syn = true;
  win = 4096;
}

parse-serialize_example :
    (bytes : List ℕ) × (TcpHeader.serialize syn_header ≡ ok bytes)
    × ((p : NetParser)
        → Shows p (bytes ++ (7 ∷ []))
        → (q : NetParser) × (TcpHeader.parse p ≡ ok ((syn_header, no_error), q)) × Shows q (7 ∷ []))
parse-serialize_example = RoundTrip.parse-serialize syn_header (7 ∷ []) (omega arith)

abbrev syn_segment : TcpSegment
syn_segment = record { header = syn_header; payload = Buffer.of_string (0x41 ∷ 0x42 ∷ []) }

parse-serialize_checked_example :
    (out : BufferList) × (c : ℕ) × (TcpSegment.serialize syn_segment 1000 ≡ ok out)
    × (BufferList.size out ≡ 26)
    × ((old : TcpSegment) (b : Buffer)
        → Buffer.str b ≡ BufferList.concatenate out
        → (s' : TcpSegment) × (TcpSegment.parse old b 1000 ≡ ok (s', no_error))
          × (s'.header ≡ with_cksum syn_header c)
          × (Buffer.str s'.payload ≡ Buffer.str syn_segment.payload))
unfolding Buffer.str words fixed_part NetParser.put_u8 NetParser.put_u16 NetParser.put_u32
parse-serialize_checked_example =
    parse-serialize_checked syn_segment 1000 (omega arith) (omega arith) (omega arith)

abbrev datagram : Ipv4Datagram
datagram = record {
  header = record Ipv4Header.default { len = 23; src = 0x0a00_0001; dst = 0x0a00_0002 };
  payload = Buffer.of_string (0x41 ∷ 0x42 ∷ []) ∷ Buffer.of_string (0x43 ∷ []) ∷ [];
}

parse-serialize_datagram_example :
    (out : BufferList) × (c : ℕ) × (Ipv4Datagram.serialize datagram ≡ ok out)
    × ((old : Ipv4Datagram) (b : Buffer)
        → Buffer.str b ≡ BufferList.concatenate out
        → (payload : Buffer) × (Ipv4Datagram.parse old b
            ≡ ok (
              record { header = record datagram.header { cksum = c }; payload = payload ∷ [] },
              no_error,
            ))
          × (Buffer.str payload ≡ BufferList.concatenate datagram.payload))
unfolding BufferList.size Buffer.size Buffer.str
parse-serialize_datagram_example = parse-serialize_datagram datagram (omega arith) (omega arith)

abbrev broadcast_frame : EthernetFrame
broadcast_frame = record {
  header = record {
    dst = Ethernet.ethernet_broadcast;
    src = 2 ∷ 0 ∷ 0 ∷ 0 ∷ 0 ∷ 1 ∷ [];
    type = Ethernet.type_arp;
  };
  payload = BufferList.of_string (1 ∷ 2 ∷ []);
}

abbrev no_frame : EthernetFrame
no_frame = record {
  header = record { dst = Ethernet.no_address; src = Ethernet.no_address; type = 0 };
  payload = [];
}

parse_frame-serialize_frame_example :
    (payload : Buffer) × (Ethernet.parse_frame no_frame
        (Buffer.of_string (BufferList.concatenate (Ethernet.serialize_frame broadcast_frame)))
      ≡ ok (record { header = broadcast_frame.header; payload = payload ∷ [] }, no_error))
    × (Buffer.str payload ≡ BufferList.concatenate broadcast_frame.payload)
unfolding Buffer.str
parse_frame-serialize_frame_example =
    parse_frame-serialize_frame broadcast_frame no_frame
      (Buffer.of_string (BufferList.concatenate (Ethernet.serialize_frame broadcast_frame)))
      (omega arith) refl

abbrev request : ArpMessage
request = record ArpMessage.default {
  opcode = ArpMessage.opcode_request;
  sender_ethernet_address = 2 ∷ 0 ∷ 0 ∷ 0 ∷ 0 ∷ 1 ∷ [];
  sender_ip_address = 0x0a00_0001;
  target_ip_address = 0x0a00_0002;
}

parse-serialize_arp_example :
    (bytes : List ℕ) × (ArpMessage.serialize request ≡ ok bytes)
    × (length bytes ≡ 28)
    × ((old : ArpMessage) (b : Buffer)
        → Buffer.str b ≡ bytes
        → ArpMessage.parse old b ≡ ok (request, no_error))
unfolding ArpMessage.supported
parse-serialize_arp_example = parse-serialize_arp request (record {
  kind_ok = refl;
  sender_ok = omega arith;
  sender_ip_ok = omega arith;
  target_ok = omega arith;
  target_ip_ok = omega arith;
})

parse_total_example :
    Returns (TcpSegment.parse syn_segment (Buffer.of_string (0x45 ∷ 0 ∷ [])) 7)
    × Returns (Ipv4Datagram.parse datagram (Buffer.of_string (0x45 ∷ 0 ∷ [])))
    × Returns (Ethernet.parse_frame no_frame (Buffer.of_string (0x45 ∷ 0 ∷ [])))
    × Returns (ArpMessage.parse request (Buffer.of_string (0x45 ∷ 0 ∷ [])))
parse_total_example =
    parse_total (Buffer.of_string (0x45 ∷ 0 ∷ [])) syn_segment 7 datagram no_frame request
