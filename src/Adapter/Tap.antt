-- ===== src/Adapter/Tap.antt =====
-- libsponge/tcp_helpers/tuntap_adapter.hh and tuntap_adapter.cc: TCP in IPv4 datagrams in Ethernet
-- frames over a TAP device. What the device's `read` returns is a parameter; `tap` is what was
-- given to its `write` so far, call by call.
pub mod EndToEnd
use tcp_lab.Base.{ℕ, Option, none, some, List, [], ◌∷◌, ◌++◌, if◌then◌else◌, Result, ok, ◌>>=◌}
use tcp_lab.Util.Buffer.{Buffer}
use tcp_lab.Util.BufferList.{BufferList}
use tcp_lab.Util.NetParser.{is_error}
use tcp_lab.Wire.TcpSegment.{TcpSegment}
use tcp_lab.Wire.Ethernet.{EthernetAddress, EthernetFrame, no_address, parse_frame, serialize_frame}
use tcp_lab.Interface
use tcp_lab.Interface.{NetworkInterface}
use tcp_lab.Adapter.{Address, TcpOverIpv4Adapter, unwrap_tcp_in_ip, wrap_tcp_in_ip}

pub record TcpOverIpv4OverEthernetAdapter : Type 0 where
  pub base : TcpOverIpv4Adapter
  pub tap : List BufferList
  pub interface : NetworkInterface
  pub next_hop : Address

-- `EthernetFrame{}`
abbrev pub default_frame : EthernetFrame
default_frame = record {
  header = record { dst = no_address; src = no_address; type = 0 };
  payload = [];
}

-- The constructor, which writes a dummy frame.
unfoldable pub new :
    TcpOverIpv4Adapter → EthernetAddress → Address → Address → TcpOverIpv4OverEthernetAdapter
new base eth_address ip_address next_hop = record {
  base = base;
  tap = serialize_frame default_frame ∷ [];
  interface = Interface.new eth_address ip_address.ipv4_numeric;
  next_hop = next_hop;
}

-- The loop of `send_pending`, over the frames that wait.
unfoldable pub serialize_all : List EthernetFrame → List BufferList
serialize_all [] = []
serialize_all (f ∷ frames) = serialize_frame f ∷ serialize_all frames

unfoldable pub send_pending : TcpOverIpv4OverEthernetAdapter → TcpOverIpv4OverEthernetAdapter
unfolding serialize_all
send_pending t = record t {
  tap = t.tap ++ serialize_all t.interface.frames_out;
  interface = record t.interface { frames_out = [] };
}

-- `read` once the frame is parsed.
unfoldable pub receive :
    TcpOverIpv4OverEthernetAdapter
    → EthernetFrame
    → Result (TcpOverIpv4OverEthernetAdapter × Option TcpSegment)
unfolding send_pending
receive t frame = do
  (i, ip_dgram) ← Interface.recv_frame t.interface frame
  let t' = send_pending (record t { interface = i })
  elim ip_dgram [
    | none ↦ ok (t', none)
    | some d ↦ do (b, seg) ← unwrap_tcp_in_ip t'.base d; ok (record t' { base = b }, seg)
  ]

unfoldable pub read :
    TcpOverIpv4OverEthernetAdapter
    → Buffer
    → Result (TcpOverIpv4OverEthernetAdapter × Option TcpSegment)
unfolding receive
read t bytes = do
  (frame, err) ← parse_frame default_frame bytes
  let received = receive t frame
  if is_error err then ok (t, none) else received

unfoldable pub tick : TcpOverIpv4OverEthernetAdapter → ℕ → TcpOverIpv4OverEthernetAdapter
unfolding send_pending
tick t ms = send_pending (record t { interface = Interface.tick t.interface ms })

-- The adapter, and the segment with its ports set.
unfoldable pub write :
    TcpOverIpv4OverEthernetAdapter
    → TcpSegment
    → Result (TcpOverIpv4OverEthernetAdapter × TcpSegment)
unfolding send_pending
write t seg = do
  (seg', ip_dgram) ← wrap_tcp_in_ip t.base seg
  i ← Interface.send_datagram t.interface ip_dgram t.next_hop.ipv4_numeric
  ok (send_pending (record t { interface = i }), seg')
