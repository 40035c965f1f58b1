-- ===== src/Adapter/Tests.antt =====
-- The witnesses of the theorems on the adapters: a SYN to an adapter that listens.
use tcp_lab.Base.{◌≡◌, [], ◌∷◌, ◌++◌, true, false, arith, ok, refl}
use tcp_lab.Util.Buffer
use tcp_lab.Util.Buffer.{Buffer}
use tcp_lab.Util.BufferList
use tcp_lab.Util.BufferList.{BufferList}
use tcp_lab.Util.NetParser.{no_error}
use tcp_lab.Wire.TcpHeader
use tcp_lab.Wire.TcpSegment.{TcpSegment}
use tcp_lab.Wire.Ipv4Datagram
use tcp_lab.Wire.Ipv4Datagram.{Ipv4Datagram}
use tcp_lab.Adapter.{TcpOverIpv4Adapter, wrap_tcp_in_ip}
use tcp_lab.Wire.Ethernet.{EthernetAddress}
use tcp_lab.Interface
use tcp_lab.Adapter.Udp
use tcp_lab.Adapter.Tap
use tcp_lab.Adapter.Tap.{TcpOverIpv4OverEthernetAdapter, serialize_all}
use tcp_lab.Adapter.Tap.EndToEnd.{Takes, read-write_frame}
use tcp_lab.Adapter.RoundTrip.{Peer, Unwraps, outgoing, unwrap_tcp_in_ip-wrap_tcp_in_ip}

abbrev client : TcpOverIpv4Adapter
client = record {
  source = record { ipv4_numeric = 0x0a00_0001; port = 5000 };
  destination = record { ipv4_numeric = 0x0a00_0002; port = 80 };
  listening = false;
}

abbrev syn : TcpSegment
syn = record {
  header = record TcpHeader.default { seqno = 7; syn = true; win = 64000 };
  payload = Buffer.of_string (0x41 ∷ []);
}

unwrap_tcp_in_ip-wrap_tcp_in_ip_example :
    (d : Ipv4Datagram) × (out : BufferList) × (wrap_tcp_in_ip client syn
      ≡ ok (outgoing client syn, d))
    × (Ipv4Datagram.serialize d ≡ ok out)
    × ((b : TcpOverIpv4Adapter) (old : Ipv4Datagram) (bytes : Buffer)
        → Peer client b syn.header
        → Buffer.str bytes ≡ BufferList.concatenate out
        → (d' : Ipv4Datagram) × (Ipv4Datagram.parse old bytes ≡ ok (d', no_error))
          × Unwraps client b syn d')
unfolding Buffer.str Buffer.size
unwrap_tcp_in_ip-wrap_tcp_in_ip_example =
    unwrap_tcp_in_ip-wrap_tcp_in_ip client syn (omega arith) (omega arith) (omega arith)
      (omega arith) (omega arith)

-- A device that knows the address of its next hop.
abbrev near : EthernetAddress
near = 2 ∷ 0 ∷ 0 ∷ 0 ∷ 0 ∷ 9 ∷ []

abbrev device : TcpOverIpv4OverEthernetAdapter
device = record {
  base = client;
  tap = [];
  interface = record (Interface.new (2 ∷ 0 ∷ 0 ∷ 0 ∷ 0 ∷ 1 ∷ []) 0x0a00_0001) {
    arp_table =
        (
          0x0a00_0002,
          record { ethernet_address = near; updated_time = 0; ask_time = 0; exist = true },
        )
        ∷ [];
  };
  next_hop = record { ipv4_numeric = 0x0a00_0002; port = 0 };
}

read-write_frame_example :
    (t' : TcpOverIpv4OverEthernetAdapter) × (frame : BufferList) × (Tap.write device syn
      ≡ ok (t', outgoing client syn))
    × (t'.tap ≡ device.tap ++ (serialize_all device.interface.frames_out ++ (frame ∷ [])))
    × (t'.interface.frames_out ≡ [])
    × ((u : TcpOverIpv4OverEthernetAdapter) (bytes : Buffer)
        → u.interface.ethernet_address ≡ near
        → Peer client u.base syn.header
        → Buffer.str bytes ≡ BufferList.concatenate frame
        → Takes device u syn bytes)
unfolding Buffer.str Buffer.size Interface.known_address Interface.new
read-write_frame_example =
    read-write_frame device syn near (omega arith) (omega arith) (omega arith) (omega arith)
      (omega arith) refl (omega arith) (omega arith)
