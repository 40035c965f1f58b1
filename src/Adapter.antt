-- ===== src/Adapter.antt =====
-- libsponge/tcp_helpers/tcp_over_ip.hh and tcp_over_ip.cc, and the configuration that they read
-- (tcp_config.hh, fd_adapter.hh). An `Address` is its `ipv4_numeric()` and its `port()`; the
-- source builds one from a number by way of its dotted form.
pub mod RoundTrip
pub mod Udp
pub mod Tun
pub mod Tap
pub mod Lossy
mod Tests
use tcp_lab.Base.{
  ℕ, ◌+◌, ◌*◌, ◌%◌, ◌^◌, Bool, false, not, ◌&&◌, ◌||◌, Option, none, some, ◌==◌, if◌then◌else◌,
  Result, ok, ◌>>=◌,
}
use tcp_lab.Util.Buffer
use tcp_lab.Util.BufferList
use tcp_lab.Util.NetParser.{is_error}
use tcp_lab.Wire.TcpSegment
use tcp_lab.Wire.TcpSegment.{TcpSegment}
use tcp_lab.Wire.Ipv4Header
use tcp_lab.Wire.Ipv4Header.{Ipv4Header, proto_tcp}
use tcp_lab.Wire.Ipv4Datagram.{Ipv4Datagram}

pub record Address : Type 0 where
  pub ipv4_numeric : ℕ
  pub port : ℕ

-- `FdAdapterBase`, without the loss rates.
pub record TcpOverIpv4Adapter : Type 0 where
  pub source : Address
  pub destination : Address
  pub listening : Bool

-- The tests on the datagram's header.
unfoldable pub for_us : TcpOverIpv4Adapter → Ipv4Header → Bool
for_us a h =
    (a.listening || (h.dst == a.source.ipv4_numeric && h.src == a.destination.ipv4_numeric))
    && h.proto == proto_tcp

-- The tests on the segment, and what a SYN does to an adapter that listens.
unfoldable pub accept :
    TcpOverIpv4Adapter → Ipv4Header → TcpSegment → TcpOverIpv4Adapter × Option TcpSegment
accept a ip seg =
    let h = seg.header in
    let a' = record a {
      source = record { ipv4_numeric = ip.dst; port = a.source.port };
      destination = record { ipv4_numeric = ip.src; port = h.sport };
      listening = false;
    } in
    if not (h.dport == a.source.port)
    then (a, none)
    else if a.listening
    then if h.syn && not h.rst then (a', some seg) else (a, none)
    else (a, if not (h.sport == a.destination.port) then none else some seg)

unfoldable pub unwrap_tcp_in_ip :
    TcpOverIpv4Adapter → Ipv4Datagram → Result (TcpOverIpv4Adapter × Option TcpSegment)
unfolding for_us accept
unwrap_tcp_in_ip a d =
    let parsed = (do
      b ← BufferList.to_buffer d.payload
      (seg, err) ← TcpSegment.parse TcpSegment.default b (Ipv4Header.pseudo_cksum d.header)
      ok (if is_error err then (a, none) else accept a d.header seg)) in
    if not (for_us a d.header) then ok (a, none) else parsed

-- The segment with its ports set, and the datagram around it. `len` is a `uint16_t`.
unfoldable pub wrap_tcp_in_ip : TcpOverIpv4Adapter → TcpSegment → Result (TcpSegment × Ipv4Datagram)
wrap_tcp_in_ip a seg =
    let seg' = record seg {
      header = record seg.header { sport = a.source.port; dport = a.destination.port };
    } in
    let h = record Ipv4Header.default {
      src = a.source.ipv4_numeric;
      dst = a.destination.ipv4_numeric;
      len = (Ipv4Header.default.hlen * 4 + seg.header.doff * 4 + Buffer.size seg.payload) % 2 ^ 16;
    } in
    do
      payload ← TcpSegment.serialize seg' (Ipv4Header.pseudo_cksum h)
      ok (seg', record { header = h; payload = payload })
