-- ===== src/Adapter/Udp.antt =====
-- libsponge/tcp_helpers/fd_adapter.hh and fd_adapter.cc: TCP segments in UDP payloads. The socket's
-- `recv` and `sendto` are calls of the kernel: the datagram received is a parameter, and what is
-- sent a result.
pub mod RoundTrip
use tcp_lab.Base.{
  Bool, true, false, not, ◌&&◌, Option, none, some, ◌==◌, if◌then◌else◌, Result, ok, ◌>>=◌,
}
use tcp_lab.Util.Buffer.{Buffer}
use tcp_lab.Util.BufferList.{BufferList}
use tcp_lab.Util.NetParser.{is_error}
use tcp_lab.Wire.TcpSegment
use tcp_lab.Wire.TcpSegment.{TcpSegment}
use tcp_lab.Adapter.{Address, TcpOverIpv4Adapter}

-- `FdAdapterBase`, as for the other adapters.
abbrev pub TcpOverUdpSocketAdapter : Type 0
TcpOverUdpSocketAdapter = TcpOverIpv4Adapter

-- `UDPSocket::received_datagram`
pub record ReceivedDatagram : Type 0 where
  pub source_address : Address
  pub payload : Buffer

-- `==` of two addresses.
unfoldable pub same_endpoint : Address → Address → Bool
same_endpoint a b = a.ipv4_numeric == b.ipv4_numeric && a.port == b.port

-- The part of `read` behind the parser.
unfoldable pub target :
    TcpOverUdpSocketAdapter → Address → TcpSegment → TcpOverUdpSocketAdapter × Option TcpSegment
target a source_address seg =
    if a.listening
    then if seg.header.syn && not seg.header.rst
      then (record a { destination = source_address; listening = false }, some seg)
      else (a, none)
    else (a, some seg)

unfoldable pub read :
    TcpOverUdpSocketAdapter
    → ReceivedDatagram
    → Result (TcpOverUdpSocketAdapter × Option TcpSegment)
unfolding same_endpoint target
read a datagram =
    let parsed = (do
      (seg, err) ← TcpSegment.parse TcpSegment.default datagram.payload 0
      ok (if is_error err then (a, none) else target a datagram.source_address seg)) in
    if not a.listening && not (same_endpoint datagram.source_address a.destination)
    then ok (a, none)
    else parsed

-- The segment with its ports set, and the payload that is sent to the destination.
unfoldable pub write : TcpOverUdpSocketAdapter → TcpSegment → Result (TcpSegment × BufferList)
write a seg =
    let seg' = record seg {
      header = record seg.header { sport = a.source.port; dport = a.destination.port };
    } in
    do payload ← TcpSegment.serialize seg' 0; ok (seg', payload)
