-- ===== src/Adapter/Tun.antt =====
-- libsponge/tcp_helpers/tuntap_adapter.hh: TCP in IPv4 datagrams over a TUN device. What the
-- device's `read` returns is a parameter, and what is given to its `write` a result.
use tcp_lab.Base.{Option, none, if◌then◌else◌, Result, ok, ◌>>=◌}
use tcp_lab.Util.Buffer.{Buffer}
use tcp_lab.Util.BufferList.{BufferList}
use tcp_lab.Util.NetParser.{is_error}
use tcp_lab.Wire.TcpSegment.{TcpSegment}
use tcp_lab.Wire.Ipv4Datagram
use tcp_lab.Adapter.{TcpOverIpv4Adapter, unwrap_tcp_in_ip, wrap_tcp_in_ip}

unfoldable pub read : TcpOverIpv4Adapter → Buffer → Result (TcpOverIpv4Adapter × Option TcpSegment)
read a bytes = do
  (ip_dgram, err) ← Ipv4Datagram.parse Ipv4Datagram.default bytes
  let unwrapped = unwrap_tcp_in_ip a ip_dgram
  if is_error err then ok (a, none) else unwrapped

unfoldable pub write : TcpOverIpv4Adapter → TcpSegment → Result (TcpSegment × BufferList)
write a seg = do
  (seg', ip_dgram) ← wrap_tcp_in_ip a seg
  out ← Ipv4Datagram.serialize ip_dgram
  ok (seg', out)
