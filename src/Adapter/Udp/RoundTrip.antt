-- ===== src/Adapter/Udp/RoundTrip.antt =====
-- What one UDP adapter writes (libsponge/tcp_helpers/fd_adapter.cc), the other one reads.
use tcp_lab.Base.{◌≡◌, true, false, ◌⊎◌}
use tcp_lab.Util.Buffer
use tcp_lab.Util.Buffer.{Buffer}
use tcp_lab.Util.BufferList
use tcp_lab.Util.BufferList.{BufferList}
use tcp_lab.Wire.TcpHeader.{TcpHeader}
use tcp_lab.Wire.TcpSegment
use tcp_lab.Wire.TcpSegment.{TcpSegment}
use tcp_lab.Adapter.{Address}
use tcp_lab.Adapter.Udp.{TcpOverUdpSocketAdapter}

-- The adapter listens, and the segment starts a connection; or it is connected to `from`.
abbrev pub Expects : TcpOverUdpSocketAdapter → Address → TcpHeader → Type 0
Expects b from h =
    ((b.listening ≡ true) × (h.syn ≡ true) × (h.rst ≡ false))
    ⊎ ((b.listening ≡ false) × (b.destination ≡ from))
