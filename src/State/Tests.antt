-- ===== src/State/Tests.antt =====
-- The witness of the theorem on `connect`.
use tcp_lab.Base.{◌≡◌, true, [], ◌∷◌, ok, some}
use tcp_lab.Wire.TcpSegment.{TcpSegment}
use tcp_lab.Connection.{TcpConfig, TcpConnection, new, connect, active}
use tcp_lab.State.{of_state, state, listen, syn_sent}
use tcp_lab.State.Opening.{IsSyn, connect_lem}

abbrev config : TcpConfig
config = record {
  rt_timeout = 1000;
  recv_capacity = 64000;
  send_capacity = 64000;
  fixed_isn = some 77;
}

connect_lem_example :
    (c : TcpConnection) × (seg : TcpSegment) × (state (new config 0) ≡ ok (of_state listen))
    × (connect (new config 0) ≡ ok c)
    × (state c ≡ ok (of_state syn_sent))
    × (c.segments_out ≡ seg ∷ [])
    × IsSyn c.sender.isn seg
    × (active c ≡ true)
connect_lem_example = connect_lem config 0
