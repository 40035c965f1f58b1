-- ===== src/Connection/Tests.antt =====
-- The witnesses of the theorems on the connection.
use tcp_lab.Base.{
  length, ℕ, Bool, All, inr, ◌≡◌, refl, true, false, none, some, ok, inl, arith, List, [], ◌∷◌,
  ◌++◌,
}
use tcp_lab.Reassembler.Behind.{length-Misses}
use mathlib.Core.Bool.{true≢false}
use tcp_lab.Seqno.{wrap, plus}
use tcp_lab.ByteStream
use tcp_lab.Util.Buffer
use tcp_lab.Util.BufferList
use tcp_lab.Receiver
use tcp_lab.Sender
use tcp_lab.Sender.{TcpSender, Sent}
use tcp_lab.Sender.Chain.{payloads, kept}
use tcp_lab.Sender.Steps.{Good}
use tcp_lab.Connection.Abort.{tick_exhausted}
use tcp_lab.Wire.TcpHeader
use tcp_lab.Wire.TcpSegment
use tcp_lab.Wire.TcpSegment.{TcpSegment}
use tcp_lab.ByteStream.Laws.{contents}
use tcp_lab.Connection.Sane.{IsOut}
use tcp_lab.Connection.Events
use tcp_lab.Connection.Events.{
  Event, call, receive, put, finish, wait_, get, collect, Trace, started, IsPeers,
}
use tcp_lab.Connection.Runs.{run_sound}
use tcp_lab.Connection.{TcpConfig, TcpConnection, new, segment_received, tick, active}
use tcp_lab.Connection.Reset.{all_rst, Dead, segment_received_reset}

abbrev small_config : TcpConfig
small_config = record {
  rt_timeout = 1000;
  recv_capacity = 64000;
  send_capacity = 64000;
  fixed_isn = none;
}

abbrev open_connection : TcpConnection
open_connection = new small_config 5

abbrev rst_segment : TcpSegment
rst_segment = record TcpSegment.default { header = record TcpHeader.default { rst = true } }

segment_received_reset_example :
    (c' : TcpConnection) × (segment_received (λ es. 0) open_connection rst_segment ≡ ok c')
    × (active open_connection ≡ true → Dead open_connection c')
    × (active open_connection ≡ false
        → (active c' ≡ false)
          × (c'.segments_out ≡ open_connection.segments_out)
          × (c'.sender ≡ open_connection.sender))
segment_received_reset_example = segment_received_reset (λ es. 0) open_connection rst_segment refl

-- A connection whose SYN was sent again eight times.
abbrev kept_syn : Sent
kept_syn = record {
  expected_ack = 1;
  seg = record TcpSegment.default { header = record TcpHeader.default { seqno = 7; syn = true } };
}

abbrev tired : TcpSender
tired = record (Sender.new 10 1000 (some 7) 0) {
  next_abs_seqno = 1;
  syned = true;
  sent = kept_syn ∷ [];
  resend_try_times = 8;
}

tired-Good : Good [] tired
unfolding Sender.new ByteStream.new BufferList.concatenate payloads kept Buffer.str wrap
    TcpSegment.length_in_sequence_space Buffer.size
tired-Good = record {
  valid = record {
    stream_ok = record {
      fits = omega arith;
      counted = refl;
      bounded = omega arith;
      capacity_bounded = omega arith;
    };
    counted = refl;
    acked = omega arith;
    bounded = omega arith;
    window_ok = omega arith;
  };
  sound = record {
    start = 0;
    index = 0;
    chain = ((refl, inl (refl, refl, refl)), omega arith, refl, (refl, refl));
    behind = omega arith;
    ordered = (omega arith, tt);
    tail = (omega arith, refl);
    begun = λ e. absurd (true≢false e);
    carries = tt;
  };
}

abbrev tired_connection : TcpConnection
tired_connection = record open_connection { sender = tired }

tick_exhausted_example :
    (c' : TcpConnection) × (news : List TcpSegment) × (tick tired_connection 1000 ≡ ok c')
    × (active c' ≡ false)
    × (c'.sender.stream.error ≡ true)
    × ((Receiver.stream_out c'.receiver).error ≡ true)
    × (c'.segments_out
        ≡ tired_connection.segments_out ++ all_rst (tired.segments_out ++ (kept_syn.seg ∷ news)))
unfolding Sender.new new
tick_exhausted_example =
    tick_exhausted [] tired_connection kept_syn [] 1000 refl refl tired-Good refl refl refl
      (omega arith) (omega arith)

-- A peer that starts from 1000 and sends three bytes: the SYN twice, the last byte, and then all.
abbrev peer_segment : ℕ → Bool → List ℕ → TcpSegment
peer_segment seqno syn bytes = record {
  header = record TcpHeader.default { seqno = seqno; syn = syn; win = 50 };
  payload = Buffer.of_string bytes;
}

abbrev life : List Event
life =
    receive (peer_segment 1000 true [])
    ∷ call collect
    ∷ receive (peer_segment 1000 true [])
    ∷ receive (peer_segment 1003 false (67 ∷ []))
    ∷ call (put (70 ∷ []))
    ∷ receive (peer_segment 1001 false (65 ∷ 66 ∷ 67 ∷ []))
    ∷ call (get 2)
    ∷ call (wait_ 1000)
    ∷ call finish
    ∷ []

life-IsPeers : All (IsPeers 1000 (65 ∷ 66 ∷ 67 ∷ [])) life
unfolding wrap plus Buffer.str
life-IsPeers =
    let first : IsOut 1000 (65 ∷ 66 ∷ 67 ∷ []) (peer_segment 1000 true []) =
      (inl (0, 0, _, (refl, inl (refl, refl, refl)), omega arith, refl), omega arith) in
    let third : IsOut 1000 (65 ∷ 66 ∷ 67 ∷ []) (peer_segment 1003 false (67 ∷ [])) =
      (inl (3, 2, [], (refl, inr (refl, refl)), omega arith, refl), omega arith) in
    let all : IsOut 1000 (65 ∷ 66 ∷ 67 ∷ []) (peer_segment 1001 false (65 ∷ 66 ∷ 67 ∷ [])) =
      (inl (1, 0, [], (refl, inr (refl, refl)), omega arith, refl), omega arith) in
    (first, (tt, (first, (third, (tt, (all, (tt, (tt, (tt, tt)))))))))

run_sound_example :
    (t : Trace) × (rest : List ℕ) × (Events.run (λ es. length es) (started small_config 5) life
      ≡ ok t)
    × All (IsOut (new small_config 5).sender.isn t.accepted) t.sent
    × All (IsOut (new small_config 5).sender.isn t.accepted) t.connection.segments_out
    × ((t.out ++ contents t.connection.receiver.reassembler.output) ++ rest ≡ 65 ∷ 66 ∷ 67 ∷ [])
run_sound_example =
    run_sound small_config 5 1000 (65 ∷ 66 ∷ 67 ∷ []) (λ es. length es) life (omega arith)
      (omega arith) (omega arith) (omega arith) length-Misses life-IsPeers
