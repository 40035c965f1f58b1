-- ===== src/Sender/Tests.antt =====
-- The witnesses of the theorems on the sender, and tests.
use tcp_lab.Base.{List, ◌+◌, ◌≡◌, ◌≤◌, ◌⊎◌, [], ◌∷◌, some, true, arith, ok, refl}
use tcp_lab.ByteStream
use tcp_lab.Util.Buffer
use tcp_lab.Util.BufferList
use tcp_lab.Wire.TcpSegment
use tcp_lab.Seqno.{wrap}
use tcp_lab.Sender.{TcpSender, new, fill_window, bytes_in_flight, ack_received}
use tcp_lab.Sender.Ack.{Acked, ack_received_lem}
use tcp_lab.Sender.Filled.{Filled, IsValid}
use tcp_lab.Sender.Sound.{Sound}
use tcp_lab.Sender.Runs.{Call, Trace, run, started, run-Good}
use tcp_lab.Sender.Payloads.{AreSmall, run-AreSmall}
use tcp_lab.Sender.Timer.{ticks, resent, ticks_due}
use tcp_lab.Sender.Fill.{window_of, fill_window_lem}

-- A sender that has sent nothing, with two bytes to send and a window of five.
abbrev ready : TcpSender
ready = record (new 10 1000 (some 7) 0) {
  stream = (ByteStream.write (ByteStream.new 10) (65 ∷ 66 ∷ [])).0;
  window_size = 5;
}

ready-IsValid : IsValid ready
unfolding new ByteStream.new ByteStream.write BufferList.concatenate BufferList.append Buffer.str
    BufferList.size
ready-IsValid = record {
  stream_ok = record {
    fits = omega arith;
    counted = refl;
    bounded = omega arith;
    capacity_bounded = omega arith;
  };
  counted = refl;
  acked = omega arith;
  bounded = omega arith;
  window_ok = omega arith;
}

fill_window_lem_example :
    (s' : TcpSender) × (fill_window ready ≡ ok s')
    × Filled (ready.last_acked_abs_seqno + window_of ready) ready s'
    × ((bytes_in_flight s' ≡ bytes_in_flight ready) ⊎ (bytes_in_flight s' ≤ window_of ready))
fill_window_lem_example = fill_window_lem ready ready-IsValid

-- The same sender after its SYN with the two bytes.
abbrev sent_three : TcpSender
sent_three = record ready {
  stream = record (ByteStream.new 10) { write_count = 2; read_count = 2 };
  next_abs_seqno = 3;
  syned = true;
  sent =
      record { expected_ack = 1; seg = TcpSegment.default }
      ∷ record { expected_ack = 3; seg = TcpSegment.default }
      ∷ [];
}

sent_three-IsValid : IsValid sent_three
unfolding new ByteStream.new BufferList.concatenate
sent_three-IsValid = record {
  stream_ok = record {
    fits = omega arith;
    counted = refl;
    bounded = omega arith;
    capacity_bounded = omega arith;
  };
  counted = refl;
  acked = omega arith;
  bounded = omega arith;
  window_ok = omega arith;
}

ack_received_lem_example : Acked 1 9 sent_three (ack_received sent_three (wrap 1 7) 9)
unfolding new
ack_received_lem_example =
    ack_received_lem sent_three 1 9 sent_three-IsValid (omega arith) (omega arith) (omega arith)
      (omega arith, (omega arith, tt)) (omega arith) (omega arith) (omega arith)

-- A SYN, two bytes, an acknowledgment of the SYN, a tick that sends the bytes again, and the end.
abbrev session : List Call
session =
    Call.fill
    ∷ Call.put (65 ∷ 66 ∷ [])
    ∷ Call.acknowledge (wrap 1 7) 5
    ∷ Call.fill
    ∷ Call.wait_ 1000
    ∷ Call.close
    ∷ Call.fill
    ∷ Call.empty
    ∷ []

run-Good_example :
    (t : Trace) × (run (started 10 1000 (some 7) 0) session ≡ ok t)
    × IsValid t.sender
    × Sound t.accepted t.sender
run-Good_example = run-Good 10 1000 (some 7) 0 session (omega arith) (omega arith) (omega arith)

run-AreSmall_example :
    (t : Trace) × (run (started 10 1000 (some 7) 0) session ≡ ok t) × AreSmall t.sender
run-AreSmall_example =
    run-AreSmall 10 1000 (some 7) 0 session (omega arith) (omega arith) (omega arith)

-- A tick of 400 ms does nothing yet; the next one sends the SYN again.
ticks_due_example :
    ((ticks sent_three (400 ∷ [])).segments_out ≡ sent_three.segments_out)
    × (ticks sent_three (400 ∷ 700 ∷ [])
        ≡ resent sent_three (record { expected_ack = 1; seg = TcpSegment.default }))
unfolding new
ticks_due_example =
    ticks_due (400 ∷ []) 700 sent_three (record { expected_ack = 1; seg = TcpSegment.default })
      (record { expected_ack = 3; seg = TcpSegment.default } ∷ []) refl (omega arith) (omega arith)
      (omega arith)
