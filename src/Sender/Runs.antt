-- ===== src/Sender/Runs.antt =====
-- Whatever calls the sender (libsponge/tcp_sender.cc) serves, its segments stay sound.
use tcp_lab.Base.{
  ℕ, ◌+◌, ◌≤◌, ◌≡◌, refl, Option, List, [], ◌∷◌, ◌++◌, All, arith, length, length-append,
  length-take, take, Result, ok, ◌>>=◌, IsU16, IsU64,
}
use tcp_lab.Seqno.{WrappingInt32}
use tcp_lab.ByteStream
use tcp_lab.Util.BufferList
use tcp_lab.Sender.{TcpSender, new, fill_window, ack_received, tick, send_empty_segment}
use tcp_lab.Sender.Chain.{payloads, kept}
use tcp_lab.Sender.Sound.{Sound}
use tcp_lab.Sender.Filled.{IsValid}
use tcp_lab.Sender.Steps.{
  Good, written, fill_window-Good, send_empty_segment-Good, tick-Good, ack_received-Good,
}
use tcp_lab.Sender.Writes.{write-Good, end_input-Good}

-- The calls that a `TCPConnection` makes of its sender and of the sender's stream.
pub data Call : Type 0 where
  put : List ℕ → Call
  close : Call
  fill : Call
  acknowledge : WrappingInt32 → ℕ → Call
  wait_ : ℕ → Call
  empty : Call

-- The sender, and the bytes that its stream accepted.
pub record Trace : Type 0 where
  pub accepted : List ℕ
  pub sender : TcpSender

abbrev pub step : Trace → Call → Result Trace
step t (put bytes) =
    let r = ByteStream.write t.sender.stream bytes in
    ok (record {
      accepted = t.accepted ++ take r.1 bytes;
      sender = record t.sender { stream = r.0 };
    })
step t close =
    ok (record t { sender = record t.sender { stream = ByteStream.end_input t.sender.stream } })
step t fill = do s ← fill_window t.sender; ok (record t { sender = s })
step t (acknowledge ackno window) = ok (record t { sender = ack_received t.sender ackno window })
step t (wait_ ms) = ok (record t { sender = tick t.sender ms })
step t empty = ok (record t { sender = send_empty_segment t.sender })

unfoldable pub run : Trace → List Call → Result Trace
run t [] = ok t
run t (c ∷ cs) = step t c >>= λ u. run u cs

abbrev pub started : ℕ → ℕ → Option WrappingInt32 → ℕ → Trace
started capacity timeout fixed_isn random_isn = record {
  accepted = [];
  sender = new capacity timeout fixed_isn random_isn;
}

-- How many bytes the calls offer, and that the windows have 16 bits.
abbrev pub offer : Call → ℕ
offer (put bytes) = length bytes
offer close = 0
offer fill = 0
offer (acknowledge ackno window) = 0
offer (wait_ ms) = 0
offer empty = 0

abbrev pub offered : List Call → ℕ
offered [] = 0
offered (c ∷ cs) = offer c + offered cs

abbrev pub WindowOk : Call → Type 0
WindowOk (acknowledge ackno window) = IsU16 window
WindowOk c = Unit {0}

step_lem :
    (t : Trace) (c : Call)
    → Good t.accepted t.sender
    → IsU64 (length t.accepted + offer c + 2)
    → WindowOk c
    → (u : Trace) × (step t c ≡ ok u)
      × Good u.accepted u.sender
      × (length u.accepted ≤ length t.accepted + offer c)
step_lem t (put bytes) g b w =
    let r = ByteStream.write t.sender.stream bytes in
    (
      record { accepted = t.accepted ++ take r.1 bytes; sender = record t.sender { stream = r.0 } },
      refl,
      write-Good t.accepted t.sender g bytes (omega (arith, written t.accepted t.sender g)),
      omega (arith, length-append t.accepted (take r.1 bytes), length-take r.1 bytes),
    )
step_lem t close g b w = (_, refl, end_input-Good t.accepted t.sender g, omega arith)
step_lem t fill g b w =
    let (s, e, k) = fill_window-Good t.accepted t.sender g in
    (record t { sender = s }, rw e refl, k, omega arith)
step_lem t (acknowledge ackno window) g b w =
    (_, refl, ack_received-Good t.accepted t.sender g ackno window w, omega arith)
step_lem t (wait_ ms) g b w = (_, refl, tick-Good t.accepted t.sender g ms, omega arith)
step_lem t empty g b w = (_, refl, send_empty_segment-Good t.accepted t.sender g, omega arith)

run_lem :
    (t : Trace) (cs : List Call)
    → Good t.accepted t.sender
    → IsU64 (length t.accepted + offered cs + 2)
    → All WindowOk cs
    → (u : Trace) × (run t cs ≡ ok u)
      × Good u.accepted u.sender
      × (length u.accepted ≤ length t.accepted + offered cs)
unfolding run
run_lem t [] g b w = (t, refl, g, omega arith)
run_lem t (c ∷ cs) g b (w, ws) =
    let (u, e, k, le) = step_lem t c g (omega arith) w in
    let (z, e', k', le') = run_lem u cs k (omega arith) ws in (z, rw e e', k', omega arith)

pub started-Good :
    (capacity timeout : ℕ) (fixed_isn : Option WrappingInt32) (random_isn : ℕ)
    → IsU64 capacity
    → Good [] (new capacity timeout fixed_isn random_isn)
unfolding new ByteStream.new BufferList.concatenate payloads kept
started-Good capacity timeout fixed_isn random_isn h = record {
  valid = record {
    stream_ok = record {
      fits = omega arith;
      counted = refl;
      bounded = omega arith;
      capacity_bounded = h;
    };
    counted = refl;
    acked = omega arith;
    bounded = omega arith;
    window_ok = omega arith;
  };
  sound = record {
    start = 0;
    index = 0;
    chain = (refl, refl);
    behind = omega arith;
    ordered = tt;
    tail = (omega arith, refl);
    begun = λ e. (refl, refl);
    carries = tt;
  };
}

-- No more is accepted than is offered.
pub run_bounded :
    (capacity timeout : ℕ) (fixed_isn : Option WrappingInt32) (random_isn : ℕ) (cs : List Call)
    → IsU64 capacity
    → IsU64 (offered cs + 2)
    → All WindowOk cs
    → (t : Trace) × (run (started capacity timeout fixed_isn random_isn) cs ≡ ok t)
      × Good t.accepted t.sender
      × (length t.accepted ≤ offered cs)
run_bounded capacity timeout fixed_isn random_isn cs h b w =
    let (t, e, g, le) =
      run_lem (started capacity timeout fixed_isn random_isn) cs
        (started-Good capacity timeout fixed_isn random_isn h) (omega arith) w in
    (t, e, g, omega arith)

-- A fresh sender of a 64-bit capacity serves any sequence of writes, `end_input`, `fill_window`,
-- `ack_received` of any number with a 16-bit window, `tick` and `send_empty_segment` that offers
-- fewer than 2 ^ 64 - 2 bytes, without an exception. At the end its counters are right; the kept
-- segments follow each other without a gap from a number not above the acknowledged one to the next
-- to be sent, in the order of their numbers, and carry the accepted bytes from there on, up to
-- those that wait; and every segment that is queued, be it for the first time or again, has at its
-- sequence number the SYN or the bytes that the stream has there, or carries nothing.
pub run-Good :
    (capacity timeout : ℕ) (fixed_isn : Option WrappingInt32) (random_isn : ℕ) (cs : List Call)
    → IsU64 capacity
    → IsU64 (offered cs + 2)
    → All WindowOk cs
    → (t : Trace) × (run (started capacity timeout fixed_isn random_isn) cs ≡ ok t)
      × IsValid t.sender
      × Sound t.accepted t.sender
run-Good capacity timeout fixed_isn random_isn cs h b w =
    let (t, e, g, _) = run_bounded capacity timeout fixed_isn random_isn cs h b w in
    (t, e, g.valid, g.sound)
