-- ===== src/Sender/Payloads.antt =====
-- The size of the payloads that the sender (libsponge/tcp_sender.cc) puts in its segments.
use tcp_lab.Base.{
  ℕ, zero, suc, ◌+◌, ◌≤◌, ◌≡◌, refl, subst, Bool, inl, inr, Option, List, [], ◌∷◌, All, All-snoc,
  arith, ltb, leb, ◌||◌, add64, ◌==◌, if◌then◌else◌, Bool-cases, length, length-take, Result,
  Ensures, Ensures-any, Ensures-bind, Ensures-if, ok, ◌>>=◌, IsU64,
}
use tcp_lab.Seqno.{WrappingInt32, unwrap}
use tcp_lab.Util.Buffer
use tcp_lab.Util.BufferList
use tcp_lab.ByteStream
use tcp_lab.ByteStream.{ByteStream}
use tcp_lab.Wire.TcpSegment.{TcpSegment, length_in_sequence_space}
use tcp_lab.Sender.{
  TcpSender, Sent, Turn, new, max_payload_size, read_size, segment_of, emit, turn, fill_loop,
  fill_window, bytes_in_flight, drop_acked, advance, ack_received, retransmit, tick,
  send_empty_segment,
}
use tcp_lab.Sender.Runs.{Call, Trace, step, run, started, offered, WindowOk, run-Good}

-- The payload is bounded, and the window is left to the connection.
abbrev pub IsSmall : TcpSegment → Type 0
IsSmall seg = (Buffer.size seg.payload ≤ max_payload_size) × (seg.header.win ≡ 0)

-- The segments that are queued, and those that are kept.
abbrev pub AreSmall : TcpSender → Type 0
AreSmall s = All IsSmall s.segments_out × All (λ x. IsSmall x.seg) s.sent

segment_of-IsSmall :
    (s : TcpSender) (bytes : List ℕ) (fin : Bool)
    → length bytes ≤ max_payload_size
    → IsSmall (segment_of s bytes fin)
unfolding segment_of Buffer.size Buffer.str
segment_of-IsSmall s bytes fin h = (h, refl)

read_lem : (s : ByteStream) (n : ℕ) → Ensures (λ p. length p.0 ≤ n) (ByteStream.read s n)
unfolding ByteStream.read ByteStream.peek_output
read_lem s n =
    Ensures-bind _ _ (ByteStream.pop_output s n) _ (Ensures-any _)
      (λ x _. omega (arith, length-take n (BufferList.concatenate s.buffer)))

emit-AreSmall :
    (s : TcpSender) (stream : ByteStream) (bytes : List ℕ) (fin : Bool)
    → length bytes ≤ max_payload_size
    → AreSmall s
    → AreSmall (emit s stream bytes fin).sender
unfolding emit
emit-AreSmall s stream bytes fin h (a, b) =
    elim (Bool-cases (length_in_sequence_space (segment_of s bytes fin) == 0)) [
      | inl z ↦ rw z (a, b)
      | inr z ↦
          let small = segment_of-IsSmall s bytes fin h in
          rw z (All-snoc IsSmall _ _ a small, All-snoc (λ x. IsSmall x.seg) _ _ b small)
    ]

turn-AreSmall : (s : TcpSender) (ex : ℕ) → AreSmall s → Ensures (λ t. AreSmall t.sender) (turn s ex)
unfolding turn
turn-AreSmall s ex h =
    Ensures-bind _ _ (ByteStream.read s.stream (read_size s ex)) _
      (read_lem s.stream (read_size s ex)) (λ p le. emit-AreSmall s p.1 p.0 _ (ground arith) h)

fill_loop-AreSmall :
    (fuel : ℕ) (s : TcpSender) (ex : ℕ) → AreSmall s → Ensures AreSmall (fill_loop fuel s ex)
unfolding fill_loop
fill_loop-AreSmall zero s ex h = tt
fill_loop-AreSmall (suc fuel) s ex h =
    let next : Turn → Result TcpSender =
      λ t. if t.stop then ok t.sender else fill_loop fuel t.sender 0 in
    let rest = turn s ex >>= next in
    let rest_small : Ensures AreSmall rest =
      Ensures-bind _ AreSmall (turn s ex) next (turn-AreSmall s ex h) (λ t k.
        Ensures-if AreSmall t.stop (ok t.sender) (fill_loop fuel t.sender 0) k
          (fill_loop-AreSmall fuel t.sender 0 k)) in
    Ensures-if AreSmall (ltb (bytes_in_flight s) (s.window_size + ex))
      (if s.fined then ok s else rest) (ok s) (Ensures-if AreSmall s.fined (ok s) rest h rest_small)
      h

drop_acked-AreSmall :
    (m : ℕ) (xs : List Sent)
    → All (λ x. IsSmall x.seg) xs
    → All (λ x. IsSmall x.seg) (drop_acked m xs)
unfolding drop_acked
drop_acked-AreSmall m [] a = tt
drop_acked-AreSmall m (x ∷ xs) (p, a) = elim (Bool-cases (leb x.expected_ack m)) [
  | inl le ↦ rw le (drop_acked-AreSmall m xs a)
  | inr gt ↦ rw gt (p, a)
]

pub ack_received-AreSmall :
    (s : TcpSender) (ackno : WrappingInt32) (window : ℕ)
    → AreSmall s
    → AreSmall (ack_received s ackno window)
unfolding ack_received advance
ack_received-AreSmall s ackno window (a, b) =
    let tmp = unwrap ackno s.isn s.last_acked_abs_seqno in
    elim (Bool-cases (leb tmp s.last_acked_abs_seqno || ltb s.next_abs_seqno tmp)) [
      | inl old ↦ rw old (a, b)
      | inr new_ ↦ rw new_ (kept s.sent a b b)
    ]
  where
    kept :
        (xs : List Sent)
        → All IsSmall s.segments_out
        → All (λ x. IsSmall x.seg) xs
        → All (λ x. IsSmall x.seg) s.sent
        → AreSmall (
            advance
              (record s { window_size = window })
              (unwrap ackno s.isn s.last_acked_abs_seqno)
              xs)
    kept [] a b c = (a, c)
    kept (x ∷ xs) a b c = (a, drop_acked-AreSmall _ (x ∷ xs) b)

pub tick-AreSmall : (s : TcpSender) (ms : ℕ) → AreSmall s → AreSmall (tick s ms)
unfolding tick retransmit
tick-AreSmall s ms (a, b) = resend s.sent b
  where
    resend :
        (xs : List Sent)
        → All (λ x. IsSmall x.seg) xs
        → AreSmall (retransmit s (add64 s.last_time ms) xs)
    resend [] c = (a, b)
    resend (x ∷ xs) (p, c) = elim (Bool-cases (leb s.timeout (add64 s.last_time ms))) [
      | inl due ↦ rw due (All-snoc IsSmall _ _ a p, b)
      | inr early ↦ rw early (a, b)
    ]

pub fill_window-AreSmall : (s : TcpSender) → AreSmall s → Ensures AreSmall (fill_window s)
unfolding fill_window
fill_window-AreSmall s h = fill_loop-AreSmall _ s _ h

pub send_empty_segment-AreSmall : (s : TcpSender) → AreSmall s → AreSmall (send_empty_segment s)
unfolding send_empty_segment Buffer.size Buffer.str
send_empty_segment-AreSmall s (a, b) = (All-snoc IsSmall _ _ a (omega arith, refl), b)

step-AreSmall :
    (t : Trace) (c : Call) → AreSmall t.sender → Ensures (λ u. AreSmall u.sender) (step t c)
step-AreSmall t (Call.put bytes) h = h
step-AreSmall t Call.close h = h
step-AreSmall t Call.fill h =
    Ensures-bind AreSmall _ (fill_window t.sender) _ (fill_window-AreSmall t.sender h) (λ s k. k)
step-AreSmall t (Call.acknowledge ackno window) h = ack_received-AreSmall t.sender ackno window h
step-AreSmall t (Call.wait_ ms) h = tick-AreSmall t.sender ms h
step-AreSmall t Call.empty h = send_empty_segment-AreSmall t.sender h

run-AreSmall_any :
    (t : Trace) (cs : List Call) → AreSmall t.sender → Ensures (λ u. AreSmall u.sender) (run t cs)
unfolding run
run-AreSmall_any t [] h = h
run-AreSmall_any t (c ∷ cs) h =
    Ensures-bind (λ u. AreSmall u.sender) _ (step t c) _ (step-AreSmall t c h)
      (λ u k. run-AreSmall_any u cs k)

-- A fresh sender of a 64-bit capacity serves any sequence of writes, `end_input`, `fill_window`,
-- `ack_received` of any number with a 16-bit window, `tick` and `send_empty_segment` that offers
-- fewer than 2 ^ 64 - 2 bytes, without an exception, and at the end no segment that was queued or is
-- kept for retransmission carries more than max_payload_size (1000) bytes, and
-- none of them has its window set, which is left to the connection.
pub run-AreSmall :
    (capacity timeout : ℕ) (fixed_isn : Option WrappingInt32) (random_isn : ℕ) (cs : List Call)
    → IsU64 capacity
    → IsU64 (offered cs + 2)
    → All WindowOk cs
    → (t : Trace) × (run (started capacity timeout fixed_isn random_isn) cs ≡ ok t)
      × AreSmall t.sender
unfolding new
run-AreSmall capacity timeout fixed_isn random_isn cs h b w =
    let (t, e, _, _) = run-Good capacity timeout fixed_isn random_isn cs h b w in
    (
      t,
      e,
      subst (Ensures (λ u. AreSmall u.sender)) e
          (run-AreSmall_any (started capacity timeout fixed_isn random_isn) cs (tt, tt)),
    )
