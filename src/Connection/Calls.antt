-- ===== src/Connection/Calls.antt =====
-- The calls of libsponge/tcp_connection.cc, on a connection whose peer is sound: none of them throws.
use tcp_lab.Base.{
  ℕ, ◌+◌, refl, Bool, true, false, not, ◌&&◌, ◌==◌, if◌then◌else◌, Option, none, List, [], ◌∷◌,
  ◌++◌, All, arith, length, take, Total, Total-bind, Total-if, Total-of, ok, IsU64, add64,
}
use tcp_lab.Seqno.{WrappingInt32}
use tcp_lab.ByteStream
use tcp_lab.Wire.TcpSegment.{TcpSegment, length_in_sequence_space}
use tcp_lab.Receiver
use tcp_lab.Receiver.{TcpReceiver}
use tcp_lab.Receiver.Events
use tcp_lab.Receiver.Events.{deliver, get, with_output}
use tcp_lab.Receiver.Following.{Following, get_step}
use tcp_lab.Receiver.Segments.{event_step}
use tcp_lab.Sender
use tcp_lab.Sender.{TcpSender}
use tcp_lab.Sender.Chain.{Carries-grow}
use tcp_lab.Sender.Steps.{written}
use tcp_lab.Sender.Writes.{write-Good, end_input-Good}
use tcp_lab.Connection.{
  TcpConnection, connect, fill_if_syned, send_empty, answer, respond, segment_received, write, tick,
  end_input_stream, judge_do,
}
use tcp_lab.Connection.Sane.{
  SenderOk, IsOut, fill_ok, fill_if_syned_ok, tick-SenderOk, send_empty-SenderOk, ack-SenderOk,
  Peer, Follows, Sane,
}
use tcp_lab.Connection.Judge.{Ok, ackno_ok, judge-Ok, either}

-- What a sound peer sends.
abbrev IsSound : Peer → TcpSegment → Type 0
IsSound p seg = IsOut p.isn p.stream seg

pub out_grow :
    (mine : WrappingInt32) (acc more : List ℕ) (segs : List TcpSegment)
    → All (IsOut mine acc) segs
    → All (IsOut mine (acc ++ more)) segs
out_grow mine acc more [] a = tt
out_grow mine acc more (x ∷ xs) ((c, w), a) =
    ((Carries-grow mine acc more x c, w), out_grow mine acc more xs a)

module _ (p : Peer) (mine : WrappingInt32) (acc out : List ℕ) where
  received_ok :
      (r : TcpReceiver) (seg : TcpSegment)
      → Follows p out r
      → IsSound p seg
      → Total (Follows p out) (Receiver.segment_received p.end_key r seg)
  received_ok r seg f s =
      let t : Events.Trace = record { out = out; receiver = r } in
      let (u, e, k) =
        event_step p.isn p.stream p.capacity p.short p.word p.end_key p.past t f (deliver seg)
          s.0 in
      Total-of (λ r'. record t { receiver = r' })
        (Following p.isn p.stream p.capacity p.short p.word p.end_key p.past)
        (Receiver.segment_received p.end_key r seg) u e k

  module _ (c : TcpConnection) (s : Sane p mine acc out c) where
    -- The same connection with another sender.
    judged :
        (t : TcpSender) (linger : Bool) (time : ℕ)
        → SenderOk mine acc t
        → Ok p mine acc out (
            judge_do (record c {
              sender = t;
              linger_after_streams_finish = linger;
              last_seg_timer = time;
            }))
    judged t linger time o =
        judge-Ok p mine acc out _
          (record { sender_ok = o; receiver_ok = s.receiver_ok; queued = s.queued })

    pub connect-Ok : Ok p mine acc out (connect c)
    unfolding connect
    connect-Ok =
        Total-bind (SenderOk mine acc) (Sane p mine acc out) (Sender.fill_window c.sender) _
          (fill_ok mine acc c.sender s.sender_ok)
          (λ t o. judged t c.linger_after_streams_finish c.last_seg_timer o)

    pub tick-Ok : (ms : ℕ) → Ok p mine acc out (tick c ms)
    unfolding tick
    tick-Ok ms =
        Total-bind (SenderOk mine acc) (Sane p mine acc out)
          (fill_if_syned (Sender.tick c.sender ms)) _
          (fill_if_syned_ok mine acc _ (tick-SenderOk mine acc c.sender s.sender_ok ms))
          (λ t o. judged t c.linger_after_streams_finish (add64 c.last_seg_timer ms) o)

    pub end_input-Ok : Ok p mine acc out (end_input_stream c)
    unfolding end_input_stream
    end_input-Ok =
        let ended = record c.sender { stream = ByteStream.end_input c.sender.stream } in
        Total-bind (SenderOk mine acc) (Sane p mine acc out) (Sender.fill_window ended) _
          (fill_ok mine acc ended (record {
            good = end_input-Good acc c.sender s.sender_ok.good;
            isn_kept = s.sender_ok.isn_kept;
            small = s.sender_ok.small;
          }))
          (λ t o. judged t c.linger_after_streams_finish c.last_seg_timer o)

    answer-Ok : (seg : TcpSegment) → Ok p mine acc out (answer c seg)
    unfolding answer
    answer-Ok seg =
        let reply : Option WrappingInt32 → TcpSender =
          λ a. if send_empty c seg a then Sender.send_empty_segment c.sender else c.sender in
        let linger =
          if Receiver.full_fined c.receiver && not c.sender.fined
          then false
          else c.linger_after_streams_finish in
        Total-bind (λ _. Unit {0}) (Sane p mine acc out)
          (if length_in_sequence_space seg == 0 then Receiver.ackno c.receiver else ok none) _
          (Total-if (λ _. Unit {0}) (length_in_sequence_space seg == 0) _ (ok none)
            (ackno_ok p mine acc out c.receiver s.receiver_ok) (none, refl, tt))
          (λ a _. judged (reply a) linger c.last_seg_timer (
            either (SenderOk mine acc) (send_empty c seg a) _ c.sender
              (send_empty-SenderOk mine acc c.sender s.sender_ok) s.sender_ok))

  respond-Ok :
      (c : TcpConnection) (seg : TcpSegment)
      → Sane p mine acc out c
      → IsSound p seg
      → Ok p mine acc out (respond c seg)
  unfolding respond
  respond-Ok c seg s k =
      let h = seg.header in
      let acked = if h.ack then Sender.ack_received c.sender h.ackno h.win else c.sender in
      Total-if (Sane p mine acc out) (h.syn && not c.sender.syned) (connect c) _ (connect-Ok c s) (
        Total-bind (SenderOk mine acc) (Sane p mine acc out) (fill_if_syned acked) _
          (fill_if_syned_ok mine acc acked (
            either (SenderOk mine acc) h.ack _ c.sender
              (ack-SenderOk mine acc c.sender s.sender_ok h.ackno h.win k.1) s.sender_ok))
          (λ t o.
            answer-Ok (record c { sender = t })
              (record { sender_ok = o; receiver_ok = s.receiver_ok; queued = s.queued }) seg))

  pub segment_received-Ok :
      (c : TcpConnection) (seg : TcpSegment)
      → Sane p mine acc out c
      → IsSound p seg
      → Ok p mine acc out (segment_received p.end_key c seg)
  unfolding segment_received
  segment_received-Ok c seg s k =
      let c0 = record c { last_seg_timer = 0 } in
      Total-if (Sane p mine acc out) seg.header.rst (judge_do (record c0 { rst = true })) _
        (judge-Ok p mine acc out (record c0 { rst = true })
          (record { sender_ok = s.sender_ok; receiver_ok = s.receiver_ok; queued = s.queued }))
        (Total-bind (Follows p out) (Sane p mine acc out)
          (Receiver.segment_received p.end_key c.receiver seg) _
          (received_ok c.receiver seg s.receiver_ok k)
          (λ r f.
            respond-Ok (record c0 { receiver = r }) seg
              (record { sender_ok = s.sender_ok; receiver_ok = f; queued = s.queued }) k))

  -- A write: the stream takes as many of the bytes as there is room for.
  pub write_ok :
      (c : TcpConnection) (bytes : List ℕ)
      → Sane p mine acc out c
      → IsU64 (length acc + length bytes + 2)
      → Total (λ q. Sane p mine (acc ++ take q.1 bytes) out q.0) (write c bytes)
  unfolding write
  write_ok c bytes s fits =
      let w = ByteStream.write c.sender.stream bytes in
      let more = acc ++ take w.1 bytes in
      let o = s.sender_ok in
      let good =
        write-Good acc c.sender o.good bytes (omega (arith, fits, written acc c.sender o.good)) in
      Total-bind (SenderOk mine more) (λ q. Sane p mine (acc ++ take q.1 bytes) out q.0)
        (fill_if_syned (record c.sender { stream = w.0 })) _
        (fill_if_syned_ok mine more _
          (record { good = good; isn_kept = o.isn_kept; small = o.small }))
        (λ t k.
          Total-bind (Sane p mine more out) (λ q. Sane p mine (acc ++ take q.1 bytes) out q.0)
            (judge_do (record c { sender = t })) _
            (judge-Ok p mine more out (record c { sender = t })
              (record {
                sender_ok = k;
                receiver_ok = s.receiver_ok;
                queued = out_grow mine acc (take w.1 bytes) c.segments_out s.queued;
              }))
            (λ c' k'. ((c', w.1), refl, k')))

  -- A read of the inbound stream.
  pub get_ok :
      (c : TcpConnection) (n : ℕ)
      → Sane p mine acc out c
      → Total
          (λ q. Sane p mine acc (out ++ q.0) (record c { receiver = with_output c.receiver q.1 }))
          (ByteStream.read c.receiver.reassembler.output n)
  get_ok c n s =
      let t : Events.Trace = record { out = out; receiver = c.receiver } in
      let (u, e, k) =
        get_step p.isn p.stream p.capacity p.short p.word p.end_key p.past t s.receiver_ok n in
      let (q, read, f) =
        Total-of {A = List ℕ × ByteStream.ByteStream}
          (λ q. record { out = out ++ q.0; receiver = with_output c.receiver q.1 })
          (Following p.isn p.stream p.capacity p.short p.word p.end_key p.past)
          (ByteStream.read c.receiver.reassembler.output n) u e k in
      (q, read, record { sender_ok = s.sender_ok; receiver_ok = f; queued = s.queued })
