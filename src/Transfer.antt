-- ===== src/Transfer.antt =====
-- libsponge/tcp_sender.cc and tcp_receiver.cc, joined by a network that may lose, repeat and reorder
-- segments.
mod Tests
use tcp_lab.Base.{
  ℕ, zero, suc, ◌+◌, ◌^◌, ◌≤◌, ◌<◌, ◌≡◌, Option, none, some, List, [], ◌∷◌, ◌++◌, All, arith,
  length, ok, IsU64,
}
use tcp_lab.Reassembler.{EndKey}
use tcp_lab.Reassembler.Behind.{Misses}
use tcp_lab.Seqno.{WrappingInt32}
use tcp_lab.ByteStream.Laws.{contents}
use tcp_lab.Wire.TcpSegment.{TcpSegment}
use tcp_lab.Sender.Chain.{Carries}
use tcp_lab.Sender.Runs
use tcp_lab.Sender.Runs.{Call, offered, WindowOk, run_bounded}
use tcp_lab.Receiver.Events.{Event, deliver, get, IsSent}
use tcp_lab.Receiver.Events
use tcp_lab.Receiver.Runs.{run_prefix}

-- The network delivers the segment that was sent at this place, or the receiving program reads.
pub data Choice : Type 0 where
  pick : ℕ → Choice
  read : ℕ → Choice

abbrev pub sent_at : List TcpSegment → ℕ → Option TcpSegment
sent_at [] i = none
sent_at (x ∷ xs) zero = some x
sent_at (x ∷ xs) (suc i) = sent_at xs i

-- A number for which nothing was sent delivers nothing.
abbrev pub events : List TcpSegment → List Choice → List Event
events sent [] = []
events sent (pick i ∷ cs) = elim (sent_at sent i) [
  | none ↦ events sent cs
  | some seg ↦ deliver seg ∷ events sent cs
]
events sent (read n ∷ cs) = get n ∷ events sent cs

-- What holds of all that was sent holds of the segment that is found.
pub sent_at-All :
    (P : TcpSegment → Type 0) (Q : Option TcpSegment → Type 0) (sent : List TcpSegment) (i : ℕ)
    → All P sent
    → Q none
    → ((seg : TcpSegment) → P seg → Q (some seg))
    → Q (sent_at sent i)
sent_at-All P Q [] i a lost found = lost
sent_at-All P Q (x ∷ xs) zero (p, a) lost found = found x p
sent_at-All P Q (x ∷ xs) (suc i) (p, a) lost found = sent_at-All P Q xs i a lost found

events-IsSent :
    (isn : WrappingInt32) (acc : List ℕ) (sent : List TcpSegment) (cs : List Choice)
    → All (Carries isn acc) sent
    → All (IsSent isn acc) (events sent cs)
events-IsSent isn acc sent [] a = tt
events-IsSent isn acc sent (pick i ∷ cs) a =
    let rest = events-IsSent isn acc sent cs a in
    sent_at-All (Carries isn acc)
      (λ o.
        All (IsSent isn acc)
          (elim o [ none ↦ events sent cs | some seg ↦ deliver seg ∷ events sent cs ]))
      sent i a rest (λ seg p. (p, rest))
events-IsSent isn acc sent (read n ∷ cs) a = (tt, events-IsSent isn acc sent cs a)

-- A fresh sender of a 64-bit capacity serves any calls that offer fewer than 2 ^ 31 - 1 bytes: writes,
-- `end_input`, `fill_window`, acknowledgments, true or not, with 16-bit windows, and ticks, with
-- their retransmissions. A fresh receiver gets, in any order, any of the segments that the sender
-- queued, each any number of times or never, and its program reads in between. Neither throws,
-- and what the receiving program has read, and then what waits for it, is the beginning of what the
-- sending stream accepted. Where an index above the number
-- of stored entries is looked up, a read behind the end of the map does not yield this index: that
-- of libstdc++, which yields the number of entries, does not.
pub transfer_prefix :
    (capacity timeout : ℕ) (fixed_isn : Option WrappingInt32) (random_isn : ℕ) (calls : List Call)
    (receiver_capacity : ℕ) (end_key : EndKey) (choices : List Choice)
    → IsU64 capacity
    → offered calls + 1 < 2 ^ 31
    → All WindowOk calls
    → offered calls + receiver_capacity < 2 ^ 63
    → Misses end_key
    → (s : Runs.Trace) × (t : Events.Trace) × (rest : List ℕ) × (Runs.run
          (Runs.started capacity timeout fixed_isn random_isn)
          calls
        ≡ ok s)
      × (Events.run end_key
            (Events.started receiver_capacity)
            (events s.sender.segments_out choices)
          ≡ ok t)
      × ((t.out ++ contents t.receiver.reassembler.output) ++ rest ≡ s.accepted)
transfer_prefix capacity timeout fixed_isn random_isn calls receiver_capacity end_key choices word
      short windows room past =
    let (s, e, g, le) =
      run_bounded capacity timeout fixed_isn random_isn calls word (omega arith) windows in
    let (t, rest, e', p) =
      run_prefix s.sender.isn s.accepted receiver_capacity end_key
        (events s.sender.segments_out choices) (omega arith) (omega arith) past
        (events-IsSent s.sender.isn s.accepted s.sender.segments_out choices g.sound.carries) in
    (s, t, rest, e, e', p)
