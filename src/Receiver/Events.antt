-- ===== src/Receiver/Events.antt =====
-- Runs of a receiver (libsponge/tcp_receiver.cc): segments arrive, and a client reads the stream.
use tcp_lab.Base.{ℕ, List, [], ◌∷◌, ◌++◌, Result, ok, ◌>>=◌}
use tcp_lab.Reassembler.{EndKey}
use tcp_lab.Seqno.{WrappingInt32}
use tcp_lab.ByteStream
use tcp_lab.Wire.TcpSegment.{TcpSegment}
use tcp_lab.Sender.Chain.{Carries}
use tcp_lab.Receiver.{TcpReceiver, new, segment_received}

-- A segment arrives, or the client reads.
pub data Event : Type 0 where
  deliver : TcpSegment → Event
  get : ℕ → Event

-- What the client has read, and the receiver.
pub record Trace : Type 0 where
  pub out : List ℕ
  pub receiver : TcpReceiver

abbrev pub with_output : TcpReceiver → ByteStream.ByteStream → TcpReceiver
with_output r o = record r { reassembler = record r.reassembler { output = o } }

abbrev pub step : EndKey → Trace → Event → Result Trace
step end_key t (deliver seg) =
    segment_received end_key t.receiver seg >>= λ r. ok (record t { receiver = r })
step end_key t (get n) = do
  (bytes, o) ← ByteStream.read t.receiver.reassembler.output n
  ok (record { out = t.out ++ bytes; receiver = with_output t.receiver o })

unfoldable pub run : EndKey → Trace → List Event → Result Trace
run end_key t [] = ok t
run end_key t (x ∷ xs) = step end_key t x >>= λ u. run end_key u xs

abbrev pub started : ℕ → Trace
started capacity = record { out = []; receiver = new capacity }

-- The segment carries bytes of the stream `acc`.
abbrev pub IsSent : WrappingInt32 → List ℕ → Event → Type 0
IsSent isn acc (deliver seg) = Carries isn acc seg
IsSent isn acc (get n) = Unit {0}
