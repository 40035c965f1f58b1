-- ===== src/Sender.antt =====
-- libsponge/tcp_sender.hh and tcp_sender.cc.
-- `_syn_acked` is never read or written. Milliseconds are `unsigned int` (`timeout`, 32 bits) and
-- `size_t` (`last_time`, 64 bits).
pub mod Chain
pub mod Sound
pub mod Filled
pub mod OneTurn
pub mod Fill
pub mod Ack
pub mod Steps
pub mod Writes
pub mod Runs
pub mod Timer
pub mod Payloads
mod Tests
use tcp_lab.Base.{
  ℕ, zero, suc, ◌+◌, ◌*◌, ◌%◌, ◌^◌, Bool, true, false, not, ◌&&◌, ◌||◌, Option, none, some, List,
  [], ◌∷◌, ◌++◌, ltb, leb, ◌==◌, if◌then◌else◌, add32, add64, sub64, Result, ok, throw, out_of_fuel,
  ◌>>=◌,
}
use tcp_lab.Seqno.{WrappingInt32, minus, wrap, unwrap}
use tcp_lab.Util.Buffer
use tcp_lab.ByteStream
use tcp_lab.ByteStream.{ByteStream}
use tcp_lab.Wire.TcpHeader
use tcp_lab.Wire.TcpHeader.{TcpHeader}
use tcp_lab.Wire.TcpSegment
use tcp_lab.Wire.TcpSegment.{TcpSegment, length_in_sequence_space}

-- `TCPConfig::MAX_PAYLOAD_SIZE`
abbrev pub max_payload_size : ℕ
max_payload_size = 1000

-- `_sent_t`
pub record Sent : Type 0 where
  pub expected_ack : ℕ
  pub seg : TcpSegment

pub record TcpSender : Type 0 where
  pub isn : WrappingInt32
  pub segments_out : List TcpSegment
  pub initial_retransmission_timeout : ℕ
  pub timeout : ℕ
  pub stream : ByteStream
  pub next_abs_seqno : ℕ
  pub last_acked_abs_seqno : ℕ
  pub sent : List Sent
  pub resend_try_times : ℕ
  pub last_time : ℕ
  pub syned : Bool
  pub fined : Bool
  pub window_size : ℕ

-- `random_isn` is what `random_device` yields.
unfoldable pub new : ℕ → ℕ → Option WrappingInt32 → ℕ → TcpSender
new capacity retx_timeout fixed_isn random_isn = record {
  isn = elim fixed_isn [ none ↦ random_isn | some isn ↦ isn ];
  segments_out = [];
  initial_retransmission_timeout = retx_timeout;
  timeout = retx_timeout;
  stream = ByteStream.new capacity;
  next_abs_seqno = 0;
  last_acked_abs_seqno = 0;
  sent = [];
  resend_try_times = 0;
  last_time = 0;
  syned = false;
  fined = false;
  window_size = 1;
}

unfoldable pub bytes_in_flight : TcpSender → ℕ
bytes_in_flight s = sub64 s.next_abs_seqno s.last_acked_abs_seqno

-- `full_fined()`
unfoldable pub full_fined : TcpSender → Bool
full_fined s = s.fined && s.next_abs_seqno == s.last_acked_abs_seqno

-- `consecutive_retransmissions()`
abbrev pub consecutive_retransmissions : TcpSender → ℕ
consecutive_retransmissions s = s.resend_try_times

-- `next_seqno()`
abbrev pub next_seqno : TcpSender → WrappingInt32
next_seqno s = wrap s.next_abs_seqno s.isn

-- What a turn of the loop leaves, and whether the loop is left by `break`.
pub record Turn : Type 0 where
  pub sender : TcpSender
  pub stop : Bool

-- The numbers that a turn of the loop computes before it reads from the stream.
abbrev pub allowed : TcpSender → ℕ → ℕ
allowed s ex =
    let allow_size = add64 (sub64 s.window_size (bytes_in_flight s)) ex in
    if not s.syned then sub64 allow_size 1 else allow_size

abbrev pub read_size : TcpSender → ℕ → ℕ
read_size s ex = if ltb (allowed s ex) max_payload_size then allowed s ex else max_payload_size

-- `not _fined && allow_size > 0`, and that the stream is at its end.
unfoldable pub sends_fin : TcpSender → ByteStream → ℕ → Bool
sends_fin s stream allow_size =
    (not s.fined && ltb 0 allow_size)
    && (ByteStream.input_ended stream && ByteStream.buffer_empty stream)

-- The segment of a turn, with the bytes read. `ex` was set to 0 before its test.
unfoldable pub segment_of : TcpSender → List ℕ → Bool → TcpSegment
segment_of s bytes fin =
    let ex : ℕ = 0 in
    record {
      header = record TcpHeader.default {
        seqno =
            if ex == 0 then wrap s.next_abs_seqno s.isn else minus (wrap s.next_abs_seqno s.isn) 1;
        syn = not s.syned;
        fin = fin;
      };
      payload = Buffer.of_string bytes;
    }

-- The end of a turn: nothing to send, or push the segment and keep it.
unfoldable pub emit : TcpSender → ByteStream → List ℕ → Bool → Turn
unfolding segment_of
emit s stream bytes fin =
    let seg = segment_of s bytes fin in
    let n = length_in_sequence_space seg in
    let s' = record s { stream = stream; syned = true; fined = s.fined || fin } in
    let next = add64 s.next_abs_seqno n in
    if n == 0 then record { sender = s'; stop = true } else record {
      sender = record s' {
        segments_out = s.segments_out ++ (seg ∷ []);
        next_abs_seqno = next;
        sent = s.sent ++ (record { expected_ack = next; seg = seg } ∷ []);
      };
      stop = false;
    }

-- The body of the loop behind `if (_fined) break`.
unfoldable pub turn : TcpSender → ℕ → Result Turn
unfolding sends_fin emit
turn s ex = do
  (bytes, stream) ← ByteStream.read s.stream (read_size s ex)
  let allow_size = sub64 (allowed s ex) (Buffer.size (Buffer.of_string bytes))
  ok (emit s stream bytes (sends_fin s stream allow_size))

-- The loop, on fuel. Its guard is tested first; `ex` is 0 from the second turn on.
unfoldable pub fill_loop : ℕ → TcpSender → ℕ → Result TcpSender
unfolding turn
fill_loop zero s ex = throw out_of_fuel
fill_loop (suc fuel) s ex =
    let rest = turn s ex >>= (λ t. if t.stop then ok t.sender else fill_loop fuel t.sender 0) in
    if ltb (bytes_in_flight s) (s.window_size + ex) then if s.fined then ok s else rest else ok s

-- Each turn that does not leave the loop puts at least one number in flight, so that there are at
-- most `window_size + 1` of them.
unfoldable pub fill_window : TcpSender → Result TcpSender
unfolding fill_loop
fill_window s = fill_loop (s.window_size + 2) s (if s.window_size == 0 then 1 else 0)

-- The loop that discards the segments which are acknowledged in full. The step of its iterator,
-- whose element was just removed, is taken to lead to the next one; C++ leaves it undefined.
unfoldable pub drop_acked : ℕ → List Sent → List Sent
drop_acked acked [] = []
drop_acked acked (x ∷ xs) =
    let rest = drop_acked acked xs in if leb x.expected_ack acked then rest else x ∷ xs

-- `ack_received` from the assignment of `_last_acked_abs_seqno` on, for the kept segments.
unfoldable pub advance : TcpSender → ℕ → List Sent → TcpSender
unfolding drop_acked
advance s tmp [] = record s { last_acked_abs_seqno = tmp }
advance s tmp (x ∷ xs) = record s {
  last_acked_abs_seqno = tmp;
  timeout = s.initial_retransmission_timeout;
  last_time = 0;
  resend_try_times = 0;
  sent = drop_acked tmp (x ∷ xs);
}

unfoldable pub ack_received : TcpSender → WrappingInt32 → ℕ → TcpSender
unfolding advance
ack_received s ackno window_size =
    let s' = record s { window_size = window_size } in
    let tmp = unwrap ackno s.isn s.last_acked_abs_seqno in
    if leb tmp s.last_acked_abs_seqno || ltb s.next_abs_seqno tmp then s' else advance s' tmp s.sent

-- `tick` once `_last_time` has grown to `time`, for the kept segments.
unfoldable pub retransmit : TcpSender → ℕ → List Sent → TcpSender
retransmit s time [] = record s { last_time = 0 }
retransmit s time (x ∷ xs) =
    if leb s.timeout time
    then record s {
      segments_out = s.segments_out ++ (x.seg ∷ []);
      last_time = 0;
      timeout = if not (s.window_size == 0) then 2 * s.timeout % 2 ^ 32 else s.timeout;
      resend_try_times =
          if not (s.window_size == 0) then add32 s.resend_try_times 1 else s.resend_try_times;
    }
    else record s { last_time = time }

unfoldable pub tick : TcpSender → ℕ → TcpSender
unfolding retransmit
tick s ms = retransmit s (add64 s.last_time ms) s.sent

unfoldable pub send_empty_segment : TcpSender → TcpSender
send_empty_segment s =
    let seg = record TcpSegment.default {
      header = record TcpHeader.default { seqno = wrap s.next_abs_seqno s.isn };
    } in
    record s { segments_out = s.segments_out ++ (seg ∷ []) }
