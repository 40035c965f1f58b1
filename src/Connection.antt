-- ===== src/Connection.antt =====
-- libsponge/tcp_connection.hh and tcp_connection.cc.
-- Of `_cfg` only `rt_timeout` is read after the construction. The streams' references become
-- fields of the sender and the receiver.
pub mod Reset
pub mod Abort
pub mod Sane
pub mod Failed
pub mod Judge
pub mod Calls
pub mod Events
pub mod Runs
mod Tests
use tcp_lab.Base.{
  ℕ, ◌*◌, Bool, true, false, not, ◌&&◌, ◌||◌, Option, none, some, List, [], ◌∷◌, ◌++◌, ltb, leb,
  ◌==◌, if◌then◌else◌, add64, uint16_max, Result, ok, ◌>>=◌,
}
use tcp_lab.Reassembler.{EndKey}
use tcp_lab.Seqno.{WrappingInt32, minus}
use tcp_lab.ByteStream
use tcp_lab.ByteStream.{ByteStream}
use tcp_lab.Wire.TcpSegment.{TcpSegment, length_in_sequence_space}
use tcp_lab.Receiver
use tcp_lab.Receiver.{TcpReceiver}
use tcp_lab.Sender
use tcp_lab.Sender.{TcpSender}

-- `TCPConfig::MAX_RETX_ATTEMPTS`
abbrev pub max_retx_attempts : ℕ
max_retx_attempts = 8

pub record TcpConfig : Type 0 where
  pub rt_timeout : ℕ
  pub recv_capacity : ℕ
  pub send_capacity : ℕ
  pub fixed_isn : Option WrappingInt32

pub record TcpConnection : Type 0 where
  pub rt_timeout : ℕ
  pub receiver : TcpReceiver
  pub sender : TcpSender
  pub segments_out : List TcpSegment
  pub linger_after_streams_finish : Bool
  pub is_active : Bool
  pub rst : Bool
  pub last_seg_timer : ℕ

unfoldable pub new : TcpConfig → ℕ → TcpConnection
new cfg random_isn = record {
  rt_timeout = cfg.rt_timeout;
  receiver = Receiver.new cfg.recv_capacity;
  sender = Sender.new cfg.send_capacity cfg.rt_timeout cfg.fixed_isn random_isn;
  segments_out = [];
  linger_after_streams_finish = true;
  is_active = true;
  rst = false;
  last_seg_timer = 0;
}

abbrev pub remaining_outbound_capacity : TcpConnection → ℕ
remaining_outbound_capacity c = ByteStream.remaining_capacity c.sender.stream

abbrev pub bytes_in_flight : TcpConnection → ℕ
bytes_in_flight c = Sender.bytes_in_flight c.sender

abbrev pub unassembled_bytes : TcpConnection → ℕ
unassembled_bytes c = Receiver.unassembled_bytes c.receiver

abbrev pub time_since_last_segment_received : TcpConnection → ℕ
time_since_last_segment_received c = c.last_seg_timer

abbrev pub active : TcpConnection → Bool
active c = c.is_active

-- The header of a segment on its way out.
unfoldable pub stamp : Bool → Option WrappingInt32 → ℕ → TcpSegment → TcpSegment
stamp true ackno window seg = record seg { header = record seg.header { rst = true } }
stamp false none window seg = record seg {
  header = record seg.header { win = if leb window uint16_max then window else uint16_max };
}
stamp false (some a) window seg = record seg {
  header = record seg.header {
    ack = true;
    ackno = a;
    win = if leb window uint16_max then window else uint16_max;
  };
}

-- The loop over the sender's queue. `ackno()` is not called where `_rst` is set.
unfoldable pub stamp_all : Bool → TcpReceiver → List TcpSegment → Result (List TcpSegment)
unfolding stamp
stamp_all rst r [] = ok []
stamp_all rst r (seg ∷ segs) = do
  a ← if rst then ok none else Receiver.ackno r
  rest ← stamp_all rst r segs
  ok (stamp rst a (Receiver.window_size r) seg ∷ rest)

unfoldable pub pull_push_segments : TcpConnection → Result TcpConnection
unfolding stamp_all
pull_push_segments c = do
  segs ← stamp_all c.rst c.receiver c.sender.segments_out
  ok (record c {
    sender = record c.sender { segments_out = [] };
    segments_out = c.segments_out ++ segs;
  })

-- `_receiver.stream_out().set_error()` and `_sender.stream_in().set_error()`
unfoldable pub set_errors : TcpConnection → TcpConnection
set_errors c = record c {
  receiver = record c.receiver {
    reassembler = record c.receiver.reassembler {
      output = ByteStream.set_error c.receiver.reassembler.output;
    };
  };
  sender = record c.sender { stream = ByteStream.set_error c.sender.stream };
}

-- The parameter is 0 for a normal end, 1 for a reset by the peer, and more for one of our own.
unfoldable pub prepare_death : TcpConnection → ℕ → Result TcpConnection
unfolding set_errors
prepare_death c error_type =
    let empty_segment : Bool = elim c.sender.segments_out [ [] ↦ true | x ∷ xs ↦ false ] in
    let sender' =
      if ltb 1 error_type && empty_segment then Sender.send_empty_segment c.sender else c.sender in
    if error_type == 0
    then (Sender.fill_window c.sender >>= (λ s. ok (record c { sender = s })))
    else ok (set_errors (record c { rst = true; sender = sender' }))

unfoldable pub fully_dead : TcpConnection → ℕ → Result TcpConnection
unfolding prepare_death pull_push_segments
fully_dead c error_type = do
  c' ← prepare_death c error_type
  c'' ← pull_push_segments c'
  ok (record c'' { is_active = false })

-- The two ways of a normal end: the first to end has lingered, or was not the first.
unfoldable pub lingered : TcpConnection → Bool
lingered c =
    c.linger_after_streams_finish
    && (Sender.full_fined c.sender
        && (Receiver.full_fined c.receiver && leb (10 * c.rt_timeout) c.last_seg_timer))

unfoldable pub passive_end : TcpConnection → Bool
passive_end c = not c.linger_after_streams_finish && Sender.full_fined c.sender

unfoldable pub judge_do : TcpConnection → Result TcpConnection
unfolding fully_dead lingered passive_end pull_push_segments
judge_do c =
    if not c.is_active
    then ok c
    else if c.rst
    then fully_dead c 1
    else if ltb max_retx_attempts (Sender.consecutive_retransmissions c.sender)
    then fully_dead c 2
    else if lingered c
    then fully_dead (record c { linger_after_streams_finish = false }) 0
    else if passive_end c
    then fully_dead c 0
    else pull_push_segments c

-- `_sender.fill_window()` and `judge_do()`
unfoldable pub connect : TcpConnection → Result TcpConnection
unfolding judge_do
connect c = do s ← Sender.fill_window c.sender; judge_do (record c { sender = s })

-- `if (_sender.syned()) _sender.fill_window()`
unfoldable pub fill_if_syned : TcpSender → Result TcpSender
fill_if_syned s = if s.syned then Sender.fill_window s else ok s

-- Whether an empty segment answers `seg`: the two tests that set `send_empty`.
unfoldable pub send_empty : TcpConnection → TcpSegment → Option WrappingInt32 → Bool
send_empty c seg ackno =
    let none_out : Bool = elim c.sender.segments_out [ [] ↦ true | x ∷ xs ↦ false ] in
    let empty = length_in_sequence_space seg == 0 in
    (none_out && not empty)
    || (empty && elim ackno [ none ↦ false | some a ↦ seg.header.seqno == minus a 1 ])

-- What follows the sender's part of `segment_received`. `ackno()` is called only for a segment
-- that is empty.
unfoldable pub answer : TcpConnection → TcpSegment → Result TcpConnection
unfolding send_empty judge_do
answer c seg =
    let linger =
      if Receiver.full_fined c.receiver && not c.sender.fined
      then false
      else c.linger_after_streams_finish in
    do
      ackno ← if length_in_sequence_space seg == 0 then Receiver.ackno c.receiver else ok none
      let sender' = if send_empty c seg ackno then Sender.send_empty_segment c.sender else c.sender
      judge_do (record c { sender = sender'; linger_after_streams_finish = linger })

-- `segment_received` from the call of the receiver on: a peer that connects is answered with a
-- SYN; else the sender takes the acknowledgment and fills its window.
unfoldable pub respond : TcpConnection → TcpSegment → Result TcpConnection
unfolding connect fill_if_syned answer
respond c seg =
    let h = seg.header in
    let sender' = if h.ack then Sender.ack_received c.sender h.ackno h.win else c.sender in
    if h.syn && not c.sender.syned
    then connect c
    else (fill_if_syned sender' >>= (λ s. answer (record c { sender = s }) seg))

unfoldable pub segment_received : EndKey → TcpConnection → TcpSegment → Result TcpConnection
unfolding judge_do respond
segment_received end_key c seg =
    let c0 = record c { last_seg_timer = 0 } in
    if seg.header.rst then judge_do (record c0 { rst = true }) else do
      receiver' ← Receiver.segment_received end_key c.receiver seg
      respond (record c0 { receiver = receiver' }) seg

-- The connection, and the number of bytes written.
unfoldable pub write : TcpConnection → List ℕ → Result (TcpConnection × ℕ)
unfolding fill_if_syned judge_do
write c bytes =
    let w = ByteStream.write c.sender.stream bytes in
    do
      s ← fill_if_syned (record c.sender { stream = w.0 })
      c' ← judge_do (record c { sender = s })
      ok (c', w.1)

unfoldable pub tick : TcpConnection → ℕ → Result TcpConnection
unfolding fill_if_syned judge_do
tick c ms = do
  s ← fill_if_syned (Sender.tick c.sender ms)
  judge_do (record c { last_seg_timer = add64 c.last_seg_timer ms; sender = s })

unfoldable pub end_input_stream : TcpConnection → Result TcpConnection
unfolding judge_do
end_input_stream c = do
  s ← Sender.fill_window (record c.sender { stream = ByteStream.end_input c.sender.stream })
  judge_do (record c { sender = s })

-- The destructor, up to its warning.
unfoldable pub destroy : TcpConnection → Result TcpConnection
unfolding fully_dead
destroy c = if c.is_active then fully_dead c 2 else ok c
