-- ===== src/State.antt =====
-- libsponge/tcp_helpers/tcp_state.hh and tcp_state.cc. The summaries are strings in the source,
-- one for each constructor below.
pub mod Opening
mod Tests
use tcp_lab.Base.{
  ℕ, Bool, true, false, not, ◌&&◌, none, some, ltb, ◌==◌, if◌then◌else◌, add64, Result, ok, ◌>>=◌,
}
use tcp_lab.ByteStream
use tcp_lab.Receiver
use tcp_lab.Receiver.{TcpReceiver}
use tcp_lab.Sender
use tcp_lab.Sender.{TcpSender}
use tcp_lab.Connection.{TcpConnection}

-- `TCPReceiverStateSummary`
pub data ReceiverSummary : Type 0 where
  receiver_error receiver_listen syn_recv fin_recv : ReceiverSummary

-- `TCPSenderStateSummary`
pub data SenderSummary : Type 0 where
  sender_error sender_closed sender_syn_sent syn_acked fin_sent fin_acked : SenderSummary

pub record TcpState : Type 0 where
  pub sender : SenderSummary
  pub receiver : ReceiverSummary
  pub active : Bool
  pub linger_after_streams_finish : Bool

-- `TCPState::State`
pub data State : Type 0 where
  listen syn_rcvd syn_sent established close_wait last_ack : State
  fin_wait_1 fin_wait_2 closing time_wait closed reset : State

abbrev summary : SenderSummary → ReceiverSummary → Bool → Bool → TcpState
summary s r a l = record { sender = s; receiver = r; active = a; linger_after_streams_finish = l }

-- `TCPState(const TCPState::State state)`
unfoldable pub of_state : State → TcpState
of_state listen = summary sender_closed receiver_listen true true
of_state syn_rcvd = summary sender_syn_sent syn_recv true true
of_state syn_sent = summary sender_syn_sent receiver_listen true true
of_state established = summary syn_acked syn_recv true true
of_state close_wait = summary syn_acked fin_recv true false
of_state last_ack = summary fin_sent fin_recv true false
of_state closing = summary fin_sent fin_recv true true
of_state fin_wait_1 = summary fin_sent syn_recv true true
of_state fin_wait_2 = summary fin_acked syn_recv true true
of_state time_wait = summary fin_acked fin_recv true true
of_state reset = summary sender_error receiver_error false false
of_state closed = summary fin_acked fin_recv false false

-- `state_summary(const TCPReceiver &)`
unfoldable pub receiver_summary : TcpReceiver → Result ReceiverSummary
receiver_summary r =
    let out = Receiver.stream_out r in
    if out.error then ok receiver_error else do
      a ← Receiver.ackno r
      elim a [
        | none ↦ ok receiver_listen
        | some x ↦ ok (if ByteStream.input_ended out then fin_recv else syn_recv)
      ]

-- `state_summary(const TCPSender &)`
unfoldable pub sender_summary : TcpSender → SenderSummary
sender_summary s =
    if s.stream.error
    then sender_error
    else if s.next_abs_seqno == 0
    then sender_closed
    else if s.next_abs_seqno == Sender.bytes_in_flight s
    then sender_syn_sent
    else if not (ByteStream.eof s.stream)
    then syn_acked
    else if ltb s.next_abs_seqno (add64 (ByteStream.bytes_written s.stream) 2)
    then syn_acked
    else if not (Sender.bytes_in_flight s == 0)
    then fin_sent
    else fin_acked

-- `TCPState(sender, receiver, active, linger)`
unfoldable pub of_parts : TcpSender → TcpReceiver → Bool → Bool → Result TcpState
unfolding receiver_summary sender_summary
of_parts s r active linger = do
  receiver ← receiver_summary r
  ok (summary (sender_summary s) receiver active (if active then linger else false))

-- `TCPConnection::state()`
unfoldable pub state : TcpConnection → Result TcpState
unfolding of_parts
state c = of_parts c.sender c.receiver c.is_active c.linger_after_streams_finish

-- The summaries are different strings.
abbrev sender_index : SenderSummary → ℕ
sender_index sender_error = 0
sender_index sender_closed = 1
sender_index sender_syn_sent = 2
sender_index syn_acked = 3
sender_index fin_sent = 4
sender_index fin_acked = 5

abbrev receiver_index : ReceiverSummary → ℕ
receiver_index receiver_error = 0
receiver_index receiver_listen = 1
receiver_index syn_recv = 2
receiver_index fin_recv = 3

abbrev same_bool : Bool → Bool → Bool
same_bool true b = b
same_bool false b = not b

-- `TCPState::operator==`
unfoldable pub same_state : TcpState → TcpState → Bool
same_state s t =
    same_bool s.active t.active
    && (same_bool s.linger_after_streams_finish t.linger_after_streams_finish
        && (sender_index s.sender == sender_index t.sender
            && receiver_index s.receiver == receiver_index t.receiver))
