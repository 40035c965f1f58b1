-- ===== src/Dialogue.antt =====
-- libsponge/tcp_connection.cc: two connections, joined by a network that may lose, repeat and reorder
-- segments.
mod Histories
mod Prefix
mod Tests
use tcp_lab.Base.{ℕ, ◌+◌, none, some, List, [], ◌∷◌, Result, ok, ◌>>=◌}
use tcp_lab.Reassembler.{EndKey}
use tcp_lab.Connection.{TcpConfig}
use tcp_lab.Connection.Events.{Call, call, receive, offer, Trace, made, step}
use tcp_lab.Connection.Events
use tcp_lab.Transfer.{sent_at}

-- One side is called, or gets the segment that the other has sent at this place.
pub data Act : Type 0 where
  does : Call → Act
  gets : ℕ → Act

pub data Turn : Type 0 where
  at_left : Act → Turn
  at_right : Act → Turn

pub record Dialogue : Type 0 where
  pub left : Trace
  pub right : Trace

-- A number for which the other side sent nothing brings nothing.
abbrev pub act : EndKey → Trace → Trace → Act → Result Trace
act end_key t u (does c) = made t c
act end_key t u (gets i) = elim (sent_at u.sent i) [
  | none ↦ ok t
  | some seg ↦ step end_key t (receive seg)
]

abbrev pub take_turn : EndKey → Dialogue → Turn → Result Dialogue
take_turn end_key d (at_left a) = act end_key d.left d.right a >>= λ t. ok (record d { left = t })
take_turn end_key d (at_right a) = act end_key d.right d.left a >>= λ t. ok (record d { right = t })

unfoldable pub run : EndKey → Dialogue → List Turn → Result Dialogue
run end_key d [] = ok d
run end_key d (x ∷ xs) = take_turn end_key d x >>= λ e. run end_key e xs

abbrev pub started : TcpConfig → ℕ → TcpConfig → ℕ → Dialogue
started left random_left right random_right = record {
  left = Events.started left random_left;
  right = Events.started right random_right;
}

-- How many bytes a side writes.
abbrev pub written : Act → ℕ
written (does c) = offer (call c)
written (gets i) = 0

abbrev pub left_offer : List Turn → ℕ
left_offer [] = 0
left_offer (at_left a ∷ xs) = written a + left_offer xs
left_offer (at_right a ∷ xs) = left_offer xs

abbrev pub right_offer : List Turn → ℕ
right_offer [] = 0
right_offer (at_left a ∷ xs) = right_offer xs
right_offer (at_right a ∷ xs) = written a + right_offer xs
