-- ===== src/Copy/Conserved.antt =====
-- apps/bidirectional_stream_copy.cc: no byte is lost, made up or moved.
use tcp_lab.Base.{
  ℕ, ◌≡◌, refl, sym, ◌∙◌, ap, Bool, true, List, [], ◌∷◌, ◌++◌, append_assoc, All, Safe, Safe-bind,
  Safe-if, Safe-weaken, Result, ok,
}
use tcp_lab.Util.FileDescriptor
use tcp_lab.Util.FileDescriptor.{
  FileDescriptor, Written, write_once, write_loop, register_write, register_read,
}
use tcp_lab.Util.EventLoop.{Rule, Poll, success, timeout, exit, Outcome}
use tcp_lab.Util.EventLoop.Keeps.{Keeps, Waited, wait_next_event-Keeps}
use tcp_lab.Util.BufferList
use tcp_lab.ByteStream
use tcp_lab.ByteStream.{ByteStream}
use tcp_lab.ByteStream.Laws.{contents}
use tcp_lab.Copy.{
  Copy, Answers, read_into, write_from, read_input, read_socket, write_socket, write_output,
  shutdown_write, cancel_outbound, cancel_inbound, input_rule, to_socket_rule, from_socket_rule,
  output_rule, rules, descriptor, run, started,
}
use tcp_lab.Copy.Moves.{read_into_lem, write_from_lem}

-- What a descriptor gave is what the other got, in order, and then what waits in between.
record Conserved (c : Copy) : Type 0 where
  outwards : c.input_gave ≡ c.socket_got ++ contents c.outbound
  inwards : c.socket_gave ≡ c.output_got ++ contents c.inbound

read_input_lem : (c : Copy) → Conserved c → Safe Conserved (read_input c)
unfolding read_input
read_input_lem c k =
    Safe-bind (λ q. contents q.1 ≡ contents c.outbound ++ q.2) Conserved
      (read_into c.answers.input_read c.input c.outbound) _
      (read_into_lem c.answers.input_read c.input c.outbound)
      (λ (f, s, bytes) e. record {
        outwards =
            ap (λ b. b ++ bytes) k.outwards
            ∙ append_assoc c.socket_got (contents c.outbound) bytes
            ∙ ap (λ b. c.socket_got ++ b) (sym e);
        inwards = k.inwards;
      })

read_socket_lem : (c : Copy) → Conserved c → Safe Conserved (read_socket c)
unfolding read_socket
read_socket_lem c k =
    Safe-bind (λ q. contents q.1 ≡ contents c.inbound ++ q.2) Conserved
      (read_into c.answers.socket_read c.socket c.inbound) _
      (read_into_lem c.answers.socket_read c.socket c.inbound)
      (λ (f, s, bytes) e. record {
        outwards = k.outwards;
        inwards =
            ap (λ b. b ++ bytes) k.inwards
            ∙ append_assoc c.output_got (contents c.inbound) bytes
            ∙ ap (λ b. c.output_got ++ b) (sym e);
      })

-- The end of the callback: what is closed is no part of the streams.
write_socket_lem : (c : Copy) → Conserved c → Safe Conserved (write_socket c)
unfolding write_socket shutdown_write
write_socket_lem c k =
    Safe-bind (λ q. q.2 ++ contents q.1 ≡ contents c.outbound) Conserved
      (write_from c.answers.socket_write c.socket c.outbound) _
      (write_from_lem c.answers.socket_write c.socket c.outbound)
      (λ (f, s, bytes) e.
        let outwards : c.input_gave ≡ (c.socket_got ++ bytes) ++ contents s =
          k.outwards
          ∙ ap (λ b. c.socket_got ++ b) (sym e)
          ∙ sym (append_assoc c.socket_got bytes (contents s)) in
        Safe-if Conserved (ByteStream.eof s) _ _
          (λ _.
            Safe-bind (λ _. Unit {0}) Conserved (shutdown_write c.answers.shutdown_fails f) _
              (Safe-if (λ _. Unit {0}) c.answers.shutdown_fails _ _ (λ _. refl) (λ _. tt))
              (λ f' _. record { outwards = outwards; inwards = k.inwards }))
          (λ _. record { outwards = outwards; inwards = k.inwards }))

write_output_lem : (c : Copy) → Conserved c → Safe Conserved (write_output c)
unfolding write_output FileDescriptor.close
write_output_lem c k =
    Safe-bind (λ q. q.2 ++ contents q.1 ≡ contents c.inbound) Conserved
      (write_from c.answers.output_write c.output c.inbound) _
      (write_from_lem c.answers.output_write c.output c.inbound)
      (λ (f, s, bytes) e.
        let inwards : c.socket_gave ≡ (c.output_got ++ bytes) ++ contents s =
          k.inwards
          ∙ ap (λ b. c.output_got ++ b) (sym e)
          ∙ sym (append_assoc c.output_got bytes (contents s)) in
        Safe-if Conserved (ByteStream.eof s) _ _
          (λ _.
            Safe-bind (λ _. Unit {0}) Conserved (FileDescriptor.close c.answers.close_fails f) _
              (Safe-if (λ _. Unit {0}) c.answers.close_fails _ _ (λ _. refl) (λ _. tt))
              (λ f' _. record { outwards = k.outwards; inwards = inwards }))
          (λ _. record { outwards = k.outwards; inwards = inwards }))

cancel_outbound_lem : (c : Copy) → Conserved c → Safe Conserved (cancel_outbound c)
unfolding cancel_outbound ByteStream.end_input
cancel_outbound_lem c k = record { outwards = k.outwards; inwards = k.inwards }

cancel_inbound_lem : (c : Copy) → Conserved c → Safe Conserved (cancel_inbound c)
unfolding cancel_inbound ByteStream.end_input
cancel_inbound_lem c k = record { outwards = k.outwards; inwards = k.inwards }

rules-Keeps : (fd : ℕ) → All (Keeps Conserved) (rules fd)
unfolding rules input_rule to_socket_rule from_socket_rule output_rule
rules-Keeps fd = (
  λ c k. (read_input_lem c k, cancel_outbound_lem c k),
  (
    λ c k. (write_socket_lem c k, cancel_outbound_lem c k),
    (
      λ c k. (read_socket_lem c k, cancel_inbound_lem c k),
      (λ c k. (write_output_lem c k, cancel_inbound_lem c k), tt),
    ),
  ),
)

-- The loop is left on Exit.
leave_lem :
    (outcome : Outcome) (c : Copy) (next : Result (Bool × Copy))
    → Conserved c
    → Safe (λ q. Conserved q.1) next
    → Safe {A = Bool × Copy} (λ q. Conserved q.1) (elim outcome [ exit ↦ ok (true, c) | o ↦ next ])
leave_lem success c next k h = h
leave_lem timeout c next k h = h
leave_lem exit c next k h = k

run_lem :
    (turns : List (Poll × Answers)) (left : List (Rule Copy)) (c : Copy)
    → All (Keeps Conserved) left
    → Conserved c
    → Safe (λ q. Conserved q.1) (run turns left c)
unfolding run
run_lem [] left c ks k = k
run_lem ((poll, answers) ∷ turns) left c ks k =
    Safe-bind (Waited descriptor Conserved) (λ q. Conserved q.1) _ _
      (wait_next_event-Keeps descriptor Conserved poll left (record c { answers = answers }) ks
        (record { outwards = k.outwards; inwards = k.inwards }))
      (λ (outcome, left', c') (ks', k').
        leave_lem outcome c' (run turns left' c') k' (run_lem turns left' c' ks' k'))

-- Whatever poll(2) and the other system calls answer in each turn, and however many turns there are,
-- the copy throws nothing but the runtime_error of a failed call, of a descriptor that takes or gives more
-- than it may, or of a busy wait. After the turns the bytes that stdin gave are those that the
-- socket got, in order, and then those that wait in the outbound stream; and the bytes that the
-- socket gave are those that stdout got, and then those that wait in the inbound stream.
pub copy_conserves :
    (input output socket : FileDescriptor) (answers : Answers) (turns : List (Poll × Answers))
    → Safe
        (λ q.
          (q.1.input_gave ≡ q.1.socket_got ++ contents q.1.outbound)
          × (q.1.socket_gave ≡ q.1.output_got ++ contents q.1.inbound))
        (run turns (rules socket.fd_num) (started input output socket answers))
unfolding started ByteStream.new BufferList.concatenate
copy_conserves input output socket answers turns =
    Safe-weaken (λ q. Conserved q.1) _ (run turns (rules socket.fd_num) _)
      (λ q k. (k.outwards, k.inwards))
      (run_lem turns (rules socket.fd_num) (started input output socket answers)
        (rules-Keeps socket.fd_num) (record { outwards = refl; inwards = refl }))
