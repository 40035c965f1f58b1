-- ===== src/Copy/Tests.antt =====
-- A copy of two bytes to a socket that takes one at a time, and of one byte from it.
use tcp_lab.Base.{ℕ, ◌≡◌, true, false, some, List, [], ◌∷◌, ◌++◌, Safe, min, length}
use tcp_lab.Util.BufferViewList.{flatten}
use tcp_lab.Util.FileDescriptor.{FileDescriptor}
use tcp_lab.Util.EventLoop.{Poll, events, interrupted}
use tcp_lab.ByteStream.Laws.{contents}
use tcp_lab.Copy.{Answers, rules, run, started}
use tcp_lab.Copy.Conserved.{copy_conserves}

abbrev file : ℕ → FileDescriptor
file fd = record { fd_num = fd; eof = false; closed = false; read_count = 0; write_count = 0 }

-- stdin has two bytes, and then ends; the socket has one.
abbrev replies : List ℕ → List ℕ → Answers
replies from_input from_socket = record {
  input_read = λ n. some from_input;
  socket_read = λ n. some from_socket;
  socket_write = λ count views. some (min 1 (length (flatten views)));
  output_write = λ count views. some (length (flatten views));
  shutdown_fails = false;
  close_fails = false;
}

abbrev ready : Poll
ready =
    events
      (λ fd d. record { poll_error = false; poll_hup = false; poll_in = true; poll_out = true })

abbrev turns : List (Poll × Answers)
turns =
    (ready, replies (65 ∷ 66 ∷ []) (70 ∷ []))
    ∷ (ready, replies [] [])
    ∷ (ready, replies [] [])
    ∷ (interrupted, replies [] [])
    ∷ []

copy_conserves_example :
    Safe
      (λ q.
        (q.1.input_gave ≡ q.1.socket_got ++ contents q.1.outbound)
        × (q.1.socket_gave ≡ q.1.output_got ++ contents q.1.inbound))
      (run turns (rules 5) (started (file 0) (file 1) (file 5) (replies [] [])))
copy_conserves_example = copy_conserves (file 0) (file 1) (file 5) (replies [] []) turns
