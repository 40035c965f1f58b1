-- ===== src/Util/EventLoop/Tests.antt =====
-- The witness of the theorem on the event loop: poll fails on one rule that is interested.
use tcp_lab.Base.{ℕ, ◌≡◌, refl, [], ◌∷◌, true, false, ok}
use tcp_lab.Util.FileDescriptor.{FileDescriptor}
use tcp_lab.Util.EventLoop.{Rule, success, Poll, ended, wait_next_event, in_}
use tcp_lab.Util.EventLoop.Quiet.{wait_next_event_quiet}

-- The state is the number of calls.
abbrev fds : ℕ → ℕ → FileDescriptor
fds w fd = record { fd_num = fd; eof = false; closed = false; read_count = w; write_count = 0 }

abbrev reader : Rule ℕ
reader = record {
  fd = 3;
  direction = in_;
  callback = λ w. ok 1;
  interest = λ w. true;
  cancel = λ w. ok 2;
}

wait_next_event_quiet_example :
    wait_next_event fds Poll.failed (reader ∷ []) 0 ≡ ok (success, reader ∷ [], 0)
unfolding ended
wait_next_event_quiet_example = wait_next_event_quiet fds (reader ∷ []) 0 Poll.failed (refl, tt) tt
