-- ===== src/Copy.antt =====
-- apps/bidirectional_stream_copy.cc: stdin to a socket and the socket to stdout, through two byte
-- streams and the event loop; and `shutdown` of libsponge/util/socket.cc. What the kernel answers is
-- a parameter of each turn of the loop.
mod Moves
mod Conserved
mod Tests
use tcp_lab.Base.{
  ℕ, Bool, true, false, not, ◌&&◌, ◌||◌, Option, List, [], ◌∷◌, ◌++◌, ltb, ◌==◌, if◌then◌else◌, min,
  Result, ok, throw, runtime_error, ◌>>=◌,
}
use tcp_lab.Util.BufferViewList.{BufferViewList}
use tcp_lab.Util.FileDescriptor
use tcp_lab.Util.FileDescriptor.{FileDescriptor, register_write}
use tcp_lab.Util.EventLoop.{in_, out, Rule, exit, Poll, add_rule, wait_next_event}
use tcp_lab.ByteStream
use tcp_lab.ByteStream.{ByteStream}

-- What the kernel answers in a turn: each descriptor is read and written at most once.
pub record Answers : Type 0 where
  pub input_read : ℕ → Option (List ℕ)
  pub socket_read : ℕ → Option (List ℕ)
  pub socket_write : ℕ → BufferViewList → Option ℕ
  pub output_write : ℕ → BufferViewList → Option ℕ
  pub shutdown_fails : Bool
  pub close_fails : Bool

-- The variables that the callbacks share, and what the descriptors have given and got so far.
pub record Copy : Type 0 where
  pub input : FileDescriptor
  pub output : FileDescriptor
  pub socket : FileDescriptor
  pub outbound : ByteStream
  pub inbound : ByteStream
  pub outbound_shutdown : Bool
  pub inbound_shutdown : Bool
  pub answers : Answers
  pub input_gave : List ℕ
  pub socket_got : List ℕ
  pub socket_gave : List ℕ
  pub output_got : List ℕ

-- `Socket::shutdown(SHUT_WR)`
unfoldable pub shutdown_write : Bool → FileDescriptor → Result FileDescriptor
shutdown_write fails f = if fails then throw runtime_error else ok (register_write f)

-- What the callbacks of rules 1 and 3 share: the bytes that were read go into the stream.
unfoldable pub read_into :
    (ℕ → Option (List ℕ))
    → FileDescriptor
    → ByteStream
    → Result (FileDescriptor × ByteStream × List ℕ)
read_into kernel f stream = do
  (f', bytes) ← FileDescriptor.read kernel f (ByteStream.remaining_capacity stream)
  let s = (ByteStream.write stream bytes).0
  ok (f', (if f'.eof then ByteStream.end_input s else s), bytes)

-- What the callbacks of rules 2 and 4 share: what was written is popped.
unfoldable pub write_from :
    (ℕ → BufferViewList → Option ℕ)
    → FileDescriptor
    → ByteStream
    → Result (FileDescriptor × ByteStream × List ℕ)
write_from writev f stream =
    let bytes_to_write = min 65536 (ByteStream.buffer_size stream) in
    do
      w ← FileDescriptor.write writev f (ByteStream.peek_output stream bytes_to_write ∷ []) false
      s ← ByteStream.pop_output stream w.total
      ok (w.file, s, w.taken)

-- Rule 1.
unfoldable pub read_input : Copy → Result Copy
unfolding read_into
read_input c = do
  (f, s, bytes) ← read_into c.answers.input_read c.input c.outbound
  ok (record c { input = f; outbound = s; input_gave = c.input_gave ++ bytes })

-- The interest of rules 1 and 3 in the stream that is filled, beside the other one.
unfoldable pub wants_bytes : ByteStream → ByteStream → Bool
wants_bytes stream other =
    not stream.error && (ltb 0 (ByteStream.remaining_capacity stream) && not other.error)

unfoldable pub cancel_outbound : Copy → Result Copy
cancel_outbound c = ok (record c { outbound = ByteStream.end_input c.outbound })

unfoldable pub cancel_inbound : Copy → Result Copy
cancel_inbound c = ok (record c { inbound = ByteStream.end_input c.inbound })

-- Rule 2.
unfoldable pub write_socket : Copy → Result Copy
unfolding write_from shutdown_write
write_socket c = do
  (f, s, bytes) ← write_from c.answers.socket_write c.socket c.outbound
  let c' = record c { socket = f; outbound = s; socket_got = c.socket_got ++ bytes }
  let closed = (do
    f' ← shutdown_write c.answers.shutdown_fails f
    ok (record c' { socket = f'; outbound_shutdown = true }))
  if ByteStream.eof s then closed else ok c'

-- The interest of rules 2 and 4.
unfoldable pub wants_out : ByteStream → Bool → Bool
wants_out stream shut = not (ByteStream.buffer_empty stream) || (ByteStream.eof stream && not shut)

-- Rule 3.
unfoldable pub read_socket : Copy → Result Copy
unfolding read_into
read_socket c = do
  (f, s, bytes) ← read_into c.answers.socket_read c.socket c.inbound
  ok (record c { socket = f; inbound = s; socket_gave = c.socket_gave ++ bytes })

-- Rule 4.
unfoldable pub write_output : Copy → Result Copy
unfolding write_from
write_output c = do
  (f, s, bytes) ← write_from c.answers.output_write c.output c.inbound
  let c' = record c { output = f; inbound = s; output_got = c.output_got ++ bytes }
  let closed = (do
    f' ← FileDescriptor.close c.answers.close_fails f
    ok (record c' { output = f'; inbound_shutdown = true }))
  if ByteStream.eof s then closed else ok c'

-- stdin is number 0, and stdout number 1.
abbrev pub descriptor : Copy → ℕ → FileDescriptor
descriptor c fd = if fd == 0 then c.input else if fd == 1 then c.output else c.socket

unfoldable pub input_rule : Rule Copy
unfolding read_input wants_bytes cancel_outbound
input_rule = record {
  fd = 0;
  direction = in_;
  callback = read_input;
  interest = λ c. wants_bytes c.outbound c.inbound;
  cancel = cancel_outbound;
}

unfoldable pub to_socket_rule : ℕ → Rule Copy
unfolding write_socket wants_out cancel_outbound
to_socket_rule fd = record {
  fd = fd;
  direction = out;
  callback = write_socket;
  interest = λ c. wants_out c.outbound c.outbound_shutdown;
  cancel = cancel_outbound;
}

unfoldable pub from_socket_rule : ℕ → Rule Copy
unfolding read_socket wants_bytes cancel_inbound
from_socket_rule fd = record {
  fd = fd;
  direction = in_;
  callback = read_socket;
  interest = λ c. wants_bytes c.inbound c.outbound;
  cancel = cancel_inbound;
}

unfoldable pub output_rule : Rule Copy
unfolding write_output wants_out cancel_inbound
output_rule = record {
  fd = 1;
  direction = out;
  callback = write_output;
  interest = λ c. wants_out c.inbound c.inbound_shutdown;
  cancel = cancel_inbound;
}

unfoldable pub rules : ℕ → List (Rule Copy)
unfolding input_rule to_socket_rule from_socket_rule output_rule
rules fd = input_rule ∷ to_socket_rule fd ∷ from_socket_rule fd ∷ output_rule ∷ []

-- The loop, with what poll and the other calls answer in each turn: whether it was left, and the state.
unfoldable pub run : List (Poll × Answers) → List (Rule Copy) → Copy → Result (Bool × Copy)
run [] left c = ok (false, c)
run ((poll, answers) ∷ turns) left c = do
  (outcome, left', c') ← wait_next_event descriptor poll left (record c { answers = answers })
  let next = run turns left' c'
  elim outcome [ exit ↦ ok (true, c') | o ↦ next ]

-- Both streams hold 1048576 bytes.
unfoldable pub started : FileDescriptor → FileDescriptor → FileDescriptor → Answers → Copy
started input output socket answers = record {
  input = input;
  output = output;
  socket = socket;
  outbound = ByteStream.new 1048576;
  inbound = ByteStream.new 1048576;
  outbound_shutdown = false;
  inbound_shutdown = false;
  answers = answers;
  input_gave = [];
  socket_got = [];
  socket_gave = [];
  output_got = [];
}
