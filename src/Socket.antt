-- ===== src/Socket.antt =====
-- libsponge/tcp_helpers/tcp_sponge_socket.hh and tcp_sponge_socket.cc: the callbacks that join a
-- `TCPConnection` to a datagram adapter and to the application's stream, and a turn of the loop that
-- drives them. What the kernel answers is a parameter, and so are the adapter's operations. Messages
-- on cerr are not modelled, but for `_fully_acked`; nor are the thread and the sockets themselves.
pub mod Inbound
pub mod Loop
mod Tests
use tcp_lab.Base.{
  ℕ, Bool, true, false, not, ◌&&◌, ◌||◌, Option, none, some, List, [], ◌∷◌, ltb, ◌==◌,
  if◌then◌else◌, min, length, sub64, Result, ok, throw, runtime_error, ◌>>=◌,
}
use tcp_lab.Reassembler.{EndKey}
use tcp_lab.Util.BufferViewList.{BufferViewList}
use tcp_lab.Util.FileDescriptor
use tcp_lab.Util.FileDescriptor.{FileDescriptor}
use tcp_lab.Util.EventLoop.{Outcome, exit}
use tcp_lab.ByteStream
use tcp_lab.ByteStream.{ByteStream}
use tcp_lab.Wire.TcpSegment.{TcpSegment}
use tcp_lab.Receiver
use tcp_lab.Connection
use tcp_lab.Connection.{TcpConnection}
use tcp_lab.Adapter.Lossy.{FdAdapter}

-- `TCPSpongeSocket` once `_tcp` is set.
pub record SpongeSocket (A : Type 0) : Type 0 where
  pub tcp : TcpConnection
  pub datagram_adapter : A
  pub thread_data : FileDescriptor
  pub inbound_shutdown : Bool
  pub outbound_shutdown : Bool
  pub fully_acked : Bool

-- `inbound_stream()`, and the connection with another one.
abbrev pub inbound_stream : TcpConnection → ByteStream
inbound_stream c = Receiver.stream_out c.receiver

unfoldable pub with_inbound : TcpConnection → ByteStream → TcpConnection
with_inbound c stream = record c {
  receiver = record c.receiver { reassembler = record c.receiver.reassembler { output = stream } };
}

module _ {A Device : Type 0} (ops : FdAdapter A Device) where
  -- Rule 1: a datagram is ready.
  unfoldable pub receive_datagram : EndKey → Device → SpongeSocket A → Result (SpongeSocket A)
  receive_datagram end_key device s = do
    (a, seg) ← ops.read s.datagram_adapter device
    c ← elim seg [ none ↦ ok s.tcp | some g ↦ Connection.segment_received end_key s.tcp g ]
    ok (record s {
      datagram_adapter = a;
      tcp = c;
      fully_acked = s.fully_acked || (s.thread_data.eof && Connection.bytes_in_flight c == 0);
    })

  unfoldable pub wants_datagram : SpongeSocket A → Bool
  wants_datagram s = Connection.active s.tcp

  -- Rule 2: the application has written; what it wrote fits. `kernel` is what read(2) stores.
  unfoldable pub read_outbound : (ℕ → Option (List ℕ)) → SpongeSocket A → Result (SpongeSocket A)
  read_outbound kernel s = do
    (f, data_) ←
        FileDescriptor.read kernel s.thread_data (Connection.remaining_outbound_capacity s.tcp)
    (c, amount_written) ← Connection.write s.tcp data_
    let ended = (do
      c' ← Connection.end_input_stream c
      ok (record s { tcp = c'; thread_data = f; outbound_shutdown = true }))
    if not (amount_written == length data_)
        then throw runtime_error
        else if f.eof
        then ended
        else ok (record s { tcp = c; thread_data = f })

  unfoldable pub wants_outbound : SpongeSocket A → Bool
  wants_outbound s =
      Connection.active s.tcp
      && (not s.outbound_shutdown && ltb 0 (Connection.remaining_outbound_capacity s.tcp))

  unfoldable pub cancel_outbound : SpongeSocket A → Result (SpongeSocket A)
  cancel_outbound s = do
    c ← Connection.end_input_stream s.tcp
    ok (record s { tcp = c; outbound_shutdown = true })

  -- Rule 3: the application can be written to. `writev` and `shutdown` are the kernel's. The views
  -- that the kernel took are in the second component.
  unfoldable pub write_inbound :
      (ℕ → BufferViewList → Option ℕ)
      → (FileDescriptor → Result FileDescriptor)
      → SpongeSocket A
      → Result (SpongeSocket A × List ℕ)
  unfolding with_inbound
  write_inbound writev shutdown s =
      let inbound = inbound_stream s.tcp in
      let amount_to_write = min 65536 (ByteStream.buffer_size inbound) in
      let buffer = ByteStream.peek_output inbound amount_to_write in
      do
        w ← FileDescriptor.write writev s.thread_data (buffer ∷ []) false
        stream ← ByteStream.pop_output inbound w.total
        let s' = record s { tcp = with_inbound s.tcp stream; thread_data = w.file }
        let closed = (do
          f ← shutdown w.file
          ok (record s' { thread_data = f; inbound_shutdown = true }, w.taken))
        if ByteStream.eof stream || stream.error then closed else ok (s', w.taken)

  unfoldable pub wants_inbound : SpongeSocket A → Bool
  wants_inbound s =
      let inbound = inbound_stream s.tcp in
      not (ByteStream.buffer_empty inbound)
      || ((ByteStream.eof inbound || inbound.error) && not s.inbound_shutdown)

  -- Rule 4: the loop over the outbound segments.
  unfoldable pub write_segments : A → List TcpSegment → Result A
  write_segments a [] = ok a
  write_segments a (seg ∷ segs) = do (a', sent) ← ops.write a seg; write_segments a' segs

  unfoldable pub send_segments : SpongeSocket A → Result (SpongeSocket A)
  unfolding write_segments
  send_segments s = do
    a ← write_segments s.datagram_adapter s.tcp.segments_out
    ok (record s { datagram_adapter = a; tcp = record s.tcp { segments_out = [] } })

  unfoldable pub wants_send : SpongeSocket A → Bool
  wants_send s = elim s.tcp.segments_out [ [] ↦ false | x ∷ xs ↦ true ]

  -- The body of `_tcp_loop` behind `wait_next_event`, whose result and state are given, with the
  -- clock before and now: the state, the new base time, and whether the loop is left.
  unfoldable pub loop_turn :
      Outcome → Bool → ℕ → ℕ → SpongeSocket A → Result (SpongeSocket A × ℕ × Bool)
  loop_turn outcome abort base_time next_time s =
      let ms = sub64 next_time base_time in
      let ticked = (do
        c ← Connection.tick s.tcp ms
        a ← ops.tick s.datagram_adapter ms
        ok (record s { tcp = c; datagram_adapter = a }, next_time, false)) in
      let leaves : Bool = elim outcome [ exit ↦ true | o ↦ abort ] in
      if leaves
      then ok (s, base_time, true)
      else if Connection.active s.tcp
      then ticked
      else ok (s, base_time, false)
