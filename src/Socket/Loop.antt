-- ===== src/Socket/Loop.antt =====
-- libsponge/tcp_helpers/tcp_sponge_socket.cc: the event loop that drives a socket. What the kernel
-- answers in a turn is a parameter, and so is the descriptor of the adapter.
use tcp_lab.Base.{
  ℕ, Bool, true, false, not, ◌||◌, Option, none, some, List, [], ◌∷◌, ◌++◌, if◌then◌else◌, Result,
  ok, throw, runtime_error, ◌>>=◌, ◌==◌,
}
use tcp_lab.Reassembler.{EndKey}
use tcp_lab.Util.BufferViewList.{BufferViewList}
use tcp_lab.Util.FileDescriptor.{FileDescriptor}
use tcp_lab.Util.EventLoop.{in_, out, Rule, Poll, wait_next_event}
use tcp_lab.Connection
use tcp_lab.Connection.{TcpConfig, TcpConnection}
use tcp_lab.State.{State, listen, syn_rcvd, syn_sent, of_state, state, same_state}
use tcp_lab.Adapter.Lossy.{FdAdapter}
use tcp_lab.Socket.{
  SpongeSocket, receive_datagram, wants_datagram, read_outbound, wants_outbound, cancel_outbound,
  write_inbound, wants_inbound, send_segments, wants_send, loop_turn,
}

-- What the kernel answers in a turn: poll, the device, the local stream and the clock; and whether the
-- owner has asked the thread to exit.
pub record Turn (Device : Type 0) : Type 0 where
  pub poll : Poll
  pub device : Device
  pub read_stream : ℕ → Option (List ℕ)
  pub write_stream : ℕ → BufferViewList → Option ℕ
  pub shutdown : FileDescriptor → Result FileDescriptor
  pub abort : Bool
  pub next_time : ℕ

-- The socket, the turn it is in, and what the application was given.
pub record Running (A Device : Type 0) : Type 0 where
  pub socket : SpongeSocket A
  pub turn : Turn Device
  pub given : List ℕ

module _ {A Device : Type 0} (ops : FdAdapter A Device) (file_of : A → FileDescriptor)
    (end_key : EndKey) where
  abbrev W : Type 0
  W = Running A Device

  -- The local stream and the adapter's device have different numbers.
  abbrev pub descriptor : W → ℕ → FileDescriptor
  descriptor w fd =
      if fd == w.socket.thread_data.fd_num
      then w.socket.thread_data
      else file_of w.socket.datagram_adapter

  abbrev set_socket : W → Result (SpongeSocket A) → Result W
  set_socket w r = r >>= (λ s. ok (record w { socket = s }))

  -- The four rules of `_initialize_TCP`; rules 1, 3 and 4 have no cancellation.
  unfoldable pub initial_rules : SpongeSocket A → List (Rule W)
  unfolding receive_datagram wants_datagram read_outbound wants_outbound cancel_outbound
      write_inbound wants_inbound send_segments wants_send
  initial_rules s =
      record {
        fd = (file_of s.datagram_adapter).fd_num;
        direction = in_;
        callback = λ w. set_socket w (receive_datagram ops end_key w.turn.device w.socket);
        interest = λ w. wants_datagram ops w.socket;
        cancel = λ w. ok w;
      }
      ∷ record {
        fd = s.thread_data.fd_num;
        direction = in_;
        callback = λ w. set_socket w (read_outbound ops w.turn.read_stream w.socket);
        interest = λ w. wants_outbound ops w.socket;
        cancel = λ w. set_socket w (cancel_outbound ops w.socket);
      }
      ∷ record {
        fd = s.thread_data.fd_num;
        direction = out;
        callback = λ w. do
          (t, bytes) ← write_inbound ops w.turn.write_stream w.turn.shutdown w.socket
          ok (record w { socket = t; given = w.given ++ bytes });
        interest = λ w. wants_inbound ops w.socket;
        cancel = λ w. ok w;
      }
      ∷ record {
        fd = (file_of s.datagram_adapter).fd_num;
        direction = out;
        callback = λ w. set_socket w (send_segments ops w.socket);
        interest = λ w. wants_send ops w.socket;
        cancel = λ w. ok w;
      }
      ∷ []

  -- `_tcp_loop(condition)`: whether the loop was left, the rules that are left, and the state. The clock
  -- is read once before the loop.
  unfoldable pub tcp_loop :
      (SpongeSocket A → Result Bool)
      → ℕ
      → List (Turn Device)
      → List (Rule W)
      → W
      → Result (Bool × List (Rule W) × W)
  unfolding loop_turn
  tcp_loop condition base_time [] rules w = do
    goes_on ← condition w.socket
    ok (not goes_on, rules, w)
  tcp_loop condition base_time (t ∷ ts) rules w = do
    goes_on ← condition w.socket
    let turn = (do
      (outcome, rules', w') ← wait_next_event descriptor t.poll rules (record w { turn = t })
      (s, base_time', left) ← loop_turn ops outcome t.abort base_time t.next_time w'.socket
      let w'' = record w' { socket = s }
      let rest = tcp_loop condition base_time' ts rules' w''
      if left then ok (true, rules', w'') else rest)
    if goes_on then turn else ok (true, rules, w)

  unfoldable pub is_in_state : State → TcpConnection → Result Bool
  unfolding same_state of_state state
  is_in_state expected c = do s ← state c; ok (same_state s (of_state expected))

  -- A socket with a fresh connection: `_tcp.emplace(config)`.
  abbrev pub fresh : TcpConfig → ℕ → A → FileDescriptor → SpongeSocket A
  fresh cfg random_isn a thread_data = record {
    tcp = Connection.new cfg random_isn;
    datagram_adapter = a;
    thread_data = thread_data;
    inbound_shutdown = false;
    outbound_shutdown = false;
    fully_acked = false;
  }

  -- `connect(c_tcp, c_ad)` up to the start of the thread; `tcp` is `_tcp`, and `configure` sets the
  -- configuration of the adapter. `turn` comes before the first turn.
  unfoldable pub connect :
      Option TcpConnection
      → TcpConfig
      → ℕ
      → (A → A)
      → A
      → FileDescriptor
      → ℕ
      → Turn Device
      → List (Turn Device)
      → Result (Bool × List (Rule W) × W)
  unfolding initial_rules tcp_loop is_in_state
  connect (some tcp) cfg random_isn configure a thread_data base_time turn turns =
      throw runtime_error
  connect none cfg random_isn configure a thread_data base_time turn turns =
      let s = fresh cfg random_isn a thread_data in
      do
        c ← Connection.connect s.tcp
        expected ← is_in_state syn_sent c
        let w : W = record {
          socket = record s { tcp = c; datagram_adapter = configure a };
          turn = turn;
          given = [];
        }
        let runs = tcp_loop (λ t. is_in_state syn_sent t.tcp) base_time turns (initial_rules s) w
        if not expected then throw runtime_error else runs

  -- The condition of the loop of `listen_and_accept`.
  unfoldable pub is_opening : TcpConnection → Result Bool
  unfolding same_state of_state state
  is_opening c = do
    s ← state c
    ok (
        same_state s (of_state listen)
        || (same_state s (of_state syn_rcvd) || same_state s (of_state syn_sent)))

  -- `listen_and_accept(c_tcp, c_ad)` up to the start of the thread.
  unfoldable pub listen_and_accept :
      Option TcpConnection
      → TcpConfig
      → ℕ
      → (A → A)
      → A
      → FileDescriptor
      → ℕ
      → Turn Device
      → List (Turn Device)
      → Result (Bool × List (Rule W) × W)
  unfolding initial_rules tcp_loop is_opening
  listen_and_accept (some tcp) cfg random_isn configure a thread_data base_time turn turns =
      throw runtime_error
  listen_and_accept none cfg random_isn configure a thread_data base_time turn turns =
      let s = fresh cfg random_isn a thread_data in
      tcp_loop (λ t. is_opening t.tcp) base_time turns (initial_rules s)
        (record {
          socket = record s { datagram_adapter = ops.set_listening (configure a) true };
          turn = turn;
          given = [];
        })
