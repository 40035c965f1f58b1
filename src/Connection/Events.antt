-- ===== src/Connection/Events.antt =====
-- Runs of a connection (libsponge/tcp_connection.cc): its owner calls it, and segments arrive.
use tcp_lab.Base.{
  ℕ, ◌+◌, ◌≡◌, refl, ◌∙◌, List, [], ◌∷◌, ◌++◌, length, take, sym, append-nil, Ensures, Ensures-any,
  Ensures-bind, Result, bind-ok, ok_injective, throw, ap, ok, ◌>>=◌,
}
use tcp_lab.Reassembler.{EndKey}
use tcp_lab.Seqno.{WrappingInt32}
use tcp_lab.ByteStream
use tcp_lab.Wire.TcpSegment.{TcpSegment}
use tcp_lab.Receiver.Events.{with_output}
use tcp_lab.Connection.{
  TcpConfig, TcpConnection, new, connect, segment_received, write, tick, end_input_stream,
}
use tcp_lab.Connection.Sane.{IsOut}

-- What the owner of a connection does: its calls, a read of the inbound stream, and taking the
-- segments from the queue.
pub data Call : Type 0 where
  connect_ : Call
  put : List ℕ → Call
  finish : Call
  wait_ : ℕ → Call
  get : ℕ → Call
  collect : Call

-- The owner calls, or a segment of the peer arrives.
pub data Event : Type 0 where
  call : Call → Event
  receive : TcpSegment → Event

-- The bytes that the outbound stream accepted, those that were read, and the segments taken.
pub record Trace : Type 0 where
  pub accepted : List ℕ
  pub out : List ℕ
  pub sent : List TcpSegment
  pub connection : TcpConnection

abbrev pub with : Trace → TcpConnection → Trace
with t c = record t { connection = c }

abbrev pub made : Trace → Call → Result Trace
made t connect_ = connect t.connection >>= λ c. ok (with t c)
made t (put bytes) = do
  (c, n) ← write t.connection bytes
  ok (record (with t c) { accepted = t.accepted ++ take n bytes })
made t finish = end_input_stream t.connection >>= λ c. ok (with t c)
made t (wait_ ms) = tick t.connection ms >>= λ c. ok (with t c)
made t (get n) = do
  (bytes, o) ← ByteStream.read t.connection.receiver.reassembler.output n
  ok (record t {
    out = t.out ++ bytes;
    connection = record t.connection { receiver = with_output t.connection.receiver o };
  })
made t collect = ok (record t {
  sent = t.sent ++ t.connection.segments_out;
  connection = record t.connection { segments_out = [] };
})

abbrev pub step : EndKey → Trace → Event → Result Trace
step end_key t (call c) = made t c
step end_key t (receive seg) = segment_received end_key t.connection seg >>= λ c. ok (with t c)

unfoldable pub run : EndKey → Trace → List Event → Result Trace
run end_key t [] = ok t
run end_key t (x ∷ xs) = step end_key t x >>= λ u. run end_key u xs

abbrev pub started : TcpConfig → ℕ → Trace
started cfg random_isn = record {
  accepted = [];
  out = [];
  sent = [];
  connection = new cfg random_isn;
}

-- How many bytes are written.
abbrev pub offer : Event → ℕ
offer (call (put bytes)) = length bytes
offer (call c) = 0
offer (receive seg) = 0

abbrev pub offered : List Event → ℕ
offered [] = 0
offered (x ∷ xs) = offer x + offered xs

-- The segments that arrive carry bytes of the peer's stream, and their windows have 16 bits.
abbrev pub IsPeers : WrappingInt32 → List ℕ → Event → Type 0
IsPeers isn stream (receive seg) = IsOut isn stream seg
IsPeers isn stream (call c) = Unit {0}

-- Accepted bytes stay accepted.
abbrev pub Grows : Trace → Trace → Type 0
Grows t u = (more : List ℕ) × (u.accepted ≡ t.accepted ++ more)

plain_grows :
    (t : Trace) (r : Result TcpConnection) → Ensures (Grows t) (r >>= (λ c. ok (with t c)))
plain_grows t r =
    Ensures-bind _ (Grows t) r _ (Ensures-any r) (λ c _. ([], sym (append-nil t.accepted)))

pub step-Grows : (end_key : EndKey) (t : Trace) (x : Event) → Ensures (Grows t) (step end_key t x)
step-Grows end_key t (call connect_) = plain_grows t (connect t.connection)
step-Grows end_key t (call (put bytes)) =
    Ensures-bind _ (Grows t) (write t.connection bytes) _ (Ensures-any _)
      (λ q _. (take q.1 bytes, refl))
step-Grows end_key t (call finish) = plain_grows t (end_input_stream t.connection)
step-Grows end_key t (call (wait_ ms)) = plain_grows t (tick t.connection ms)
step-Grows end_key t (call (get n)) =
    Ensures-bind _ (Grows t) (ByteStream.read t.connection.receiver.reassembler.output n) _
      (Ensures-any _) (λ q _. ([], sym (append-nil t.accepted)))
step-Grows end_key t (call collect) = ([], sym (append-nil t.accepted))
step-Grows end_key t (receive seg) = plain_grows t (segment_received end_key t.connection seg)

-- One event more.
next_snoc :
    (end_key : EndKey) (u : Trace) (xs : List Event) (x : Event) (r : Result Trace)
    → ((v : Trace) → run end_key v xs ≡ ok u → run end_key v (xs ++ (x ∷ [])) ≡ step end_key u x)
    → (r >>= (λ v. run end_key v xs)) ≡ ok u
    → (r >>= (λ v. run end_key v (xs ++ (x ∷ [])))) ≡ step end_key u x
next_snoc end_key u xs x (throw y) h e = cc
next_snoc end_key u xs x (ok v) h e = h v e

pub run-snoc :
    (end_key : EndKey) (t u : Trace) (xs : List Event) (x : Event)
    → run end_key t xs ≡ ok u
    → run end_key t (xs ++ (x ∷ [])) ≡ step end_key u x
unfolding run
run-snoc end_key t u [] x e =
    bind-ok (step end_key t x) ∙ ap (λ v. step end_key v x) (ok_injective t u e)
run-snoc end_key t u (y ∷ ys) x e =
    next_snoc end_key u ys x (step end_key t y) (λ v. run-snoc end_key v u ys x) e
