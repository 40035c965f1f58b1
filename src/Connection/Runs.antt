-- ===== src/Connection/Runs.antt =====
-- Whole lives of a connection (libsponge/tcp_connection.cc), whose peer is sound.
use tcp_lab.Base.{
  ℕ, ◌+◌, ◌^◌, ◌≤◌, ◌<◌, ◌≡◌, refl, List, [], ◌∷◌, ◌++◌, All, arith, length, length-append,
  length-take, take, subst, Result, Total, Total-bind, ok, ◌>>=◌, IsU64,
}
use tcp_lab.Reassembler.{EndKey}
use tcp_lab.Reassembler.Behind.{Misses}
use tcp_lab.Seqno.{WrappingInt32}
use tcp_lab.ByteStream
use tcp_lab.ByteStream.Laws.{contents}
use tcp_lab.Sender.Runs.{started-Good}
use tcp_lab.Receiver
use tcp_lab.Receiver.Runs.{started-Following, Following-prefix}
use tcp_lab.Sender
use tcp_lab.Connection.{
  TcpConfig, TcpConnection, new, connect, segment_received, write, tick, end_input_stream,
}
use tcp_lab.Connection.Sane.{IsOut, Peer, Follows, Sane}
use tcp_lab.Connection.Judge.{Ok, All-append}
use tcp_lab.Connection.Calls.{
  out_grow, connect-Ok, tick-Ok, end_input-Ok, segment_received-Ok, write_ok, get_ok,
}
use tcp_lab.Connection.Events.{
  Call, connect_, put, finish, wait_, get, collect, Event, call, receive, Trace, with, made, step,
  run, started, offer, offered, IsPeers,
}

-- What holds of a connection after any events, if its peer is sound: its own segments carry what
-- it accepted, and its receiver puts the peer's stream together.
module _ (p : Peer) (mine : WrappingInt32) where
  pub record Living (t : Trace) : Type 0 where
    pub sane : Sane p mine t.accepted t.out t.connection
    pub taken : All (IsOut mine t.accepted) t.sent

  abbrev Next : Trace → ℕ → Trace → Type 0
  Next t n u = Living u × (length u.accepted ≤ length t.accepted + n)

  -- A call that neither accepts bytes nor reads.
  plain :
      (t : Trace) (r : Result TcpConnection)
      → Living t
      → Ok p mine t.accepted t.out r
      → Total (Next t 0) (r >>= (λ c. ok (with t c)))
  plain t r k o =
      Total-bind (Sane p mine t.accepted t.out) (Next t 0) r _ o
        (λ c s. (with t c, refl, (record { sane = s; taken = k.taken }, omega arith)))

  made_lem :
      (t : Trace) (c : Call)
      → Living t
      → IsU64 (length t.accepted + offer (call c) + 2)
      → Total (Next t (offer (call c))) (made t c)
  made_lem t connect_ k fits =
      plain t (connect t.connection) k (connect-Ok p mine t.accepted t.out t.connection k.sane)
  made_lem t (put bytes) k fits =
      Total-bind (λ q. Sane p mine (t.accepted ++ take q.1 bytes) t.out q.0) (Next t (length bytes))
        (write t.connection bytes) _
        (write_ok p mine t.accepted t.out t.connection bytes k.sane fits)
        (λ q o. (
          _,
          refl,
          (
            record { sane = o; taken = out_grow mine t.accepted (take q.1 bytes) t.sent k.taken },
            omega (arith, length-append t.accepted (take q.1 bytes), length-take q.1 bytes),
          ),
        ))
  made_lem t finish k fits =
      plain t (end_input_stream t.connection) k
        (end_input-Ok p mine t.accepted t.out t.connection k.sane)
  made_lem t (wait_ ms) k fits =
      plain t (tick t.connection ms) k (tick-Ok p mine t.accepted t.out t.connection k.sane ms)
  made_lem t (get n) k fits =
      Total-bind _ (Next t 0) (ByteStream.read t.connection.receiver.reassembler.output n) _
        (get_ok p mine t.accepted t.out t.connection n k.sane)
        (λ q o. (_, refl, (record { sane = o; taken = k.taken }, omega arith)))
  made_lem t collect k fits = (
    _,
    refl,
    (
      record {
        sane = record {
          sender_ok = k.sane.sender_ok;
          receiver_ok = k.sane.receiver_ok;
          queued = tt;
        };
        taken =
            All-append (IsOut mine t.accepted) t.sent t.connection.segments_out k.taken
              k.sane.queued;
      },
      omega arith,
    ),
  )

  step_lem :
      (t : Trace) (x : Event)
      → Living t
      → IsU64 (length t.accepted + offer x + 2)
      → IsPeers p.isn p.stream x
      → Total (Next t (offer x)) (step p.end_key t x)
  step_lem t (call c) k fits s = made_lem t c k fits
  step_lem t (receive seg) k fits s =
      plain t (segment_received p.end_key t.connection seg) k
        (segment_received-Ok p mine t.accepted t.out t.connection seg k.sane s)

  run_lem :
      (t : Trace) (xs : List Event)
      → Living t
      → IsU64 (length t.accepted + offered xs + 2)
      → All (IsPeers p.isn p.stream) xs
      → Total (Next t (offered xs)) (run p.end_key t xs)
  unfolding run
  run_lem t [] k fits a = (t, refl, (k, omega arith))
  run_lem t (x ∷ xs) k fits (s, a) =
      Total-bind (Next t (offer x)) (Next t (offer x + offered xs)) (step p.end_key t x) _
        (step_lem t x k (omega arith) s)
        (λ u (k', le).
          let (v, e, (k'', le')) = run_lem u xs k' (omega arith) a in (v, e, (k'', omega arith)))

started-Living :
    (cfg : TcpConfig) (random_isn : ℕ) (p : Peer)
    → p.capacity ≡ cfg.recv_capacity
    → IsU64 cfg.send_capacity
    → Living p (new cfg random_isn).sender.isn (started cfg random_isn)
unfolding new Sender.new
started-Living cfg random_isn p same word = record {
  sane = record {
    sender_ok = record {
      good = started-Good cfg.send_capacity cfg.rt_timeout cfg.fixed_isn random_isn word;
      isn_kept = refl;
      small = (tt, tt);
    };
    receiver_ok =
        subst (λ n. Follows p [] (Receiver.new n)) same
          (started-Following p.isn p.stream p.capacity p.short p.word p.end_key p.past);
    queued = tt;
  };
  taken = tt;
}

pub run-Living :
    (cfg : TcpConfig) (random_isn : ℕ) (p : Peer) (xs : List Event)
    → p.capacity ≡ cfg.recv_capacity
    → IsU64 cfg.send_capacity
    → IsU64 (offered xs + 2)
    → All (IsPeers p.isn p.stream) xs
    → (t : Trace) × (run p.end_key (started cfg random_isn) xs ≡ ok t)
      × Living p (new cfg random_isn).sender.isn t
      × (length t.accepted ≤ offered xs)
run-Living cfg random_isn p xs same word fits sent =
    let (t, e, (k, le)) =
      run_lem p (new cfg random_isn).sender.isn (started cfg random_isn) xs
        (started-Living cfg random_isn p same word) (omega arith) sent in
    (t, e, k, omega arith)

pub Living-prefix :
    (p : Peer) (mine : WrappingInt32) (t : Trace)
    → Living p mine t
    → (rest : List ℕ) × ((t.out ++ contents t.connection.receiver.reassembler.output) ++ rest
        ≡ p.stream)
Living-prefix p mine t k =
    Following-prefix p.isn p.stream p.capacity p.short p.word p.end_key p.past
      (record { out = t.out; receiver = t.connection.receiver }) k.sane.receiver_ok

-- A fresh connection, whose send capacity has 64 bits, serves any sequence of `connect`, writes of
-- fewer than 2 ^ 64 - 2 bytes in all, `end_input_stream`, ticks, reads of the inbound stream, calls
-- that take the queued segments, and segments that arrive, reset ones among them, without an
-- exception, if each of these carries, at its sequence number, the SYN or bytes of one stream of the
-- peer, or nothing, and has a 16-bit window. The peer's stream has fewer than 2 ^ 31 - 1
-- bytes and fits, with the receive capacity, below 2 ^ 63. Where an index above the number
-- of stored entries is looked up, a read behind the end of the map does not yield this index: that
-- of libstdc++, which yields the number of entries, does not.
-- Then each segment taken or still queued carries the SYN or bytes
-- of the stream that this side's writes gave, or nothing, and has a 16-bit window; and what was
-- read, and then what waits to be read, is the beginning of the peer's stream.
pub run_sound :
    (cfg : TcpConfig) (random_isn : ℕ) (isn : WrappingInt32) (stream : List ℕ) (end_key : EndKey)
    (xs : List Event)
    → IsU64 cfg.send_capacity
    → IsU64 (offered xs + 2)
    → length stream + 1 < 2 ^ 31
    → length stream + cfg.recv_capacity < 2 ^ 63
    → Misses end_key
    → All (IsPeers isn stream) xs
    → (t : Trace) × (rest : List ℕ) × (run end_key (started cfg random_isn) xs ≡ ok t)
      × All (IsOut (new cfg random_isn).sender.isn t.accepted) t.sent
      × All (IsOut (new cfg random_isn).sender.isn t.accepted) t.connection.segments_out
      × ((t.out ++ contents t.connection.receiver.reassembler.output) ++ rest ≡ stream)
run_sound cfg random_isn isn stream end_key xs word fits short room past sent =
    let p : Peer = record {
      isn = isn;
      stream = stream;
      capacity = cfg.recv_capacity;
      short = short;
      word = room;
      end_key = end_key;
      past = past;
    } in
    let (t, e, k, _) = run-Living cfg random_isn p xs refl word fits sent in
    let (rest, q) = Living-prefix p _ t k in (t, rest, e, k.taken, k.sane.queued, q)
