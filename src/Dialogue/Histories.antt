-- ===== src/Dialogue/Histories.antt =====
-- libsponge/tcp_connection.cc: what has happened to one of two connections that talk to each other.
use tcp_lab.Base.{
  ℕ, ◌+◌, ◌^◌, ◌≤◌, ◌<◌, ◌≡◌, refl, sym, subst, ◌∙◌, none, some, List, [], ◌∷◌, ◌++◌, All, arith,
  length, append-nil, Ensures, Total, ok, ok_injective, IsU64,
}
use tcp_lab.Reassembler.{EndKey}
use tcp_lab.Reassembler.Behind.{Misses}
use tcp_lab.Seqno.{WrappingInt32}
use tcp_lab.Sender.Chain.{Carries-grow}
use tcp_lab.Transfer.{sent_at-All}
use tcp_lab.Connection.{TcpConfig, new}
use tcp_lab.Connection.Sane.{IsOut, Peer}
use tcp_lab.Connection.Judge.{All-append}
use tcp_lab.Connection.Events
use tcp_lab.Connection.Events.{
  Event, call, receive, Trace, offer, offered, step, started, IsPeers, Grows, step-Grows, run-snoc,
}
use tcp_lab.Connection.Runs.{Living, run-Living}
use tcp_lab.Dialogue.{Act, does, gets, act, written}

-- The number that a connection starts from.
abbrev pub isn_of : TcpConfig → ℕ → WrappingInt32
isn_of cfg random_isn = (new cfg random_isn).sender.isn

-- The events that led one side to `t`, when the other is at `u`; `n` bytes were to be written.
pub record History (end_key : EndKey) (cfg : TcpConfig) (random_isn : ℕ) (peer_isn : WrappingInt32)
    (n : ℕ) (u t : Trace) : Type 0 where
  pub happened : List Event
  pub ran : Events.run end_key (started cfg random_isn) happened ≡ ok t
  pub peers : All (IsPeers peer_isn u.accepted) happened
  pub offers : offered happened ≤ n
  pub grown : length t.accepted ≤ n

offered-snoc : (xs : List Event) (x : Event) → offered (xs ++ (x ∷ [])) ≡ offered xs + offer x
offered-snoc [] x = omega arith
offered-snoc (y ∷ ys) x = omega (arith, offered-snoc ys x)

IsPeers-grow :
    (isn : WrappingInt32) (acc more : List ℕ) (xs : List Event)
    → All (IsPeers isn acc) xs
    → All (IsPeers isn (acc ++ more)) xs
IsPeers-grow isn acc more [] a = tt
IsPeers-grow isn acc more (call c ∷ xs) (k, a) = (k, IsPeers-grow isn acc more xs a)
IsPeers-grow isn acc more (receive seg ∷ xs) ((k, w), a) =
    ((Carries-grow isn acc more seg k, w), IsPeers-grow isn acc more xs a)

module _ (end_key : EndKey) (past : Misses end_key) (cfg : TcpConfig) (random_isn : ℕ)
    (peer_isn : WrappingInt32) (word : IsU64 cfg.send_capacity) where
  -- The other side goes on.
  pub other_grows :
      (n : ℕ) (u u' t : Trace)
      → Grows u u'
      → History end_key cfg random_isn peer_isn n u t
      → History end_key cfg random_isn peer_isn n u' t
  other_grows n u u' t (more, e) h = record {
    happened = h.happened;
    ran = h.ran;
    peers =
        subst (λ b. All (IsPeers peer_isn b) h.happened) (sym e)
          (IsPeers-grow peer_isn u.accepted more h.happened h.peers);
    offers = h.offers;
    grown = h.grown;
  }

  module _ (n m : ℕ) (u t : Trace) (h : History end_key cfg random_isn peer_isn n u t)
      (bound : length u.accepted ≤ m) (short : m + 1 < 2 ^ 31)
      (room : m + cfg.recv_capacity < 2 ^ 63) where
    abbrev pub peer : Peer
    peer = record {
      isn = peer_isn;
      stream = u.accepted;
      capacity = cfg.recv_capacity;
      short = omega arith;
      word = omega arith;
      end_key = end_key;
      past = past;
    }

    pub alive : IsU64 (n + 2) → Living peer (isn_of cfg random_isn) t
    alive fits =
        let (t', e, k, _) =
          run-Living cfg random_isn peer h.happened refl word (omega (arith, h.offers)) h.peers in
        subst (Living peer (isn_of cfg random_isn)) (ok_injective _ _ (sym e ∙ h.ran)) k

    -- One event more.
    next :
        (x : Event)
        → IsPeers peer_isn u.accepted x
        → IsU64 (n + offer x + 2)
        → Total
            (λ t'. History end_key cfg random_isn peer_isn (n + offer x) u t' × Grows t t')
            (step end_key t x)
    next x s fits =
        let xs = h.happened ++ (x ∷ []) in
        let all = All-append (IsPeers peer_isn u.accepted) h.happened (x ∷ []) h.peers (s, tt) in
        let count = offered-snoc h.happened x in
        let (t', e, k, le) =
          run-Living cfg random_isn peer xs refl word (omega (arith, h.offers, count)) all in
        let here = sym (run-snoc end_key (started cfg random_isn) t h.happened x h.ran) ∙ e in
        (
          t',
          here,
          (
            record {
              happened = xs;
              ran = e;
              peers = all;
              offers = omega (arith, h.offers, count);
              grown = omega (arith, le, h.offers, count);
            },
            subst (Ensures (Grows t)) here (step-Grows end_key t x),
          ),
        )

  -- A turn of this side; `m` bounds what the other side was to write.
  pub act_lem :
      (n m : ℕ) (u t : Trace) (a : Act)
      → History end_key cfg random_isn peer_isn n u t
      → All (IsOut peer_isn u.accepted) u.sent
      → length u.accepted ≤ m
      → m + 1 < 2 ^ 31
      → m + cfg.recv_capacity < 2 ^ 63
      → IsU64 (n + written a + 2)
      → Total
          (λ t'. History end_key cfg random_isn peer_isn (n + written a) u t' × Grows t t')
          (act end_key t u a)
  act_lem n m u t (does c) h sent bound short room fits =
      next n m u t h bound short room (call c) tt fits
  act_lem n m u t (gets i) h sent bound short room fits =
      sent_at-All (IsOut peer_isn u.accepted)
        (λ o.
          Total (λ t'. History end_key cfg random_isn peer_isn (n + 0) u t' × Grows t t')
            (elim o [ none ↦ ok t | some seg ↦ step end_key t (receive seg) ]))
        u.sent i sent
        (
          t,
          refl,
          (
            record {
              happened = h.happened;
              ran = h.ran;
              peers = h.peers;
              offers = omega (arith, h.offers);
              grown = omega (arith, h.grown);
            },
            ([], sym (append-nil t.accepted)),
          ),
        )
        (λ seg s. next n m u t h bound short room (receive seg) s fits)
