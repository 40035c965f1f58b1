-- ===== src/Sender/Ack.antt =====
-- `ack_received` of libsponge/tcp_sender.cc: which segments an acknowledgment discards.
use tcp_lab.Base.{
  ℕ, ◌+◌, ◌-◌, ◌^◌, ◌≤◌, ◌<◌, ◌≡◌, refl, ap, List, [], ◌∷◌, ◌++◌, All, arith, leb, Bool-cases,
  leb→le, leb→lt, lt→leb_false, le→ltb, inl, inr, IsU16, IsU32,
}
use tcp_lab.Seqno.{wrap, unwrap}
use tcp_lab.Seqno.Unwrap.{unwrap-wrap}
use tcp_lab.Sender.{TcpSender, Sent, drop_acked, advance, ack_received, bytes_in_flight}
use tcp_lab.Sender.Chain.{Ordered}
use tcp_lab.Sender.Filled.{IsValid}

-- `gone` are the segments acknowledged in full by `m`, and `left` the others.
pub record Dropped (m : ℕ) (all left : List Sent) : Type 0 where
  pub gone : List Sent
  pub split : all ≡ gone ++ left
  pub covered : All (λ x. x.expected_ack ≤ m) gone
  pub open_ : Ordered m left

pub drop_acked_lem : (m lo : ℕ) (xs : List Sent) → Ordered lo xs → Dropped m xs (drop_acked m xs)
unfolding drop_acked
drop_acked_lem m lo [] o = record { gone = []; split = refl; covered = tt; open_ = tt }
drop_acked_lem m lo (x ∷ xs) o = elim (Bool-cases (leb x.expected_ack m)) [
  | inl le ↦
      let d = drop_acked_lem m x.expected_ack xs o.1 in
      rw le (record {
        gone = x ∷ d.gone;
        split = ap (λ k. x ∷ k) d.split;
        covered = (leb→le _ _ le, d.covered);
        open_ = d.open_;
      })
  | inr gt ↦ rw gt (record { gone = []; split = refl; covered = tt; open_ = (leb→lt _ _ gt, o.1) })
]

-- The sender after the acknowledgment of everything below `m`.
pub record Acked (m window : ℕ) (s s' : TcpSender) : Type 0 where
  pub valid : IsValid s'
  pub acknowledged : s'.last_acked_abs_seqno ≡ m
  pub window_is : s'.window_size ≡ window
  pub in_flight : bytes_in_flight s' ≡ s.next_abs_seqno - m
  pub dropped : Dropped m s.sent s'.sent

advance_lem :
    (s : TcpSender) (m window : ℕ) (xs : List Sent)
    → s.sent ≡ xs
    → IsValid s
    → IsU16 window
    → Ordered s.last_acked_abs_seqno xs
    → m ≤ s.next_abs_seqno
    → Acked m window s (advance (record s { window_size = window }) m xs)
unfolding advance bytes_in_flight
advance_lem s m window [] e v hw o below = record {
  valid = record {
    stream_ok = v.stream_ok;
    counted = v.counted;
    acked = below;
    bounded = v.bounded;
    window_ok = hw;
  };
  acknowledged = refl;
  window_is = refl;
  in_flight = ground (arith, v.counted, v.bounded, v.stream_ok.counted);
  dropped = record { gone = []; split = refl; covered = tt; open_ = rw e tt };
}
advance_lem s m window (x ∷ xs) e v hw o below = record {
  valid = record {
    stream_ok = v.stream_ok;
    counted = v.counted;
    acked = below;
    bounded = v.bounded;
    window_ok = hw;
  };
  acknowledged = refl;
  window_is = refl;
  in_flight = ground (arith, v.counted, v.bounded, v.stream_ok.counted);
  dropped = rw e (drop_acked_lem m s.last_acked_abs_seqno (x ∷ xs) o);
}

module _ (s : TcpSender) (m window : ℕ) where
  -- Let the counters of the sender be right, its kept segments in order, and `m` a number that is
  -- above the acknowledged one, by less than 2 ^ 31, and not above the next to be sent. Then the
  -- acknowledgment number that stands for `m` makes it the acknowledged one, sets the window,
  -- discards the kept segments that end at or below `m`, and no others, and leaves in flight what
  -- was sent from `m` on.
  pub ack_received_lem :
      IsValid s
      → IsU32 s.isn
      → IsU16 window
      → s.last_acked_abs_seqno + 2 ^ 32 ≤ 2 ^ 64
      → Ordered s.last_acked_abs_seqno s.sent
      → s.last_acked_abs_seqno < m
      → m < s.last_acked_abs_seqno + 2 ^ 31
      → m ≤ s.next_abs_seqno
      → Acked m window s (ack_received s (wrap m s.isn) window)
  unfolding ack_received
  ack_received_lem v hi hw far o above near below =
      let e : unwrap (wrap m s.isn) s.isn s.last_acked_abs_seqno ≡ m =
        unwrap-wrap m s.isn s.last_acked_abs_seqno hi far (ground arith) in
      rw (e, lt→leb_false _ _ above, le→ltb _ _ below)
        (advance_lem s m window s.sent refl v hw o below)
