-- ===== src/Connection/Judge.antt =====
-- What libsponge/tcp_connection.cc does at the end of every call (`judge_do`): it throws nothing, and
-- what it sends is sound.
use tcp_lab.Base.{
  ℕ, ◌≡◌, refl, subst, Bool, true, false, not, ◌&&◌, ltb, ◌==◌, if◌then◌else◌, if_false, inl, inr,
  Option, none, some, List, [], ◌∷◌, ◌++◌, All, arith, Result, Total, Total-bind, Total-if, ok,
}
use tcp_lab.Seqno.{WrappingInt32}
use tcp_lab.Wire.TcpSegment.{TcpSegment}
use tcp_lab.Receiver
use tcp_lab.Receiver.{TcpReceiver}
use tcp_lab.Receiver.Ackno.{ackno_lem}
use tcp_lab.Sender
use tcp_lab.Sender.Chain.{Carries}
use tcp_lab.Sender.Payloads.{IsSmall}
use tcp_lab.Connection.{
  TcpConnection, max_retx_attempts, stamp, stamp_all, pull_push_segments, set_errors, prepare_death,
  fully_dead, lingered, passive_end, judge_do,
}
use tcp_lab.Connection.Sane.{SenderOk, IsOut, fill_ok, send_empty-SenderOk, Peer, Follows, Sane}
use tcp_lab.Connection.Failed.{failed-SenderOk, drained-SenderOk, failed-Follows}

pub All-append {ℓ} :
    {A : Type ℓ} (P : A → Type 0) (xs ys : List A) → All P xs → All P ys → All P (xs ++ ys)
All-append P [] ys a b = b
All-append P (x ∷ xs) ys (p, a) b = (p, All-append P xs ys a b)

stamp-IsOut :
    (mine : WrappingInt32) (acc : List ℕ) (rst : Bool) (a : Option WrappingInt32) (w : ℕ)
    (seg : TcpSegment)
    → Carries mine acc seg
    → IsSmall seg
    → IsOut mine acc (stamp rst a w seg)
unfolding stamp
stamp-IsOut mine acc true a w seg c (_, unset) = (c, omega (arith, unset))
stamp-IsOut mine acc false none w seg c s = (c, ground arith)
stamp-IsOut mine acc false (some a) w seg c s = (c, ground arith)

pub either {ℓ} :
    {A : Type ℓ} (P : A → Type 0) (b : Bool) (x y : A) → P x → P y → P (if b then x else y)
either P true x y h k = h
either P false x y h k = k

module _ (p : Peer) (mine : WrappingInt32) (acc out : List ℕ) where
  pub ackno_ok : (r : TcpReceiver) → Follows p out r → Total (λ _. Unit {0}) (Receiver.ackno r)
  unfolding Receiver.ackno
  ackno_ok r f = elim f.stage [
    | inl w ↦
        let small : (r.fin == 2) ≡ false = ground (arith, w.no_fin) in
        (r.ackno_field, if_false _ _ _ small, tt)
    | inr (v, _) ↦ (_, ackno_lem _ r v, tt)
  ]

  stamp_all_ok :
      (rst : Bool) (r : TcpReceiver) (segs : List TcpSegment)
      → Follows p out r
      → All (Carries mine acc) segs
      → All IsSmall segs
      → Total (All (IsOut mine acc)) (stamp_all rst r segs)
  unfolding stamp_all
  stamp_all_ok rst r [] f a b = ([], refl, tt)
  stamp_all_ok rst r (seg ∷ segs) f (c, cs) (d, ds) =
      Total-bind (λ _. Unit {0}) (All (IsOut mine acc)) (if rst then ok none else Receiver.ackno r)
        _
        (Total-if (λ _. Unit {0}) rst (ok none) (Receiver.ackno r) (none, refl, tt) (ackno_ok r f))
        (λ a _.
          Total-bind (All (IsOut mine acc)) (All (IsOut mine acc)) (stamp_all rst r segs) _
            (stamp_all_ok rst r segs f cs ds)
            (λ rest k. (_, refl, (stamp-IsOut mine acc rst a (Receiver.window_size r) seg c d, k))))

  abbrev pub Ok : Result TcpConnection → Type 0
  Ok r = Total (Sane p mine acc out) r

  pub pull_push-Ok : (c : TcpConnection) → Sane p mine acc out c → Ok (pull_push_segments c)
  unfolding pull_push_segments
  pull_push-Ok c s =
      let o = s.sender_ok in
      Total-bind (All (IsOut mine acc)) (Sane p mine acc out)
        (stamp_all c.rst c.receiver c.sender.segments_out) _
        (stamp_all_ok c.rst c.receiver c.sender.segments_out s.receiver_ok
          (subst (λ i. All (Carries i acc) c.sender.segments_out) o.isn_kept o.good.sound.carries)
          o.small.0)
        (λ segs k. (
          record c {
            sender = record c.sender { segments_out = [] };
            segments_out = c.segments_out ++ segs;
          },
          refl,
          record {
            sender_ok = drained-SenderOk mine acc c.sender o;
            receiver_ok = s.receiver_ok;
            queued = All-append (IsOut mine acc) c.segments_out segs s.queued k;
          },
        ))

  failed-Sane : (c : TcpConnection) → Sane p mine acc out c → Sane p mine acc out (set_errors c)
  unfolding set_errors
  failed-Sane c s = record {
    sender_ok = failed-SenderOk mine acc c.sender s.sender_ok;
    receiver_ok = failed-Follows p out c.receiver s.receiver_ok;
    queued = s.queued;
  }

  with_sender :
      (c : TcpConnection) (s : Sender.TcpSender) (rst : Bool)
      → Sane p mine acc out c
      → SenderOk mine acc s
      → Sane p mine acc out (record c { sender = s; rst = rst })
  with_sender c s rst k o = record { sender_ok = o; receiver_ok = k.receiver_ok; queued = k.queued }

  prepare-Ok : (c : TcpConnection) (n : ℕ) → Sane p mine acc out c → Ok (prepare_death c n)
  unfolding prepare_death
  prepare-Ok c n s =
      let none_out : Bool = elim c.sender.segments_out [ [] ↦ true | x ∷ xs ↦ false ] in
      let empty = Sender.send_empty_segment c.sender in
      let last = if ltb 1 n && none_out then empty else c.sender in
      let last_ok : SenderOk mine acc last =
        either (SenderOk mine acc) (ltb 1 n && none_out) empty c.sender
          (send_empty-SenderOk mine acc c.sender s.sender_ok) s.sender_ok in
      Total-if (Sane p mine acc out) (n == 0) _ _
        (Total-bind (SenderOk mine acc) (Sane p mine acc out) (Sender.fill_window c.sender) _
          (fill_ok mine acc c.sender s.sender_ok)
          (λ s' k. (record c { sender = s' }, refl, with_sender c s' c.rst s k)))
        (
          _,
          refl,
          failed-Sane (record c { rst = true; sender = last }) (with_sender c last true s last_ok),
        )

  fully_dead-Ok : (c : TcpConnection) (n : ℕ) → Sane p mine acc out c → Ok (fully_dead c n)
  unfolding fully_dead
  fully_dead-Ok c n s =
      Total-bind (Sane p mine acc out) (Sane p mine acc out) (prepare_death c n) _
        (prepare-Ok c n s)
        (λ c' s'.
          Total-bind (Sane p mine acc out) (Sane p mine acc out) (pull_push_segments c') _
            (pull_push-Ok c' s')
            (λ c'' k. (
              record c'' { is_active = false },
              refl,
              record { sender_ok = k.sender_ok; receiver_ok = k.receiver_ok; queued = k.queued },
            )))

  pub judge-Ok : (c : TcpConnection) → Sane p mine acc out c → Ok (judge_do c)
  unfolding judge_do
  judge-Ok c s =
      let If = Total-if (Sane p mine acc out) in
      let late = record c { linger_after_streams_finish = false } in
      let late_ok : Sane p mine acc out late = record {
        sender_ok = s.sender_ok;
        receiver_ok = s.receiver_ok;
        queued = s.queued;
      } in
      If (not c.is_active) (ok c) _ (c, refl, s)
        (If c.rst (fully_dead c 1) _ (fully_dead-Ok c 1 s) (
          If (ltb max_retx_attempts (Sender.consecutive_retransmissions c.sender)) (fully_dead c 2)
            _ (fully_dead-Ok c 2 s)
            (If (lingered c) (fully_dead late 0) _ (fully_dead-Ok late 0 late_ok) (
              If (passive_end c) (fully_dead c 0) (pull_push_segments c) (fully_dead-Ok c 0 s)
                (pull_push-Ok c s)))))
