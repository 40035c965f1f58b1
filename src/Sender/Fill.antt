-- ===== src/Sender/Fill.antt =====
-- `fill_window` of libsponge/tcp_sender.cc: it ends, it respects the receiver's window, and what
-- it sends is the stream.
use tcp_lab.Base.{
  ℕ, zero, suc, ◌+◌, ◌-◌, ◌≤◌, ◌<◌, ◌≡◌, refl, subst, ◌∙◌, true, false, ◌⊎◌, inl, inr, arith, ltb,
  ◌==◌, ltb→lt, Bool-cases, if◌then◌else◌, ok,
}
use tcp_lab.Sender.{TcpSender, Turn, turn, fill_loop, fill_window, bytes_in_flight}
use tcp_lab.Sender.Filled.{IsValid, Filled, Filled-refl, Filled-trans}
use tcp_lab.Sender.OneTurn.{limit_of, turn_lem}

pub in_flight_lem :
    (s : TcpSender) → IsValid s → bytes_in_flight s ≡ s.next_abs_seqno - s.last_acked_abs_seqno
unfolding bytes_in_flight
in_flight_lem s v = ground (arith, v.acked, v.counted, v.bounded, v.stream_ok.counted)

fill_step :
    (fuel : ℕ) (s : TcpSender) (ex : ℕ) (t : Turn)
    → ltb (bytes_in_flight s) (s.window_size + ex) ≡ true
    → s.fined ≡ false
    → turn s ex ≡ ok t
    → fill_loop (suc fuel) s ex ≡ (if t.stop then ok t.sender else fill_loop fuel t.sender 0)
unfolding fill_loop
fill_step fuel s ex t g f e = rw (g, e, f)

fill_loop_lem :
    (fuel : ℕ) (s : TcpSender) (ex : ℕ)
    → IsValid s
    → ex ≤ 1
    → limit_of s ex - s.next_abs_seqno < fuel
    → (s' : TcpSender) × (fill_loop fuel s ex ≡ ok s') × Filled (limit_of s ex) s s'
unfolding fill_loop
fill_loop_lem zero s ex v small h = absurd (omega arith)
fill_loop_lem (suc fuel) s ex v small h =
    elim (Bool-cases (ltb (bytes_in_flight s) (s.window_size + ex))) [
      | inr full ↦ (s, ground arith, Filled-refl _ s v)
      | inl open_guard ↦ elim (Bool-cases s.fined) [
        | inl f ↦ (s, ground arith, Filled-refl _ s v)
        | inr f ↦
            let room : s.next_abs_seqno < limit_of s ex =
              omega (arith, in_flight_lem s v, ltb→lt _ _ open_guard, v.acked) in
            let (t, e, d) = turn_lem s ex v f room small in
            let g = d.filled in
            elim d.progress [
              | inl stop ↦ (t.sender, fill_step fuel s ex t open_guard f e ∙ rw stop, g)
              | inr (goes, further) ↦
                  let (u, e', k) =
                    fill_loop_lem fuel t.sender 0 g.valid (omega arith)
                      (omega (arith, g.same_acked, g.same_window)) in
                  (
                    u,
                    fill_step fuel s ex t open_guard f e ∙ rw goes e',
                    Filled-trans _ _ s t.sender u (omega (arith, g.same_acked, g.same_window)) g k,
                  )
            ]
      ]
    ]

-- The numbers that the window admits, of which there is one where it is closed.
abbrev pub window_of : TcpSender → ℕ
window_of s = if s.window_size == 0 then 1 else s.window_size

extra_le : (w : ℕ) → (if w == 0 then 1 else 0) ≤ 1
extra_le zero = omega arith
extra_le (suc w) = ground arith

extra_lem : (w : ℕ) → w + (if w == 0 then 1 else 0) ≡ (if w == 0 then 1 else w)
extra_lem zero = refl
extra_lem (suc w) = ground arith

-- On a sender whose counters are right, `fill_window` ends without an exception. The segments
-- that it puts in the queue are those that it keeps for retransmission; their payloads, in order,
-- are the bytes that it took from the stream. It leaves the acknowledged number as it is, and
-- what is in flight afterwards is what was in flight before or fits in the window, which counts as
-- 1 where it is closed.
pub fill_window_lem :
    (s : TcpSender)
    → IsValid s
    → (s' : TcpSender) × (fill_window s ≡ ok s')
      × Filled (s.last_acked_abs_seqno + window_of s) s s'
      × ((bytes_in_flight s' ≡ bytes_in_flight s) ⊎ (bytes_in_flight s' ≤ window_of s))
unfolding fill_window
fill_window_lem s v =
    let ex : ℕ = if s.window_size == 0 then 1 else 0 in
    let (s', e, f) =
      fill_loop_lem (s.window_size + 2) s ex v (extra_le s.window_size)
        (omega (arith, v.acked, extra_le s.window_size)) in
    let f' = subst (λ k. Filled (s.last_acked_abs_seqno + k) s s') (extra_lem s.window_size) f in
    (
      s',
      e,
      f',
      rw (in_flight_lem s' f.valid, in_flight_lem s v, f.same_acked)
          (elim f'.room [ inl same ↦ inl (omega (arith, same)) | inr le ↦ inr (omega arith) ]),
    )
