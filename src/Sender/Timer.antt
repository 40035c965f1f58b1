-- ===== src/Sender/Timer.antt =====
-- The retransmission timer of the sender (libsponge/tcp_sender.cc, `tick`).
use tcp_lab.Base.{
  ℕ, ◌+◌, ◌*◌, ◌%◌, ◌^◌, ◌≤◌, ◌<◌, ◌≡◌, refl, ◌∙◌, ap, not, List, [], ◌∷◌, ◌++◌, arith, leb, ◌==◌,
  if◌then◌else◌, if_true, if_false, add32, add64, IsU64,
}
use tcp_lab.Sender.{TcpSender, Sent, retransmit, tick}

-- One `tick` after the other.
unfoldable pub ticks : TcpSender → List ℕ → TcpSender
ticks s [] = s
ticks s (ms ∷ rest) = ticks (tick s ms) rest

abbrev pub sum : List ℕ → ℕ
sum [] = 0
sum (ms ∷ rest) = ms + sum rest

-- The sender after the retransmission of `x`.
abbrev pub resent : TcpSender → Sent → TcpSender
resent s x = record s {
  segments_out = s.segments_out ++ (x.seg ∷ []);
  last_time = 0;
  timeout = if not (s.window_size == 0) then 2 * s.timeout % 2 ^ 32 else s.timeout;
  resend_try_times =
      if not (s.window_size == 0) then add32 s.resend_try_times 1 else s.resend_try_times;
}

module _ (s : TcpSender) (x : Sent) (xs : List Sent) (kept : s.sent ≡ x ∷ xs) where
  tick_early :
      (ms : ℕ)
      → s.last_time + ms < s.timeout
      → IsU64 (s.last_time + ms)
      → tick s ms ≡ record s { last_time = s.last_time + ms }
  unfolding tick retransmit
  tick_early ms early fits =
      let time : add64 s.last_time ms ≡ s.last_time + ms = omega arith in
      ap (retransmit s (add64 s.last_time ms)) kept
      ∙ if_false (leb s.timeout (add64 s.last_time ms)) _ _ (ground arith)
      ∙ ap (λ t. record s { last_time = t }) time

  pub tick_due :
      (ms : ℕ) → s.timeout ≤ s.last_time + ms → IsU64 (s.last_time + ms) → tick s ms ≡ resent s x
  unfolding tick retransmit
  tick_due ms due fits =
      ap (retransmit s (add64 s.last_time ms)) kept
      ∙ if_true (leb s.timeout (add64 s.last_time ms)) _ _ (ground arith)

-- While a segment is kept, and the 64-bit time does not wrap, ticks that add up to less than the
-- timeout send nothing; the tick with which the time since the last start of the timer reaches the
-- timeout queues the oldest kept segment and starts the timer again, and, unless the window is
-- closed, doubles the 32-bit timeout and counts one more retransmission.
pub ticks_due :
    (before : List ℕ) (ms : ℕ) (s : TcpSender) (x : Sent) (xs : List Sent)
    → s.sent ≡ x ∷ xs
    → s.last_time + sum before < s.timeout
    → s.timeout ≤ s.last_time + sum before + ms
    → IsU64 (s.last_time + sum before + ms)
    → ((ticks s before).segments_out ≡ s.segments_out)
      × (ticks s (before ++ (ms ∷ [])) ≡ resent s x)
unfolding ticks
ticks_due [] ms s x xs kept early due fits =
    (refl, tick_due s x xs kept ms (omega arith) (omega arith))
ticks_due (b ∷ before) ms s x xs kept early due fits =
    let later = record s { last_time = s.last_time + b } in
    let (same, sent) =
      ticks_due before ms later x xs kept (omega arith) (omega arith) (omega arith) in
    let step = tick_early s x xs kept b (omega arith) (omega arith) in
    (
      ap (λ t. (ticks t before).segments_out) step ∙ same,
      ap (λ t. ticks t (before ++ (ms ∷ []))) step ∙ sent,
    )
