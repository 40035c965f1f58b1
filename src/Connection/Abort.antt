-- ===== src/Connection/Abort.antt =====
-- How libsponge/tcp_connection.cc gives up on a peer that does not answer.
use tcp_lab.Base.{
  ℕ, ◌+◌, ◌≤◌, ◌<◌, ◌≡◌, refl, ◌∙◌, ap, true, false, not, List, [], ◌∷◌, ◌++◌, append_assoc, arith,
  ltb, ◌==◌, Bool-cases, inl, inr, if_true, if_false, add32, add64, ok, IsU64,
}
use tcp_lab.Wire.TcpSegment.{TcpSegment}
use tcp_lab.Receiver
use tcp_lab.Sender
use tcp_lab.Sender.{TcpSender, Sent}
use tcp_lab.Sender.Steps.{Good, tick-Good}
use tcp_lab.Sender.Fill.{fill_window_lem}
use tcp_lab.Sender.Timer.{tick_due}
use tcp_lab.Connection.{
  TcpConnection, max_retx_attempts, active, fill_if_syned, set_errors, prepare_death,
  pull_push_segments, fully_dead, judge_do, tick,
}
use tcp_lab.Connection.Reset.{all_rst, buried, buried-Dead, stamp_all_rst}

-- What `fully_dead(2)` leaves where a segment waits: no empty segment is made.
fully_dead_two :
    (c : TcpConnection) (y : TcpSegment) (ys : List TcpSegment)
    → c.sender.segments_out ≡ y ∷ ys
    → fully_dead c 2 ≡ ok (buried c)
unfolding fully_dead prepare_death pull_push_segments set_errors
fully_dead_two c y ys e =
    rw (e, stamp_all_rst (set_errors (record c { rst = true })).receiver (y ∷ ys)) refl

judge_do_exhausted :
    (c : TcpConnection) (y : TcpSegment) (ys : List TcpSegment)
    → active c ≡ true
    → c.rst ≡ false
    → max_retx_attempts < c.sender.resend_try_times
    → c.sender.segments_out ≡ y ∷ ys
    → judge_do c ≡ ok (buried c)
unfolding judge_do
judge_do_exhausted c y ys on calm many e =
    if_false _ _ _ (ap not on)
    ∙ if_false _ _ _ calm
    ∙ if_true (ltb max_retx_attempts c.sender.resend_try_times) _ _ (ground (arith, many))
    ∙ fully_dead_two c y ys e

-- The sender after a tick that is due, and the filling of its window.
record Pressed (s s' : TcpSender) (x : Sent) : Type 0 where
  tries : s'.resend_try_times ≡ add32 s.resend_try_times 1
  news : List TcpSegment
  queue : s'.segments_out ≡ s.segments_out ++ (x.seg ∷ news)

press :
    (acc : List ℕ) (s : TcpSender) (x : Sent) (xs : List Sent) (ms : ℕ)
    → Good acc s
    → s.sent ≡ x ∷ xs
    → s.timeout ≤ s.last_time + ms
    → IsU64 (s.last_time + ms)
    → (s.window_size == 0) ≡ false
    → (s' : TcpSender) × (fill_if_syned (Sender.tick s ms) ≡ ok s') × Pressed s s' x
unfolding fill_if_syned
press acc s x xs ms g kept due fits opened =
    let t = Sender.tick s ms in
    let e = tick_due s x xs kept ms due fits in
    let more : t.resend_try_times ≡ add32 s.resend_try_times 1 =
      ap (λ k. k.resend_try_times) e ∙ if_true _ _ _ (ap not opened) in
    elim (Bool-cases t.syned) [
      | inr idle ↦ (
        t,
        if_false _ _ _ idle,
        record { tries = more; news = []; queue = ap (λ k. k.segments_out) e },
      )
      | inl begun ↦
          let (s', e', f, _) = fill_window_lem t (tick-Good acc s g ms).valid in
          (
            s',
            if_true _ _ _ begun ∙ e',
            record {
              tries = f.same_tries ∙ more;
              news = f.news;
              queue =
                  f.out
                  ∙ ap (λ k. k.segments_out ++ f.news) e
                  ∙ append_assoc s.segments_out (x.seg ∷ []) f.news;
            },
          )
    ]

-- The first of the segments that wait.
first_of :
    (xs ys : List TcpSegment) (y : TcpSegment)
    → (z : TcpSegment) × (zs : List TcpSegment) × (xs ++ (y ∷ ys) ≡ z ∷ zs)
first_of [] ys y = (y, ys, refl)
first_of (x ∷ xs) ys y = (x, xs ++ (y ∷ ys), refl)

tick_step :
    (c : TcpConnection) (ms : ℕ) (s : TcpSender)
    → fill_if_syned (Sender.tick c.sender ms) ≡ ok s
    → tick c ms ≡ judge_do (record c { last_seg_timer = add64 c.last_seg_timer ms; sender = s })
unfolding tick
tick_step c ms s e = rw (e, tick) refl

-- Let an active connection that was not reset have a sender whose counters and segments are in
-- order, with a segment that was sent again 8 times and is not acknowledged, and an open window.
-- The tick with which the 64-bit time since then reaches the timeout does not throw and ends the
-- connection: it is not active, both streams are in error, and what was queued, that segment once
-- more and what the window admits go out, each with its RST flag set.
pub tick_exhausted :
    (acc : List ℕ) (c : TcpConnection) (x : Sent) (xs : List Sent) (ms : ℕ)
    → active c ≡ true
    → c.rst ≡ false
    → Good acc c.sender
    → c.sender.sent ≡ x ∷ xs
    → c.sender.resend_try_times ≡ max_retx_attempts
    → (c.sender.window_size == 0) ≡ false
    → c.sender.timeout ≤ c.sender.last_time + ms
    → IsU64 (c.sender.last_time + ms)
    → (c' : TcpConnection) × (news : List TcpSegment) × (tick c ms ≡ ok c')
      × (active c' ≡ false)
      × (c'.sender.stream.error ≡ true)
      × ((Receiver.stream_out c'.receiver).error ≡ true)
      × (c'.segments_out ≡ c.segments_out ++ all_rst (c.sender.segments_out ++ (x.seg ∷ news)))
tick_exhausted acc c x xs ms on calm g kept tries opened due fits =
    let (s, e, p) = press acc c.sender x xs ms g kept due fits opened in
    let (y, ys, first) = first_of c.sender.segments_out p.news x.seg in
    let d = record c { last_seg_timer = add64 c.last_seg_timer ms; sender = s } in
    let dead = buried-Dead d in
    (
      buried d,
      p.news,
      tick_step c ms s e
          ∙ judge_do_exhausted d y ys on calm (omega (arith, p.tries, tries)) (p.queue ∙ first),
      dead.inactive,
      dead.outbound,
      dead.inbound,
      dead.queue ∙ ap (λ k. c.segments_out ++ all_rst k) p.queue,
    )
