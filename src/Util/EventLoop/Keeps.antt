-- ===== src/Util/EventLoop/Keeps.antt =====
-- What the callbacks of libsponge/util/eventloop.cc keep, `wait_next_event` keeps.
use tcp_lab.Base.{
  ℕ, refl, Bool, ◌&&◌, not, List, [], ◌∷◌, ◌==◌, if◌then◌else◌, All, Safe, Safe-bind, Safe-if, ok,
  throw, runtime_error, ◌>>=◌,
}
use tcp_lab.Util.FileDescriptor.{FileDescriptor}
use tcp_lab.Util.EventLoop.{
  Direction, is_in, Rule, Outcome, success, timeout, exit, Revents, nothing, Poll, none_ready,
  interrupted, failed, events, ended, prepare, something_to_poll, rules_of, call, serve,
  service_count, wait_next_event,
}

-- The callback and the cancellation of a rule keep `P`, and throw nothing but runtime_error.
abbrev pub Keeps : {W : Type 0} → (W → Type 0) → Rule W → Type 0
Keeps P r = (w : _) → P w → Safe P (r.callback w) × Safe P (r.cancel w)

module _ {W : Type 0} (fds : W → ℕ → FileDescriptor) (P : W → Type 0) where
  prepare_lem :
      (rules : List (Rule W)) (w : W)
      → All (Keeps P) rules
      → P w
      → Safe (λ q. All (λ x. Keeps P x.0) q.0 × P q.1) (prepare fds rules w)
  unfolding prepare
  prepare_lem [] w k p = (tt, p)
  prepare_lem (r ∷ rules) w (k, ks) p =
      Safe-if (λ q. All (λ x. Keeps P x.0) q.0 × P q.1) (ended fds r w) _ _
        (λ _.
          Safe-bind P (λ q. All (λ x. Keeps P x.0) q.0 × P q.1) (r.cancel w) _ (k w p).1
            (λ w' p'. prepare_lem rules w' ks p'))
        (λ _.
          Safe-bind (λ q. All (λ x. Keeps P x.0) q.0 × P q.1)
            (λ q. All (λ x. Keeps P x.0) q.0 × P q.1) (prepare fds rules w) _
            (prepare_lem rules w ks p) (λ q (ks', p'). ((k, ks'), p')))

  rules_of_lem :
      (polled : List (Rule W × Bool))
      → All (λ x. Keeps P x.0) polled
      → All (Keeps P) (rules_of fds polled)
  unfolding rules_of
  rules_of_lem [] k = tt
  rules_of_lem ((r, asked) ∷ rest) (k, ks) = (k, rules_of_lem rest ks)

  call_lem : (r : Rule W) (w : W) → Keeps P r → P w → Safe P (call fds r w)
  unfolding call
  call_lem r w k p = Safe-bind P P (r.callback w) _ (k w p).0 (λ w' p'.
      Safe-if P (service_count fds r w == service_count fds r w' && r.interest w') _ (ok w')
        (λ _. refl) (λ _. p'))

  abbrev Served : List (Rule W) × W → Type 0
  Served q = All (Keeps P) q.0 × P q.1

  serve_lem :
      (revents : ℕ → Direction → Revents) (polled : List (Rule W × Bool)) (w : W)
      → All (λ x. Keeps P x.0) polled
      → P w
      → Safe Served (serve fds revents polled w)
  unfolding serve
  serve_lem revents [] w k p = (tt, p)
  serve_lem revents ((r, asked) ∷ rest) w (k, ks) p =
      let e = revents r.fd r.direction in
      let ready = asked && (if is_in r.direction then e.poll_in else e.poll_out) in
      Safe-if Served e.poll_error (throw runtime_error) _ (λ _. refl)
        (λ _.
          Safe-if Served (e.poll_hup && (asked && not ready)) _ _
            (λ _.
              Safe-bind P Served (r.cancel w) _ (k w p).1
                (λ w' p'. serve_lem revents rest w' ks p'))
            (λ _.
              Safe-if Served ready _ _
                (λ _. Safe-bind P Served (call fds r w) _ (call_lem r w k p) (λ w' p'.
                  Safe-bind Served Served (serve fds revents rest w') _
                    (serve_lem revents rest w' ks p') (λ q (ks', p''). ((k, ks'), p''))))
                (λ _.
                  Safe-bind Served Served (serve fds revents rest w) _
                    (serve_lem revents rest w ks p) (λ q (ks', p''). ((k, ks'), p'')))))

  abbrev pub Waited : Outcome × List (Rule W) × W → Type 0
  Waited q = All (Keeps P) q.1 × P q.2

  served_lem :
      (revents : ℕ → Direction → Revents) (polled : List (Rule W × Bool)) (w : W) (o : Outcome)
      → All (λ x. Keeps P x.0) polled
      → P w
      → Safe Waited (serve fds revents polled w >>= (λ q. ok (o, q.0, q.1)))
  served_lem revents polled w o k p =
      Safe-bind Served Waited (serve fds revents polled w) _ (serve_lem revents polled w k p)
        (λ q h. h)

  pub wait_next_event-Keeps :
      (poll : Poll) (rules : List (Rule W)) (w : W)
      → All (Keeps P) rules
      → P w
      → Safe Waited (wait_next_event fds poll rules w)
  unfolding wait_next_event
  wait_next_event-Keeps poll rules w ks p =
      Safe-bind (λ q. All (λ x. Keeps P x.0) q.0 × P q.1) Waited (prepare fds rules w) _
        (prepare_lem rules w ks p)
        (λ q (ks', p').
          Safe-if Waited (not (something_to_poll fds q.0)) _ _ (λ _. (rules_of_lem q.0 ks', p'))
            (λ _.
              elim poll
                as (λ k. Safe Waited (elim k [
                  | none_ready ↦ ok (timeout, rules_of fds q.0, q.1)
                  | interrupted ↦ ok (exit, rules_of fds q.0, q.1)
                  | failed ↦ serve fds (λ fd d. nothing) q.0 q.1 >>= (λ z. ok (success, z.0, z.1))
                  | events revents ↦ serve fds revents q.0 q.1 >>= (λ z. ok (success, z.0, z.1))
                ])) [
                  | none_ready ↦ (rules_of_lem q.0 ks', p')
                  | interrupted ↦ (rules_of_lem q.0 ks', p')
                  | failed ↦ served_lem (λ fd d. nothing) q.0 q.1 success ks' p'
                  | events revents ↦ served_lem revents q.0 q.1 success ks' p'
                ]))
