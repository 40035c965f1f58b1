-- ===== src/Util/EventLoop.antt =====
-- libsponge/util/eventloop.hh and eventloop.cc: `EventLoop`. The callbacks of a rule are functions of
-- the state `W` that they share, in which `fds` finds the descriptors; they do not add rules. What
-- poll(2) answers is a parameter.
pub mod Quiet
pub mod Keeps
mod Tests
use tcp_lab.Base.{
  ℕ, Bool, true, false, not, ◌&&◌, ◌||◌, List, [], ◌∷◌, ◌++◌, ◌==◌, if◌then◌else◌, Result, ok,
  throw, runtime_error, ◌>>=◌,
}
use tcp_lab.Util.FileDescriptor.{FileDescriptor}

pub data Direction : Type 0 where
  in_ out : Direction

abbrev pub is_in : Direction → Bool
is_in in_ = true
is_in out = false

-- `EventLoop::Rule`
pub record Rule (W : Type 0) : Type 0 where
  pub fd : ℕ
  pub direction : Direction
  pub callback : W → Result W
  pub interest : W → Bool
  pub cancel : W → Result W

-- `EventLoop::Result`
pub data Outcome : Type 0 where
  success timeout exit : Outcome

-- `revents` of a `pollfd`: POLLERR or POLLNVAL, POLLHUP, POLLIN and POLLOUT.
pub record Revents : Type 0 where
  pub poll_error : Bool
  pub poll_hup : Bool
  pub poll_in : Bool
  pub poll_out : Bool

abbrev pub nothing : Revents
nothing = record { poll_error = false; poll_hup = false; poll_in = false; poll_out = false }

-- What poll(2) answers: 0, the error EINTR, another error, or the events of each descriptor that
-- it was asked about.
pub data Poll : Type 0 where
  none_ready interrupted failed : Poll
  events : (ℕ → Direction → Revents) → Poll

module _ {W : Type 0} (fds : W → ℕ → FileDescriptor) where
  -- `Rule::service_count()`
  unfoldable pub service_count : Rule W → W → ℕ
  service_count r w =
      if is_in r.direction then (fds w r.fd).read_count else (fds w r.fd).write_count

  -- `add_rule`
  unfoldable pub add_rule : List (Rule W) → Rule W → List (Rule W)
  add_rule rules r = rules ++ (r ∷ [])

  -- A rule whose descriptor is at its end, or closed.
  unfoldable pub ended : Rule W → W → Bool
  ended r w = (is_in r.direction && (fds w r.fd).eof) || (fds w r.fd).closed

  -- The first loop: the rules that are left, each with whether its events are asked for, and the
  -- state after the cancellations.
  unfoldable pub prepare : List (Rule W) → W → Result (List (Rule W × Bool) × W)
  unfolding ended
  prepare [] w = ok ([], w)
  prepare (r ∷ rules) w =
      let gone = r.cancel w >>= (λ w'. prepare rules w') in
      let kept = (do (rest, w') ← prepare rules w; ok ((r, r.interest w) ∷ rest, w')) in
      if ended r w then gone else kept

  -- `something_to_poll`
  unfoldable pub something_to_poll : List (Rule W × Bool) → Bool
  something_to_poll [] = false
  something_to_poll ((r, asked) ∷ rest) = asked || something_to_poll rest

  unfoldable pub rules_of : List (Rule W × Bool) → List (Rule W)
  rules_of [] = []
  rules_of ((r, asked) ∷ rest) = r ∷ rules_of rest

  -- `callback()`, and the test for a busy wait.
  unfoldable pub call : Rule W → W → Result W
  unfolding service_count
  call r w = do
    w' ← r.callback w
    if service_count r w == service_count r w' && r.interest w' then throw runtime_error else ok w'

  -- The loop over the results of poll.
  unfoldable pub serve :
      (ℕ → Direction → Revents) → List (Rule W × Bool) → W → Result (List (Rule W) × W)
  unfolding call
  serve revents [] w = ok ([], w)
  serve revents ((r, asked) ∷ rest) w =
      let e = revents r.fd r.direction in
      let ready = asked && (if is_in r.direction then e.poll_in else e.poll_out) in
      let cancelled = r.cancel w >>= (λ w'. serve revents rest w') in
      let called = (do w' ← call r w; (rules, w'') ← serve revents rest w'; ok (r ∷ rules, w'')) in
      let idle = (do (rules, w') ← serve revents rest w; ok (r ∷ rules, w')) in
      if e.poll_error
      then throw runtime_error
      else if e.poll_hup && (asked && not ready)
      then cancelled
      else if ready
      then called
      else idle

  -- An error of poll other than EINTR is caught and dropped: the `revents` are still 0.
  unfoldable pub wait_next_event : Poll → List (Rule W) → W → Result (Outcome × List (Rule W) × W)
  unfolding prepare something_to_poll rules_of serve
  wait_next_event poll rules w = do
    (polled, w') ← prepare rules w
    let served = λ (revents : ℕ → Direction → Revents). (do
      (left, w'') ← serve revents polled w'
      ok (success, left, w''))
    let answered : Result (Outcome × List (Rule W) × W) = elim poll [
      | none_ready ↦ ok (timeout, rules_of polled, w')
      | interrupted ↦ ok (exit, rules_of polled, w')
      | failed ↦ served (λ fd d. nothing)
      | events revents ↦ served revents
    ]
    if not (something_to_poll polled) then ok (exit, rules_of polled, w') else answered
