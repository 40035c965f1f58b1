-- ===== src/Util/EventLoop/Quiet.antt =====
-- `wait_next_event` of libsponge/util/eventloop.cc where nothing is ready.
use tcp_lab.Base.{
  ℕ, ◌≡◌, refl, sym, ◌∙◌, ap, Bool, true, false, ◌&&◌, ◌||◌, List, [], ◌∷◌, if◌then◌else◌, All,
  if_false, Bool-cases, inl, inr, ok,
}
use tcp_lab.Util.FileDescriptor.{FileDescriptor}
use tcp_lab.Util.EventLoop.{
  Direction, in_, out, is_in, Rule, Outcome, success, timeout, exit, Revents, nothing, Poll,
  none_ready, interrupted, failed, events, ended, prepare, something_to_poll, rules_of, serve,
  wait_next_event,
}

never_ready : (b : Bool) (d : Direction) → (b && (if is_in d then false else false)) ≡ false
never_ready true in_ = refl
never_ready true out = refl
never_ready false d = refl

-- Poll reports no event.
abbrev pub Silent : Poll → Type 0
Silent (events revents) = (fd : ℕ) (d : Direction) → revents fd d ≡ nothing
Silent poll = Unit {0}

-- What `wait_next_event` returns for each answer of poll.
abbrev pub outcome : Bool → Poll → Outcome
outcome false poll = exit
outcome true none_ready = timeout
outcome true interrupted = exit
outcome true failed = success
outcome true (events revents) = success

module _ {W : Type 0} (fds : W → ℕ → FileDescriptor) (w : W) where
  -- Each rule with whether it is interested.
  abbrev asked_of : List (Rule W) → List (Rule W × Bool)
  asked_of [] = []
  asked_of (r ∷ rules) = (r, r.interest w) ∷ asked_of rules

  abbrev pub some_interested : List (Rule W) → Bool
  some_interested [] = false
  some_interested (r ∷ rules) = r.interest w || some_interested rules

  prepare_lem :
      (rules : List (Rule W))
      → All (λ r. ended fds r w ≡ false) rules
      → prepare fds rules w ≡ ok (asked_of rules, w)
  unfolding prepare
  prepare_lem [] live = refl
  prepare_lem (r ∷ rules) (live, lives) =
      if_false (ended fds r w) _ _ live ∙ rw (prepare_lem rules lives) refl

  something_lem :
      (rules : List (Rule W)) → something_to_poll fds (asked_of rules) ≡ some_interested rules
  unfolding something_to_poll
  something_lem [] = refl
  something_lem (r ∷ rules) = ap (λ b. r.interest w || b) (something_lem rules)

  rules_lem : (rules : List (Rule W)) → rules_of fds (asked_of rules) ≡ rules
  unfolding rules_of
  rules_lem [] = refl
  rules_lem (r ∷ rules) = ap (λ k. r ∷ k) (rules_lem rules)

  serve_quiet :
      (revents : ℕ → Direction → Revents)
      → ((fd : ℕ) (d : Direction) → revents fd d ≡ nothing)
      → (rules : List (Rule W)) → serve fds revents (asked_of rules) w ≡ ok (rules, w)
  unfolding serve
  serve_quiet revents silent [] = refl
  serve_quiet revents silent (r ∷ rules) = rw (silent r.fd r.direction) (
      if_false _ _ _ (never_ready (r.interest w) r.direction)
      ∙ rw (serve_quiet revents silent rules) refl)

  -- Nothing to poll for.
  quiet_exit :
      (rules : List (Rule W)) (poll : Poll)
      → All (λ r. ended fds r w ≡ false) rules
      → some_interested rules ≡ false
      → wait_next_event fds poll rules w ≡ ok (exit, rules, w)
  unfolding wait_next_event
  quiet_exit rules poll live n =
      rw (prepare_lem rules live, something_lem rules, rules_lem rules, n, wait_next_event) refl

  -- An answer of poll whose events are served.
  quiet_served :
      (rules : List (Rule W)) (revents : ℕ → Direction → Revents)
      → All (λ r. ended fds r w ≡ false) rules
      → some_interested rules ≡ true
      → ((fd : ℕ) (d : Direction) → revents fd d ≡ nothing)
      → wait_next_event fds (events revents) rules w ≡ ok (success, rules, w)
  unfolding wait_next_event
  quiet_served rules revents live y silent =
      rw
        (
          prepare_lem rules live,
          something_lem rules,
          rules_lem rules,
          serve_quiet revents silent rules,
          y,
          wait_next_event,
        )
        refl

  quiet_asked :
      (rules : List (Rule W)) (poll : Poll)
      → All (λ r. ended fds r w ≡ false) rules
      → some_interested rules ≡ true
      → Silent poll
      → wait_next_event fds poll rules w ≡ ok (outcome true poll, rules, w)
  unfolding wait_next_event
  quiet_asked rules none_ready live y s =
      rw (prepare_lem rules live, something_lem rules, rules_lem rules, y, wait_next_event) refl
  quiet_asked rules interrupted live y s =
      rw (prepare_lem rules live, something_lem rules, rules_lem rules, y, wait_next_event) refl
  quiet_asked rules failed live y s = quiet_served rules (λ fd d. nothing) live y (λ fd d. refl)
  quiet_asked rules (events revents) live y s = quiet_served rules revents live y s

-- Where no rule's descriptor is at its end or closed, and poll reports no event, no call is made,
-- whether poll runs into its timeout, is interrupted by a signal, fails otherwise or reports
-- nothing: the rules and the state stay as they are. The result is Exit if no rule is interested or
-- poll was interrupted, and Timeout if its time was up; but Success, and no exception, if it failed.
pub wait_next_event_quiet :
    {W : Type 0} (fds : W → ℕ → FileDescriptor) (rules : List (Rule W)) (w : W) (poll : Poll)
    → All (λ r. ended fds r w ≡ false) rules
    → Silent poll
    → wait_next_event fds poll rules w ≡ ok (outcome (some_interested fds w rules) poll, rules, w)
wait_next_event_quiet fds rules w poll live silent =
    elim (Bool-cases (some_interested fds w rules)) [
      | inl y ↦
          quiet_asked fds w rules poll live y silent
          ∙ ap (λ b. ok (outcome b poll, rules, w)) (sym y)
      | inr n ↦ quiet_exit fds w rules poll live n ∙ ap (λ b. ok (outcome b poll, rules, w)) (sym n)
    ]
