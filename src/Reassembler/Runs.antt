-- ===== src/Reassembler/Runs.antt =====
-- Whole runs of `push_substring` (libsponge/stream_reassembler.cc), with reads of the output in
-- between: what is assembled does not depend on the order of the substrings, on how they overlap
-- or on how often each comes.
use tcp_lab.Base.{
  ℕ, ◌+◌, ◌^◌, ◌≤◌, ◌<◌, ◌≡◌, refl, sym, ◌∙◌, ap, ap₂, Bool, true, false, ◌&&◌, ◌||◌, ◌==◌, List,
  [], ◌∷◌, ◌++◌, All, arith, length, ok,
}
use tcp_lab.Reassembler.{EndKey}
use tcp_lab.Reassembler.Behind.{Misses}
use tcp_lab.ByteStream.Laws.{contents}
use tcp_lab.Reassembler.Stream.{slice, slice-append}
use tcp_lab.Reassembler.Trim.{offered}
use tcp_lab.Reassembler.Flush.{held}
use tcp_lab.Reassembler.Window.{first-missing}
use tcp_lab.Reassembler.Events.{Event, push, get, Trace, run, started, any_offers, any_ends, IsCut}
use tcp_lab.Reassembler.Collected.{
  Collected, Collected-same, push_step, get_step, started-Collected,
}

or_assoc : (a b c : Bool) → ((a || b) || c) ≡ (a || (b || c))
or_assoc a b c = ground arith

module _ (stream : ℕ → ℕ) (n capacity : ℕ) (fits : n ≤ capacity) (word : n + capacity < 2 ^ 63)
    (end_key : EndKey) (past : Misses end_key) where
  run_lem :
      (seen : ℕ → Bool) (e : Bool) (t : Trace) (xs : List Event)
      → Collected stream n capacity fits word end_key past seen e t
      → All (IsCut stream n) xs
      → (u : Trace) × (run end_key t xs ≡ ok u)
        × Collected stream n capacity fits word end_key past
            (λ i. seen i || any_offers xs i)
            (e || any_ends xs)
            u
  unfolding run
  run_lem seen e t [] c a = (
    t,
    refl,
    Collected-same stream n capacity fits word end_key past seen _ e _ t (λ i. ground arith)
        (ground arith) c,
  )
  run_lem seen e t (push bytes index eof ∷ xs) c (p, a) =
      let (u, s, k) =
        push_step stream n capacity fits word end_key past seen e t c bytes index eof p in
      let (z, s', k') = run_lem (λ i. seen i || offered index bytes i) (e || eof) u xs k a in
      (
        z,
        rw s s',
        Collected-same stream n capacity fits word end_key past _ _ _ _ z
            (λ i. or_assoc (seen i) (offered index bytes i) (any_offers xs i))
            (or_assoc e eof (any_ends xs)) k',
      )
  run_lem seen e t (get k ∷ xs) c (p, a) =
      let (u, s, k) = get_step stream n capacity fits word end_key past seen e t c k in
      let (z, s', k') = run_lem seen e u xs k a in (z, rw s s', k')

-- What the client has after the events: the stream up to the first byte that none of them had.
pub record Assembled (stream : ℕ → ℕ) (n : ℕ) (xs : List Event) (t : Trace) : Type 0 where
  pub in_order : t.out ++ contents t.reassembler.output ≡ slice stream 0 t.reassembler.first_index
  pub all_before : (i : ℕ) → i < t.reassembler.first_index → any_offers xs i ≡ true
  pub missing : any_offers xs t.reassembler.first_index ≡ false
  pub stored : (i : ℕ) → held t.reassembler i ≡ any_offers xs i
  pub ended : t.reassembler.eofed ≡ (any_ends xs && t.reassembler.first_index == n)

-- Let a reassembler have room for a stream of `n` bytes. Whatever pieces of the stream come, in
-- whatever order, however they overlap and however often each of them comes, and whatever the
-- client reads in between, no call throws. At the end the bytes that were read, and then those that
-- wait in the output, are the stream up to the first byte that no piece had; exactly the bytes that
-- some piece had are assembled or stored; and the stream has ended exactly if some piece was marked
-- as its end and no byte is missing. Where an index above the number
-- of stored entries is looked up, a read behind the end of the map does not yield this index: that
-- of libstdc++, which yields the number of entries, does not.
pub run_collects :
    (stream : ℕ → ℕ) (n capacity : ℕ) (end_key : EndKey) (xs : List Event)
    → n ≤ capacity
    → n + capacity < 2 ^ 63
    → Misses end_key
    → All (IsCut stream n) xs
    → (t : Trace) × (run end_key (started capacity) xs ≡ ok t) × Assembled stream n xs t
run_collects stream n capacity end_key xs fits word past cuts =
    let (t, e, c) =
      run_lem stream n capacity fits word end_key past (λ i. false) false (started capacity) xs
        (started-Collected stream n capacity fits word end_key past) cuts in
    let k = c.inv.output_ok in
    let r = t.reassembler in
    let from_zero : r.output.read_count ≡ 0 + r.output.read_count = omega arith in
    let count : r.output.read_count + length (contents r.output) ≡ r.first_index =
      omega (arith, k.wrote, k.valid.counted) in
    (
      t,
      e,
      record {
        in_order =
            ap₂ ◌++◌ c.out_ok
              (k.content ∙ ap (λ j. slice stream j (length (contents r.output))) from_zero)
            ∙ slice-append stream 0 r.output.read_count (length (contents r.output))
            ∙ ap (slice stream 0) count;
        all_before = λ i h. ground (arith, c.holds i, h);
        missing = sym (c.holds r.first_index) ∙ first-missing stream r c.inv;
        stored = c.holds;
        ended = ground (arith, c.ended, c.noted, c.last);
      },
    )
