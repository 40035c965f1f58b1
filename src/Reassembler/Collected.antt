-- ===== src/Reassembler/Collected.antt =====
-- What a reassembler (libsponge/stream_reassembler.cc) has collected of a stream that fits into its
-- capacity: each event keeps it.
use tcp_lab.Base.{
  ℕ, ◌+◌, ◌^◌, ◌≤◌, ◌<◌, ◌≡◌, refl, sym, subst, ◌∙◌, ap, ap₂, Bool, true, false, ◌&&◌, ◌||◌, ltb,
  ◌==◌, Bool-cases, inl, inr, if_true, List, ◌++◌, arith, length, Ensures, ok, ◌>>=◌,
}
use tcp_lab.Reassembler.{EndKey}
use tcp_lab.Reassembler.Behind.{Misses, Inv-Misses}
use tcp_lab.ByteStream
use tcp_lab.Reassembler.{StreamReassembler, new, push_substring}
use tcp_lab.Reassembler.Stream.{slice, slice-append}
use tcp_lab.Reassembler.Trim.{offered}
use tcp_lab.Reassembler.Flush.{limit_of, Inv, held}
use tcp_lab.Reassembler.Ready.{from_index}
use tcp_lab.Reassembler.Window.{push_substring_window, new-Inv}
use tcp_lab.Reassembler.Reads.{SameReads, read-Inv, push_substring-SameReads}
use tcp_lab.Reassembler.Events.{push, get, Trace, step, started, IsCut}

module _ (stream : ℕ → ℕ) (n capacity : ℕ) (fits : n ≤ capacity) (word : n + capacity < 2 ^ 63)
    (end_key : EndKey) (past : Misses end_key) where
  -- The state once the bytes in `seen` have come, and the end if `e`.
  pub record Collected (seen : ℕ → Bool) (e : Bool) (t : Trace) : Type 0 where
    pub inv : Inv stream t.reassembler
    pub size : t.reassembler.output.capacity ≡ capacity
    pub out_ok : t.out ≡ slice stream 0 t.reassembler.output.read_count
    pub holds : (i : ℕ) → held t.reassembler i ≡ seen i
    pub small : (i : ℕ) → seen i ≡ true → i < n
    pub first_ok : t.reassembler.first_index ≤ n
    pub noted : t.reassembler.eof ≡ e
    pub last : t.reassembler.eof ≡ true → t.reassembler.eof_index ≡ n
    pub ended :
        t.reassembler.eofed
        ≡ (t.reassembler.eof && t.reassembler.first_index == t.reassembler.eof_index)

  module _ (seen : ℕ → Bool) (e : Bool) (t : Trace) (c : Collected seen e t) where
    abbrev r : StreamReassembler
    r = t.reassembler

    room : n ≤ limit_of r.output
    room = omega (arith, c.size)

    window : limit_of r.output < 2 ^ 63
    window = omega (arith, c.size, c.first_ok, c.inv.output_ok.wrote, c.inv.output_ok.valid.counted)

    pub get_step : (k : ℕ) → (u : Trace) × (step end_key t (get k) ≡ ok u) × Collected seen e u
    get_step k =
        let from_zero : r.output.read_count ≡ 0 + r.output.read_count = omega arith in
        let (bytes, o, read, inv, cut, reads, cap) = read-Inv stream r k c.inv in
        (
          record { out = t.out ++ bytes; reassembler = record r { output = o } },
          rw read refl,
          record {
            inv = inv;
            size = cap ∙ c.size;
            out_ok =
                ap₂ ◌++◌ c.out_ok (cut ∙ ap (λ j. slice stream j (length bytes)) from_zero)
                ∙ slice-append stream 0 r.output.read_count (length bytes)
                ∙ ap (slice stream 0) (sym reads);
            holds = c.holds;
            small = c.small;
            first_ok = c.first_ok;
            noted = c.noted;
            last = c.last;
            ended = c.ended;
          },
        )

    -- At the end of the stream all of it has been assembled.
    at_end : r.eofed ≡ true → (r.eof ≡ true) × (r.first_index ≡ n)
    at_end done = ground (arith, c.ended, c.last, done)

    push_ended :
        (bytes : List ℕ) (index : ℕ) (eof : Bool)
        → r.eofed ≡ true
        → push_substring end_key r bytes index eof ≡ ok r
    unfolding push_substring
    push_ended bytes index eof done = if_true _ _ _ done

    in_window :
        (bytes : List ℕ) (index : ℕ)
        → index + length bytes ≤ n
        → (i : ℕ)
        → (held r i || (offered index bytes i && ltb i (limit_of r.output)))
          ≡ (seen i || offered index bytes i)
    in_window bytes index inside i = ground (arith, c.holds i, room)

    pub push_step :
        (bytes : List ℕ) (index : ℕ) (eof : Bool)
        → IsCut stream n (push bytes index eof)
        → (u : Trace) × (step end_key t (push bytes index eof) ≡ ok u)
          × Collected (λ i. seen i || offered index bytes i) (e || eof) u
    push_step bytes index eof (inside, cut, last) = elim (Bool-cases r.eofed) [
      | inl done ↦
          let (noted, here) = at_end done in
          (
            t,
            ap (λ k. k >>= (λ r. ok (record t { reassembler = r })))
                (push_ended bytes index eof done),
            record {
              inv = c.inv;
              size = c.size;
              out_ok = c.out_ok;
              holds = λ i. ground (arith, c.holds i, inside, here);
              small = λ i h. ground (arith, c.small i, inside, h);
              first_ok = c.first_ok;
              noted = ground (arith, c.noted, noted);
              last = c.last;
              ended = c.ended;
            },
          )
      | inr running ↦
          let (r', pushed, x, noted, index') =
            push_substring_window stream end_key bytes index eof r c.inv window (omega arith) cut
              running (Inv-Misses stream end_key r (from_index r index) past c.inv) in
          let same =
            subst (Ensures (SameReads r)) pushed
              (push_substring-SameReads end_key r bytes index eof) in
          let holds : (i : ℕ) → held r' i ≡ (seen i || offered index bytes i) =
            λ i. x.holds i ∙ in_window bytes index inside i in
          let small : (i : ℕ) → (seen i || offered index bytes i) ≡ true → i < n =
            λ i h. ground (arith, c.small i, inside, h) in
          (
            record t { reassembler = r' },
            rw pushed refl,
            record {
              inv = x.inv;
              size = same.1 ∙ c.size;
              out_ok = c.out_ok ∙ ap (slice stream 0) (sym same.0);
              holds = holds;
              small = small;
              first_ok = ground (arith, small n, holds n);
              noted = noted ∙ ap (λ b. b || eof) c.noted;
              last = λ h. ground (arith, index', c.last, last, noted, h);
              ended = x.ended;
            },
          )
    ]

  pub Collected-same :
      (seen seen' : ℕ → Bool) (e e' : Bool) (t : Trace)
      → ((i : ℕ) → seen i ≡ seen' i)
      → e ≡ e'
      → Collected seen e t
      → Collected seen' e' t
  Collected-same seen seen' e e' t same same_end c = record {
    inv = c.inv;
    size = c.size;
    out_ok = c.out_ok;
    holds = λ i. c.holds i ∙ same i;
    small = λ i h. c.small i (same i ∙ h);
    first_ok = c.first_ok;
    noted = c.noted ∙ same_end;
    last = c.last;
    ended = c.ended;
  }

  pub started-Collected : Collected (λ i. false) false (started capacity)
  unfolding new ByteStream.new slice
  started-Collected =
      let (inv, none_held) = new-Inv stream capacity (omega arith) in
      record {
        inv = inv;
        size = refl;
        out_ok = refl;
        holds = none_held;
        small = λ i h. cc;
        first_ok = omega arith;
        noted = refl;
        last = λ h. cc;
        ended = refl;
      }
