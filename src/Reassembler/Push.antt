-- ===== src/Reassembler/Push.antt =====
-- `push_substring` of libsponge/stream_reassembler.cc, whatever the order of the substrings: it
-- keeps the bytes of the window that it is and writes those that have become contiguous.
use tcp_lab.Base.{
  true, ℕ, ◌+◌, ◌^◌, ◌≤◌, ◌<◌, ◌≡◌, ◌≢◌, ◌∙◌, sym, ap, subst, refl, Bool, ◌||◌, ltb, Bool-cases,
  inl, inr, List, [], arith, IsU64, ok,
}
use tcp_lab.Reassembler.{EndKey}
use tcp_lab.Reassembler.Behind.{reads_end}
use tcp_lab.Reassembler.{
  StreamReassembler, Entry, Piece, Spot, rejoin, lower_bound, settle, store, flush,
}
use tcp_lab.Reassembler.Entries.{
  total, inside, covers, Splits, lower_bound-Splits, rejoin-lower_bound, covers-rejoin,
  total-rejoin, total-Above, total-Before,
}
use tcp_lab.Reassembler.Trim.{IsPiece, within}
use tcp_lab.Reassembler.Merge.{Fits, Fits-top, Placed}
use tcp_lab.Reassembler.Place.{place_ok}
use tcp_lab.Reassembler.Absorb.{absorb_ok}
use tcp_lab.Reassembler.Flush.{limit_of, Inv, held, flush-Flushed}

-- What a step of the reassembler has done: the invariant, the same window, and more bytes held.
pub record Stored (stream : ℕ → ℕ) (r : StreamReassembler) (more : ℕ → Bool)
    (r' : StreamReassembler) : Type 0 where
  pub inv : Inv stream r'
  pub same_limit : limit_of r'.output ≡ limit_of r.output
  pub kept : (r'.eof ≡ r.eof) × (r'.eof_index ≡ r.eof_index) × (r'.eofed ≡ r.eofed)
  pub holds : (i : ℕ) → held r' i ≡ (held r i || more i)

assoc : (a b c : Bool) → (a || (b || c)) ≡ ((a || b) || c)
assoc a b c = ground arith

module _ (stream : ℕ → ℕ) (end_key : EndKey) (r : StreamReassembler) (v : Inv stream r)
    (window : limit_of r.output < 2 ^ 63) (p : Piece) (g : IsPiece stream (limit_of r.output) p)
    (low : r.first_index ≤ p.index)
    (past_end : reads_end p.index r.unassembled ≡ true → end_key r.unassembled ≢ p.index) where
  abbrev limit : ℕ
  limit = limit_of r.output

  abbrev spot_of : List Entry × List Entry
  spot_of = lower_bound p.index [] r.unassembled

  splits : Splits stream limit r.first_index p.index spot_of
  splits = lower_bound-Splits stream limit r.first_index p.index [] r.unassembled tt v.entries_ok tt

  whole : rejoin spot_of.0 spot_of.1 ≡ r.unassembled
  unfolding rejoin
  whole = rejoin-lower_bound p.index [] r.unassembled

  counted : r.unassembled_bytes ≡ total spot_of.0 + total spot_of.1
  counted = v.counted ∙ sym (ap total whole) ∙ total-rejoin spot_of.0 spot_of.1

  covered : (i : ℕ) → (covers spot_of.0 i || covers spot_of.1 i) ≡ covers r.unassembled i
  covered i = sym (covers-rejoin spot_of.0 spot_of.1 i) ∙ ap (λ es. covers es i) whole

  room : IsU64 (r.unassembled_bytes + p.len)
  room = omega (
    arith,
    v.counted,
    total-Above stream limit r.first_index r.unassembled v.entries_ok,
    g.ends,
    g.below,
  )

  module _ (s : Spot)
      (k : Placed stream limit r.first_index p g (omega arith) spot_of.0 spot_of.1 s) where
    small : IsU64 s.count
    small = omega (
      arith,
      k.counted,
      Fits-top r.first_index s.before s.entry.start k.fits,
      k.entry_ok.ordered,
      k.entry_ok.below,
      total-Before stream limit r.first_index s.before k.before_ok,
      total-Above stream limit s.entry.start s.after k.after_ok,
    )

    settle_ok : (r' : StreamReassembler) × (settle r s ≡ ok r') × Stored stream r (within p) r'
    unfolding settle
    settle_ok = elim (Bool-cases s.finish) [
      | inl done ↦
          let f =
            flush-Flushed stream r s.before s.entry s.after s.count v.output_ok v.ended
              (omega arith) k.before_ok k.entry_ok (k.settled done).0 k.fits k.counted small in
          (
            flush r s.before s.entry s.after s.count,
            rw done,
            record {
              inv = f.inv;
              same_limit = f.same_limit;
              kept = f.kept;
              holds = λ i. f.holds i ∙ more i _ refl;
            },
          )
      | inr going ↦
          let (t, e, a) =
            absorb_ok stream limit (omega arith) (total s.before) s.entry s.after s.count k.entry_ok
              k.after_ok k.counted small in
          let f =
            flush-Flushed stream r s.before t.0 t.1 t.2 v.output_ok v.ended (omega arith)
              k.before_ok a.entry_ok a.apart
              (subst (Fits r.first_index s.before) (sym a.start_kept) k.fits) a.counted
              (omega (
                arith,
                a.counted,
                a.entry_ok.ordered,
                a.entry_ok.below,
                a.start_kept,
                Fits-top r.first_index s.before s.entry.start k.fits,
                total-Before stream limit r.first_index s.before k.before_ok,
                total-Above stream limit (t.0.end + 1) t.1 a.apart,
              )) in
          (
            flush r s.before t.0 t.1 t.2,
            rw (going, e),
            record {
              inv = f.inv;
              same_limit = f.same_limit;
              kept = f.kept;
              holds = λ i. f.holds i ∙ more i _ (a.covered i);
            },
          )
    ]
      where
        more :
            (i : ℕ) (m : Bool)
            → m ≡ (inside s.entry i || covers s.after i)
            → (ltb i r.first_index || (covers s.before i || m)) ≡ (held r i || within p i)
        more i m h =
            ap (λ b. ltb i r.first_index || (covers s.before i || b)) h
            ∙ ap (λ b. ltb i r.first_index || b)
                (k.covered i ∙ ap (λ b. b || within p i) (covered i))
            ∙ assoc (ltb i r.first_index) (covers r.unassembled i) (within p i)

  pub store_ok :
      (r' : StreamReassembler) × (store end_key r p ≡ ok r') × Stored stream r (within p) r'
  unfolding store
  store_ok =
      let (s, e, k) =
        place_ok stream limit r.first_index p g (omega arith) (end_key r.unassembled)
          r.unassembled_bytes room spot_of.0 spot_of.1 splits.before_ok splits.after_ok splits.below
          splits.above low counted past_end in
      let (r', e', t) = settle_ok s k in (r', rw e e', t)
