-- ===== src/Reassembler/Merge.antt =====
-- What `push_substring` of libsponge/stream_reassembler.cc makes of a piece at a place of the map: a
-- new entry, or a longer one, or nothing new.
use tcp_lab.Base.{
  ℕ, ◌+◌, ◌-◌, ◌≤◌, ◌<◌, ◌≡◌, ◌∙◌, ap, ap₂, Bool, true, false, ◌&&◌, ◌||◌, leb, ◌==◌, Bool-cases,
  leb→le, leb→lt, ◌⊎◌, inl, inr, List, [], ◌∷◌, ◌++◌, none, some, arith, length, drop, add64, sub64,
  IsU64, ok,
}
use tcp_lab.Util.BufferList
use tcp_lab.Util.BufferList.{BufferList}
use tcp_lab.Util.BufferList.View
use tcp_lab.Reassembler.{Entry, Piece, Spot, insert, extend}
use tcp_lab.Reassembler.Stream.{slice, length-slice, drop-slice, slice-append}
use tcp_lab.Reassembler.Entries.{len, total, inside, covers, Holds, Above, Above-lower, top, Before}
use tcp_lab.Reassembler.Trim.{IsPiece, within}

-- The place is free for an entry with this key: past the entries before it, with a gap.
abbrev pub Fits : ℕ → List Entry → ℕ → Type 0
Fits lo [] start = lo ≤ start
Fits lo (e ∷ es) start = e.end + 1 < start

pub Fits-top : (lo : ℕ) (es : List Entry) (start : ℕ) → Fits lo es start → top lo es ≤ start
Fits-top lo [] start f = f
Fits-top lo (e ∷ es) start f = omega arith

-- An interval, and one that begins at most one past its end and ends no earlier, joined.
join_intervals :
    (s e m t i : ℕ)
    → s ≤ m
    → m ≤ e + 1
    → e ≤ t
    → (leb s i && leb i t) ≡ ((leb s i && leb i e) || (leb m i && leb i t))
join_intervals s e m t i h1 h2 h3 = ground arith

add_middle : (b x y a w : Bool) → x ≡ (y || w) → (b || (x || a)) ≡ ((b || (y || a)) || w)
add_middle b x y a w h = ground arith

module _ (stream : ℕ → ℕ) (limit lo : ℕ) (p : Piece) (g : IsPiece stream limit p)
    (word : IsU64 (limit + 1)) where
  -- The place `s` that was found in the map with `b` before the piece and `a` from it on.
  pub record Placed (b a : List Entry) (s : Spot) : Type 0 where
    pub before_ok : Before stream limit lo s.before
    pub fits : Fits lo s.before s.entry.start
    pub entry_ok : Holds stream limit s.entry
    pub after_ok : Above stream limit s.entry.start s.after
    pub counted : s.count ≡ total s.before + (len s.entry + total s.after)
    pub covered :
        (i : ℕ)
        → (covers s.before i || (inside s.entry i || covers s.after i))
          ≡ ((covers b i || covers a i) || within p i)
    pub settled :
        s.finish ≡ true
        → Above stream limit (s.entry.end + 1) s.after × (top lo s.before < s.entry.start)

  fresh : Entry
  fresh = record { start = p.index; end = p.end; bytes = p.buf }

  fresh-Holds : Holds stream limit fresh
  unfolding fresh
  fresh-Holds = record {
    ordered = omega (arith, g.ends, g.some_bytes);
    below = g.below;
    content = g.content ∙ ap (slice stream p.index) (omega (arith, g.ends));
  }

  size_piece : BufferList.size p.buf ≡ p.len
  size_piece = View.size_lem p.buf ∙ ap length g.content ∙ length-slice stream p.index p.len

  module _ (b : List Entry) (hb : Before stream limit lo b) (free : Fits lo b p.index)
      (count : ℕ) where
    pub insert-Placed :
        (a : List Entry)
        → Above stream limit p.index a
        → count ≡ total b + total a
        → IsU64 (count + p.len)
        → Placed b a (insert p b a count)
    unfolding insert fresh
    insert-Placed [] ha hc small = record {
      before_ok = hb;
      fits = free;
      entry_ok = fresh-Holds;
      after_ok = tt;
      counted = omega (arith, size_piece, g.ends);
      covered = λ i. ground arith;
      settled = λ e. cc;
    }
    insert-Placed (x ∷ a) (gap, hx, ha) hc small =
        let apart : (x.start == p.index) ≡ false = ground arith in
        rw apart (record {
          before_ok = hb;
          fits = free;
          entry_ok = fresh-Holds;
          after_ok = (gap, hx, ha);
          counted = omega (arith, size_piece, g.ends);
          covered = λ i. ground arith;
          settled = λ e. cc;
        })

  module _ (before : List Entry) (e : Entry) (after : List Entry) (count : ℕ)
      (hb : Before stream limit lo before) (gap : top lo before < e.start)
      (he : Holds stream limit e) (ha : Above stream limit (e.end + 1) after)
      (hc : count ≡ total before + (len e + total after)) (key : e.start ≤ p.index)
      (small : IsU64 (count + p.len)) where
    free_before : (es : List Entry) → top lo es < e.start → Fits lo es e.start
    free_before [] h = omega arith
    free_before (x ∷ es) h = h

    -- The overlap, as the source computes it.
    overlap : p.index ≤ e.end + 1 → add64 (sub64 e.end p.index) 1 ≡ e.end + 1 - p.index
    overlap h = omega (arith, he.below)

    covered_spot : Spot
    covered_spot = record {
      before = before;
      entry = e;
      after = after;
      count = count;
      finish = true;
    }

    covered_spot-Placed : p.end ≤ e.end → Placed before (e ∷ after) covered_spot
    unfolding covered_spot
    covered_spot-Placed h = record {
      before_ok = hb;
      fits = free_before before gap;
      entry_ok = he;
      after_ok = Above-lower stream limit (e.end + 1) e.start after (omega (arith, he.ordered)) ha;
      counted = hc;
      covered = λ i. ground arith;
      settled = λ _. (ha, gap);
    }

    merged_spot : BufferList → Spot
    merged_spot buf = record {
      before = before;
      entry = record e { end = p.end; bytes = BufferList.append e.bytes buf };
      after = after;
      count = add64 count (BufferList.size buf);
      finish = false;
    }

    module _ (buf : BufferList) (touches : p.index ≤ e.end + 1) (longer : e.end < p.end)
        (rest : BufferList.concatenate buf
          ≡ drop (e.end + 1 - p.index) (BufferList.concatenate p.buf)) where
      rest_slice : BufferList.concatenate buf ≡ slice stream (e.start + len e) (p.end - e.end)
      rest_slice =
          rest
          ∙ ap (drop (e.end + 1 - p.index)) g.content
          ∙ drop-slice stream (e.end + 1 - p.index) p.index p.len
          ∙ ap₂ (slice stream) (omega (arith, he.ordered)) (omega (arith, g.ends))

      merged-Holds : Holds stream limit (merged_spot buf).entry
      unfolding merged_spot
      merged-Holds = record {
        ordered = omega (arith, he.ordered);
        below = g.below;
        content =
            View.concatenate-append e.bytes buf
            ∙ ap₂ ◌++◌ he.content rest_slice
            ∙ slice-append stream e.start (len e) (p.end - e.end)
            ∙ ap (slice stream e.start) (omega (arith, he.ordered));
      }

      merged-Placed : Placed before (e ∷ after) (merged_spot buf)
      unfolding merged_spot
      merged-Placed =
          let size_rest : BufferList.size buf ≡ p.end - e.end =
            View.size_lem buf ∙ ap length rest_slice ∙ length-slice stream _ _ in
          record {
            before_ok = hb;
            fits = free_before before gap;
            entry_ok = merged-Holds;
            after_ok =
                Above-lower stream limit (e.end + 1) e.start after (omega (arith, he.ordered)) ha;
            counted = omega (arith, size_rest, he.ordered, g.ends);
            covered = λ i.
                add_middle (covers before i) _ (inside e i) (covers after i) (within p i)
                  (join_intervals e.start e.end p.index p.end i key touches (omega arith));
            settled = λ t. cc;
          }

    -- The three outcomes: the piece is covered, or it is appended, or it lies apart.
    pub extend_cases :
        ((s : Spot) × (extend p before e after count ≡ ok (some s)) × Placed before (e ∷ after) s)
        ⊎ ((extend p before e after count ≡ ok none) × (e.end + 1 < p.index))
    unfolding extend covered_spot merged_spot
    extend_cases = elim (Bool-cases (leb p.index (add64 e.end 1))) [
      | inr apart ↦ inr (rw apart, omega (arith, he.below, leb→lt _ _ apart))
      | inl touches ↦
          let near : p.index ≤ e.end + 1 = omega (arith, he.below, leb→le _ _ touches) in
          let olap = add64 (sub64 e.end p.index) 1 in
          elim (Bool-cases (leb p.len olap)) [
            | inl done ↦ inl (
              covered_spot,
              rw (touches, done),
              covered_spot-Placed (omega (arith, overlap near, leb→le _ _ done, g.ends)),
            )
            | inr more ↦
                let longer : e.end < p.end = omega (arith, overlap near, leb→lt _ _ more, g.ends) in
                let (buf, r, c) =
                  View.remove_prefix_ok p.buf olap (omega (arith, size_piece, leb→lt _ _ more)) in
                inl (
                  merged_spot buf,
                  rw (touches, more, r),
                  merged-Placed buf near longer
                      (c ∙ ap (λ k. drop k (BufferList.concatenate p.buf)) (overlap near)),
                )
          ]
    ]
