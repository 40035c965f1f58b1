-- ===== src/Reassembler/Absorb.antt =====
-- The merging loop of `push_substring`, and writing what has become contiguous.
use tcp_lab.Base.{
  ℕ, ◌+◌, ◌-◌, ◌≤◌, ◌<◌, ◌≡◌, ◌∙◌, ap, ap₂, refl, Bool, ◌&&◌, ◌||◌, leb, Bool-cases, leb→le, leb→lt,
  inl, inr, List, [], ◌∷◌, ◌++◌, arith, drop, add64, sub64, IsU64, ok,
}
use tcp_lab.Util.BufferList
use tcp_lab.Util.BufferList.{BufferList}
use tcp_lab.Util.BufferList.View
use tcp_lab.Reassembler.{Entry, absorb}
use tcp_lab.Reassembler.Stream.{slice, drop-slice, slice-append}
use tcp_lab.Reassembler.Entries.{len, total, inside, covers, Holds, Above, Above-lower, size-Holds}

-- An interval, and one that ends in it, or that reaches past its end.
swallow :
    (s e m t i : ℕ) (r : Bool)
    → s ≤ m
    → t ≤ e
    → ((leb s i && leb i e) || r) ≡ ((leb s i && leb i e) || ((leb m i && leb i t) || r))
swallow s e m t i r h k = ground arith

bridge :
    (s e m t i : ℕ) (r : Bool)
    → s ≤ m
    → m ≤ e + 1
    → e < t
    → ((leb s i && leb i t) || r) ≡ ((leb s i && leb i e) || ((leb m i && leb i t) || r))
bridge s e m t i r h k l = ground arith

module _ (stream : ℕ → ℕ) (limit : ℕ) (word : IsU64 (limit + 1)) where
  -- What the loop makes of the entry `x`, the entries `ys` behind it and the count of `rest` bytes
  -- elsewhere: the same indices are covered, and the entries lie apart.
  pub record Absorbed (rest : ℕ) (x : Entry) (ys : List Entry) (t : Entry × List Entry × ℕ)
      : Type 0 where
    pub start_kept : t.0.start ≡ x.start
    pub entry_ok : Holds stream limit t.0
    pub apart : Above stream limit (t.0.end + 1) t.1
    pub counted : t.2 ≡ rest + (len t.0 + total t.1)
    pub covered : (i : ℕ) → (inside t.0 i || covers t.1 i) ≡ (inside x i || covers ys i)

  module _ (x y : Entry) (hx : Holds stream limit x) (hy : Holds stream limit y)
      (key : x.start < y.start) (touches : y.start ≤ x.end + 1) (longer : x.end < y.end) where
    joined : BufferList → Entry
    joined buf = record x { end = y.end; bytes = BufferList.append x.bytes buf }

    joined-Holds :
        (buf : BufferList)
        → BufferList.concatenate buf ≡ drop (x.end + 1 - y.start) (BufferList.concatenate y.bytes)
        → Holds stream limit (joined buf)
    unfolding joined
    joined-Holds buf c =
        let rest : BufferList.concatenate buf ≡ slice stream (x.start + len x) (y.end - x.end) =
          c
          ∙ ap (drop (x.end + 1 - y.start)) hy.content
          ∙ drop-slice stream (x.end + 1 - y.start) y.start (len y)
          ∙ ap₂ (slice stream) (omega (arith, hx.ordered)) (omega (arith, hy.ordered)) in
        record {
          ordered = omega (arith, hx.ordered);
          below = hy.below;
          content =
              View.concatenate-append x.bytes buf
              ∙ ap₂ ◌++◌ hx.content rest
              ∙ slice-append stream x.start (len x) (y.end - x.end)
              ∙ ap (slice stream x.start) (omega (arith, hx.ordered));
        }

  pub absorb_ok :
      (rest : ℕ) (x : Entry) (ys : List Entry) (count : ℕ)
      → Holds stream limit x
      → Above stream limit x.start ys
      → count ≡ rest + (len x + total ys)
      → IsU64 count
      → (t : Entry × List Entry × ℕ) × (absorb x ys count ≡ ok t) × Absorbed rest x ys t
  unfolding absorb joined
  absorb_ok rest x [] count hx a hc small = (
    (x, [], count),
    refl,
    record { start_kept = refl; entry_ok = hx; apart = tt; counted = hc; covered = λ i. refl },
  )
  absorb_ok rest x (y ∷ ys) count hx (key, hy, a) hc small = elim (Bool-cases (leb y.end x.end)) [
    | inl gone ↦
        let size = size-Holds stream limit y hy in
        let (t, e, k) =
          absorb_ok rest x ys (sub64 count (BufferList.size y.bytes)) hx
            (Above-lower stream limit (y.end + 1) x.start ys (omega (arith, hy.ordered)) a)
            (omega arith) (omega arith) in
        (
          t,
          rw gone e,
          record {
            start_kept = k.start_kept;
            entry_ok = k.entry_ok;
            apart = k.apart;
            counted = k.counted;
            covered = λ i.
                k.covered i
                ∙ swallow x.start x.end y.start y.end i (covers ys i) (omega arith)
                    (leb→le _ _ gone);
          },
        )
    | inr past ↦ elim (Bool-cases (leb y.start (add64 x.end 1))) [
      | inl near ↦
          let longer : x.end < y.end = leb→lt _ _ past in
          let touches : y.start ≤ x.end + 1 = omega (arith, hx.below, leb→le _ _ near) in
          let olap = add64 (sub64 x.end y.start) 1 in
          let overlap : olap ≡ x.end + 1 - y.start = omega (arith, hx.below) in
          let (buf, r, c) =
            View.remove_prefix_ok y.bytes olap
              (omega (arith, overlap, size-Holds stream limit y hy)) in
          (
            (joined x y hx hy key touches longer buf, ys, sub64 count olap),
            rw (past, near, r),
            record {
              start_kept = refl;
              entry_ok =
                  joined-Holds x y hx hy key touches longer buf
                    (c ∙ ap (λ k. drop k (BufferList.concatenate y.bytes)) overlap);
              apart = a;
              counted = omega (arith, overlap, hx.ordered, hy.ordered);
              covered = λ i.
                  bridge x.start x.end y.start y.end i (covers ys i) (omega arith) touches longer;
            },
          )
      | inr far ↦ (
        (x, y ∷ ys, count),
        rw (past, far),
        record {
          start_kept = refl;
          entry_ok = hx;
          apart = (omega (arith, hx.below, leb→lt _ _ far), hy, a);
          counted = hc;
          covered = λ i. refl;
        },
      )
    ]
  ]
