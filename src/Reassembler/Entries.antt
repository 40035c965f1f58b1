-- ===== src/Reassembler/Entries.antt =====
-- Lists of entries that hold disjoint slices of the stream, with a gap between any two.
use tcp_lab.Base.{
  ℕ, ◌+◌, ◌-◌, ◌≤◌, ◌<◌, ◌≡◌, refl, inl, inr, Bool, false, ◌&&◌, ◌||◌, leb, Bool-cases, ltb, ltb→lt,
  ltb→le, List, [], ◌∷◌, arith, ap, ◌∙◌, length,
}
use tcp_lab.Util.BufferList
use tcp_lab.Util.BufferList.View
use tcp_lab.Reassembler.{Entry, lower_bound, rejoin}
use tcp_lab.Reassembler.Stream.{slice, length-slice}

-- How many bytes an entry holds, and a list of entries.
abbrev pub len : Entry → ℕ
len e = e.end + 1 - e.start

abbrev pub total : List Entry → ℕ
total [] = 0
total (e ∷ es) = len e + total es

-- Whether the index lies in the entry, and in an entry of the list.
abbrev pub inside : Entry → ℕ → Bool
inside e i = leb e.start i && leb i e.end

abbrev pub covers : List Entry → ℕ → Bool
covers [] i = false
covers (e ∷ es) i = inside e i || covers es i

-- The keys next to a place that `lower_bound index` found.
abbrev pub KeyBelow : ℕ → List Entry → Type 0
KeyBelow index [] = Unit
KeyBelow index (e ∷ es) = e.start < index

abbrev pub KeyFrom : ℕ → List Entry → Type 0
KeyFrom index [] = Unit
KeyFrom index (e ∷ es) = index ≤ e.start

-- One past the end of the nearest entry before a place.
abbrev pub top : ℕ → List Entry → ℕ
top lo [] = lo
top lo (e ∷ es) = e.end + 1

module _ (stream : ℕ → ℕ) (limit : ℕ) where
  -- The entry holds the bytes of the stream from its key to its end, which is below the limit.
  pub record Holds (e : Entry) : Type 0 where
    pub ordered : e.start ≤ e.end
    pub below : e.end < limit
    pub content : BufferList.concatenate e.bytes ≡ slice stream e.start (len e)

  -- The entries from a place on: each begins past `lo`, where `lo` is one past the end of the
  -- entry before.
  abbrev pub Above : ℕ → List Entry → Type 0
  Above lo [] = Unit
  Above lo (e ∷ es) = (lo < e.start) × Holds e × Above (e.end + 1) es

  -- The entries before a place, nearest first.
  abbrev pub Before : ℕ → List Entry → Type 0
  Before lo [] = Unit
  Before lo (e ∷ es) = (top lo es < e.start) × Holds e × Before lo es

  pub size-Holds : (e : Entry) → Holds e → BufferList.size e.bytes ≡ len e
  size-Holds e h = View.size_lem e.bytes ∙ ap length h.content ∙ length-slice stream e.start (len e)

  pub Above-lower : (lo lo' : ℕ) (es : List Entry) → lo' ≤ lo → Above lo es → Above lo' es
  Above-lower lo lo' [] h a = tt
  Above-lower lo lo' (e ∷ es) h (g, k, a) = (omega arith, k, a)

  pub Before-le : (lo : ℕ) (es : List Entry) → Before lo es → lo ≤ top lo es
  Before-le lo [] b = omega arith
  Before-le lo (e ∷ es) (g, k, b) = omega (arith, Before-le lo es b, k.ordered)

  pub total-Before : (lo : ℕ) (es : List Entry) → Before lo es → total es + lo ≤ top lo es
  total-Before lo [] b = omega arith
  total-Before lo (e ∷ es) (g, k, b) = omega (arith, total-Before lo es b, k.ordered)

  pub total-Above : (lo : ℕ) (es : List Entry) → Above lo es → total es ≤ limit - lo
  total-Above lo [] a = omega arith
  total-Above lo (e ∷ es) (g, k, a) =
      omega (arith, total-Above (e.end + 1) es a, k.ordered, k.below)

  -- Nothing that lies above `lo` covers an index up to it.
  pub covers-Above : (lo i : ℕ) (es : List Entry) → Above lo es → i ≤ lo → covers es i ≡ false
  covers-Above lo i [] a h = refl
  covers-Above lo i (e ∷ es) (g, k, a) h =
      ground (arith, covers-Above (e.end + 1) i es a (omega (arith, k.ordered)))

  pub rejoin-Above :
      (lo : ℕ) (before after : List Entry)
      → Before lo before
      → Above (top lo before) after
      → Above lo (rejoin before after)
  unfolding rejoin
  rejoin-Above lo [] after b a = a
  rejoin-Above lo (e ∷ before) after (g, k, b) a = rejoin-Above lo before (e ∷ after) b (g, k, a)

  -- What `lower_bound` returns: the entries on either side, and their keys.
  pub record Splits (lo index : ℕ) (place : List Entry × List Entry) : Type 0 where
    pub before_ok : Before lo place.0
    pub after_ok : Above (top lo place.0) place.1
    pub below : KeyBelow index place.0
    pub above : KeyFrom index place.1

  pub lower_bound-Splits :
      (lo index : ℕ) (before es : List Entry)
      → Before lo before
      → Above (top lo before) es
      → KeyBelow index before
      → Splits lo index (lower_bound index before es)
  unfolding lower_bound
  lower_bound-Splits lo index before [] b a k = record {
    before_ok = b;
    after_ok = a;
    below = k;
    above = tt;
  }
  lower_bound-Splits lo index before (e ∷ es) b (g, h, a) k =
      elim (Bool-cases (ltb e.start index)) [
        | inl less ↦
            rw less (lower_bound-Splits lo index (e ∷ before) es (g, h, b) a (ltb→lt _ _ less))
        | inr more ↦
            rw more
              (record { before_ok = b; after_ok = (g, h, a); below = k; above = ltb→le _ _ more })
      ]

-- Which indices a place in the map covers, and how many bytes it holds.
pub covers-rejoin :
    (before after : List Entry) (i : ℕ)
    → covers (rejoin before after) i ≡ (covers before i || covers after i)
unfolding rejoin
covers-rejoin [] after i = refl
covers-rejoin (e ∷ before) after i = covers-rejoin before (e ∷ after) i ∙ ground arith

pub total-rejoin :
    (before after : List Entry) → total (rejoin before after) ≡ total before + total after
unfolding rejoin
total-rejoin [] after = omega arith
total-rejoin (e ∷ before) after = omega (arith, total-rejoin before (e ∷ after))

-- `lower_bound` only finds a place: the map is as before.
pub rejoin-lower_bound :
    (index : ℕ) (before es : List Entry)
    → let (b, a) = lower_bound index before es in rejoin b a ≡ rejoin before es
unfolding lower_bound rejoin
rejoin-lower_bound index before [] = refl
rejoin-lower_bound index before (e ∷ es) = ground (arith, rejoin-lower_bound index (e ∷ before) es)
