-- ===== src/Reassembler/Behind.antt =====
-- The read behind the end of the map in libsponge/stream_reassembler.cc: when it happens, and which
-- values of it do no harm.
use tcp_lab.Base.{ℕ, ◌+◌, ◌≤◌, ◌<◌, ◌≡◌, ◌≢◌, ap, Bool, true, false, List, [], ◌∷◌, arith, length}
use tcp_lab.Reassembler.{StreamReassembler, Entry, EndKey, lower_bound, rejoin}
use tcp_lab.Reassembler.Entries.{Before, KeyBelow, lower_bound-Splits, rejoin-lower_bound, top}
use tcp_lab.Reassembler.Flush.{limit_of, Inv}

-- The place is behind the last entry of a map that is not empty: only there the source reads
-- through `cend()`.
abbrev pub at_end : List Entry → List Entry → Bool
at_end [] after = false
at_end (e ∷ before) [] = true
at_end (e ∷ before) (x ∷ after) = false

-- So it is at the place that `lower_bound` finds for an index.
abbrev pub reads_end : ℕ → List Entry → Bool
reads_end index es = at_end (lower_bound index [] es).0 (lower_bound index [] es).1

-- Where an index above the number of entries is looked up and the read happens, it does not yield
-- this index.
abbrev pub Misses : EndKey → Type 0
Misses end_key =
    (es : List Entry) (index : ℕ)
    → reads_end index es ≡ true
    → length es < index
    → end_key es ≢ index

-- The value of libstdc++ is such a one.
pub length-Misses : Misses (λ es. length es)
length-Misses es index reads less same = omega arith

length-rejoin : (b a : List Entry) → length (rejoin b a) ≡ length b + length a
unfolding rejoin
length-rejoin [] a = omega arith
length-rejoin (e ∷ b) a = omega (arith, length-rejoin b (e ∷ a))

-- Between any two entries there is a gap, so that they begin above their number.
length-Before :
    (stream : ℕ → ℕ) (limit lo : ℕ) (b : List Entry)
    → Before stream limit lo b
    → length b ≤ top lo b
length-Before stream limit lo [] k = omega arith
length-Before stream limit lo (e ∷ b) (gap, h, k) =
    omega (arith, length-Before stream limit lo b k, h.ordered)

few_entries :
    (stream : ℕ → ℕ) (limit lo index : ℕ) (b a : List Entry)
    → Before stream limit lo b
    → KeyBelow index b
    → at_end b a ≡ true
    → length (rejoin b a) < index
few_entries stream limit lo index [] a k below e = cc
few_entries stream limit lo index (y ∷ b) (x ∷ a) k below e = cc
few_entries stream limit lo index (y ∷ b) [] (gap, h, k) below e =
    omega (arith, length-rejoin (y ∷ b) [], length-Before stream limit lo b k)

-- Between two calls of `push_substring` the read does no harm.
pub Inv-Misses :
    (stream : ℕ → ℕ) (end_key : EndKey) (r : StreamReassembler) (index : ℕ)
    → Misses end_key
    → Inv stream r
    → reads_end index r.unassembled ≡ true
    → end_key r.unassembled ≢ index
unfolding rejoin
Inv-Misses stream end_key r index misses v reads =
    let s =
      lower_bound-Splits stream (limit_of r.output) r.first_index index [] r.unassembled tt
        v.entries_ok tt in
    let p = lower_bound index [] r.unassembled in
    misses r.unassembled index reads (
      omega (
        arith,
        ap length (rejoin-lower_bound index [] r.unassembled),
        few_entries stream (limit_of r.output) r.first_index index p.0 p.1 s.before_ok s.below
            reads,
      ))
