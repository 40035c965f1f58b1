-- ===== src/Reassembler/Flush.antt =====
-- Writing the entry that begins at the first missing index to the output.
use tcp_lab.Base.{
  ℕ, ◌+◌, ◌≤◌, ◌<◌, ◌≡◌, ◌∙◌, ap, ap₂, subst, refl, Bool, ◌||◌, ltb, Bool-cases, ==→eq, ==→ne, ◌==◌,
  ◌≢◌, sym, inl, inr, List, [], ◌∷◌, ◌++◌, arith, length, take_all, add64, sub64, IsU64,
}
use tcp_lab.Util.BufferList
use tcp_lab.ByteStream
use tcp_lab.ByteStream.{ByteStream}
use tcp_lab.ByteStream.Laws.{contents, IsValid, write_lem}
use tcp_lab.Reassembler.{StreamReassembler, Entry, flush, rejoin}
use tcp_lab.Reassembler.Stream.{slice, length-slice, slice-append}
use tcp_lab.Reassembler.Entries.{
  len, total, inside, covers, Holds, Above, Before, Before-le, top, size-Holds, rejoin-Above,
  covers-rejoin, total-rejoin,
}
use tcp_lab.Reassembler.Merge.{Fits}

-- One past the last index that the window of the output admits.
abbrev pub limit_of : ByteStream → ℕ
limit_of o = o.read_count + o.capacity

-- The output has received the stream up to `first`.
pub record OutputOk (stream : ℕ → ℕ) (o : ByteStream) (first : ℕ) : Type 0 where
  pub valid : IsValid o
  pub wrote : o.write_count ≡ first
  pub content : contents o ≡ slice stream o.read_count (length (contents o))

-- The state between two calls. The entries hold slices of the stream that lie past `first_index`,
-- in order, below the limit and with a gap between any two.
pub record Inv (stream : ℕ → ℕ) (r : StreamReassembler) : Type 0 where
  pub output_ok : OutputOk stream r.output r.first_index
  pub entries_ok : Above stream (limit_of r.output) r.first_index r.unassembled
  pub counted : r.unassembled_bytes ≡ total r.unassembled
  pub ended : r.output.input_ended_flag ≡ r.eofed

-- Whether the byte at an index has been assembled or is stored.
abbrev pub held : StreamReassembler → ℕ → Bool
held r i = ltb i r.first_index || covers r.unassembled i

module _ (stream : ℕ → ℕ) (o : ByteStream) (first n : ℕ) (k : OutputOk stream o first)
    (fits : first + n ≤ limit_of o) (word : IsU64 (limit_of o)) where
  abbrev written : ByteStream
  written = (ByteStream.write o (slice stream first n)).0

  -- All of a slice that the window admits is written.
  pub write_slice :
      OutputOk stream written (first + n)
      × (limit_of written ≡ limit_of o)
      × (written.input_ended_flag ≡ o.input_ended_flag)
  unfolding ByteStream.write
  write_slice =
      let count : length (slice stream first n) ≡ n = length-slice stream first n in
      let (m, c, w, v) =
        write_lem o (slice stream first n) k.valid (omega (arith, k.valid.counted, k.wrote)) in
      let all : (ByteStream.write o (slice stream first n)).1 ≡ n =
        m ∙ omega (arith, count, k.valid.counted, k.wrote, k.valid.fits) in
      let sum : contents written ≡ slice stream o.read_count (length (contents o) + n) =
        c
        ∙ ap₂ ◌++◌ k.content (
            take_all _ _ (omega (arith, count, all))
            ∙ ap (λ j. slice stream j n) (omega (arith, k.valid.counted, k.wrote)))
        ∙ slice-append stream o.read_count (length (contents o)) n in
      (
        record {
          valid = v;
          wrote = w ∙ omega (arith, all, k.wrote);
          content =
              sum
              ∙ ap (slice stream o.read_count) (
                  sym (ap length sum ∙ length-slice stream o.read_count (length (contents o) + n)));
        },
        refl,
        refl,
      )

module _ (stream : ℕ → ℕ) (r : StreamReassembler) (before : List Entry) (x : Entry)
    (after : List Entry) (count : ℕ) (k : OutputOk stream r.output r.first_index)
    (e : r.output.input_ended_flag ≡ r.eofed) (word : IsU64 (limit_of r.output))
    (hb : Before stream (limit_of r.output) r.first_index before)
    (hx : Holds stream (limit_of r.output) x)
    (ha : Above stream (limit_of r.output) (x.end + 1) after)
    (fits : Fits r.first_index before x.start) (hc : count ≡ total before + (len x + total after))
    (small : IsU64 count) where
  -- The state after `flush` is in order, and holds what the place held.
  pub record Flushed (r' : StreamReassembler) : Type 0 where
    pub inv : Inv stream r'
    pub same_limit : limit_of r'.output ≡ limit_of r.output
    pub kept : (r'.eof ≡ r.eof) × (r'.eof_index ≡ r.eof_index) × (r'.eofed ≡ r.eofed)
    pub holds :
        (i : ℕ)
        → held r' i ≡ (ltb i r.first_index || (covers before i || (inside x i || covers after i)))

  nothing-Before :
      (es : List Entry)
      → Before stream (limit_of r.output) r.first_index es
      → Fits r.first_index es x.start
      → x.start ≡ r.first_index
      → es ≡ []
  nothing-Before [] b f h = refl
  nothing-Before (y ∷ es) b f h =
      absurd (omega (arith, Before-le stream (limit_of r.output) r.first_index (y ∷ es) b))

  gap :
      (es : List Entry)
      → Fits r.first_index es x.start
      → x.start ≢ r.first_index
      → top r.first_index es < x.start
  gap [] f h = omega arith
  gap (y ∷ es) f h = f

  -- The case where the entry begins at the first missing index.
  assembled : StreamReassembler
  assembled = record r {
    output = (ByteStream.write r.output (slice stream r.first_index (len x))).0;
    unassembled = after;
    unassembled_bytes = sub64 count (len x);
    first_index = add64 r.first_index (len x);
  }

  assembled-Flushed : x.start ≡ r.first_index → before ≡ [] → Flushed assembled
  unfolding assembled
  assembled-Flushed here alone =
      let advance : add64 r.first_index (len x) ≡ r.first_index + len x =
        omega (arith, here, hx.ordered, hx.below) in
      let (ok', lim, flag) =
        write_slice stream r.output r.first_index (len x) k
          (omega (arith, here, hx.ordered, hx.below)) word in
      let next : x.end + 1 ≡ add64 r.first_index (len x) =
        omega (arith, here, hx.ordered, hx.below) in
      record {
        inv = record {
          output_ok = rw advance ok';
          entries_ok =
              subst (λ l. Above stream l (add64 r.first_index (len x)) after) (sym lim)
                (subst (λ j. Above stream (limit_of r.output) j after) next ha);
          counted = omega (arith, hc, ap total alone);
          ended = flag ∙ e;
        };
        same_limit = lim;
        kept = (refl, refl, refl);
        holds = λ i. held_joined i advance;
      }
    where
      held_joined :
          (i : ℕ)
          → add64 r.first_index (len x) ≡ r.first_index + len x
          → held assembled i
            ≡ (ltb i r.first_index || (covers before i || (inside x i || covers after i)))
      held_joined i advance = rw alone (ground (arith, here, hx.ordered, advance))

  pub flush-Flushed : Flushed (flush r before x after count)
  unfolding flush assembled rejoin
  flush-Flushed = elim (Bool-cases (x.start == r.first_index)) [
    | inl here ↦
        let at_first = ==→eq _ _ here in
        let alone = nothing-Before before hb fits at_first in
        let bytes : BufferList.concatenate x.bytes ≡ slice stream r.first_index (len x) =
          hx.content ∙ ap (λ j. slice stream j (len x)) at_first in
        rw (here, alone, bytes, size-Holds stream (limit_of r.output) x hx)
          (assembled-Flushed at_first alone)
    | inr there ↦ rw there (record {
      inv = record {
        output_ok = k;
        entries_ok =
            rejoin-Above stream (limit_of r.output) r.first_index before (x ∷ after) hb
              (gap before fits (==→ne _ _ there), hx, ha);
        counted = hc ∙ omega (arith, total-rejoin before (x ∷ after));
        ended = e;
      };
      same_limit = refl;
      kept = (refl, refl, refl);
      holds = λ i. ap (λ b. ltb i r.first_index || b) (covers-rejoin before (x ∷ after) i);
    })
  ]
