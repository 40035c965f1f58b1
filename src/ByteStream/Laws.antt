-- ===== src/ByteStream/Laws.antt =====
-- A `ByteStream` of libsponge/byte_stream.cc is a bounded queue of bytes.
use tcp_lab.Base.{
  ℕ, zero, suc, ◌+◌, ◌-◌, ◌≤◌, ◌≡◌, refl, sym, ◌∙◌, ap, true, List, [], ◌∷◌, ◌++◌, append-nil,
  arith, min, ◌==◌, length, take, drop, length-take, length-append, length-drop, ok, IsU64,
  Bool-cases, ==→eq, inl, inr, add64, drop_all, take-append-drop, append_assoc, drop_exact, ltb,
  ltb→lt, ltb→le,
}
use tcp_lab.Util.BufferList
use tcp_lab.Util.BufferList.View
use tcp_lab.ByteStream.{ByteStream, write, pop_output, read, remaining_capacity}

-- The bytes that wait to be read.
abbrev pub contents : ByteStream → List ℕ
contents s = BufferList.concatenate s.buffer

-- The bytes that wait fit in the capacity, and the counters differ by their number; no counter
-- wraps.
pub record IsValid (s : ByteStream) : Type 0 where
  pub fits : length (contents s) ≤ s.capacity
  pub counted : s.write_count ≡ s.read_count + length (contents s)
  pub bounded : IsU64 s.write_count
  pub capacity_bounded : IsU64 s.capacity

pub remaining_lem :
    (s : ByteStream) → IsValid s → remaining_capacity s ≡ s.capacity - length (contents s)
unfolding remaining_capacity
remaining_lem s v = omega (arith, View.size_lem s.buffer)

take-of_empty : (n : ℕ) (xs : List ℕ) → (length xs == 0) ≡ true → take n xs ≡ []
take-of_empty zero [] e = refl
take-of_empty (suc n) [] e = refl
take-of_empty n (x ∷ xs) e = absurd (omega (arith, ==→eq _ _ e))

-- What `write` accepts, whatever the stream holds.
abbrev pub accepted : ByteStream → List ℕ → List ℕ
accepted s bytes = take (min (length bytes) (remaining_capacity s)) bytes

-- `write` appends the accepted bytes.
pub contents-write :
    (s : ByteStream) (bytes : List ℕ) → contents (write s bytes).0 ≡ contents s ++ accepted s bytes
unfolding write
contents-write s bytes = elim (Bool-cases (length bytes == 0)) [
  | inl e ↦ rw (e, take-of_empty _ bytes e) (sym (append-nil (contents s)))
  | inr e ↦ rw (e, View.concatenate-append, View.concatenate-of_string)
]

-- On a valid stream `write` returns the number of bytes that it took, which is as many as fit, and
-- keeps the stream valid as long as the count of bytes stays below 2 ^ 64.
pub write_lem :
    (s : ByteStream) (bytes : List ℕ)
    → IsValid s
    → IsU64 (s.write_count + length bytes)
    → ((write s bytes).1 ≡ min (length bytes) (s.capacity - length (contents s)))
      × (contents (write s bytes).0 ≡ contents s ++ take (write s bytes).1 bytes)
      × ((write s bytes).0.write_count ≡ s.write_count + (write s bytes).1)
      × IsValid (write s bytes).0
unfolding write
write_lem s bytes v b = (
  ap (min (length bytes)) r,
  contents-write s bytes,
  omega arith,
  record {
    fits = omega (arith, grown, r);
    counted = omega (arith, grown, r);
    bounded = omega arith;
    capacity_bounded = v.capacity_bounded;
  },
)
  where
    r : remaining_capacity s ≡ s.capacity - length (contents s)
    r = remaining_lem s v

    grown :
        length (contents (write s bytes).0)
        ≡ length (contents s) + min (length bytes) (remaining_capacity s)
    grown =
        ap length (contents-write s bytes)
        ∙ omega (
          arith,
          length-append (contents s) (accepted s bytes),
          length-take (min (length bytes) (remaining_capacity s)) bytes,
        )

drop-min : (n : ℕ) (xs : List ℕ) → drop (min (length xs) n) xs ≡ drop n xs
drop-min n xs = elim (Bool-cases (ltb n (length xs))) [
  | inl e ↦ ap (λ k. drop k xs) (omega (arith, ltb→lt _ _ e))
  | inr e ↦ drop_all _ xs (omega (arith, ltb→le _ _ e)) ∙ sym (drop_all n xs (ltb→le _ _ e))
]

-- Whatever the counters are, `pop_output` does not throw, and drops bytes from the front.
pub pop_contents :
    (s : ByteStream) (len : ℕ)
    → (s' : ByteStream) × (pop_output s len ≡ ok s') × (contents s' ≡ drop len (contents s))
unfolding pop_output
pop_contents s len =
    let n = min (BufferList.size s.buffer) len in
    let (b, e, c) = View.remove_prefix_ok s.buffer n (omega arith) in
    (
      record s { buffer = b; read_count = add64 s.read_count n },
      rw e,
      c
          ∙ ap (λ k. drop (min k len) (contents s)) (View.size_lem s.buffer)
          ∙ drop-min len (contents s),
    )

-- `pop_output` never throws: it drops at most `len` bytes, and counts them.
pub pop_output_lem :
    (s : ByteStream) (len : ℕ)
    → IsValid s
    → (s' : ByteStream) × (pop_output s len ≡ ok s')
      × (contents s' ≡ drop len (contents s))
      × (s'.capacity ≡ s.capacity)
      × (s'.input_ended_flag ≡ s.input_ended_flag)
      × (s'.error ≡ s.error)
      × (s'.write_count ≡ s.write_count)
      × (s'.read_count ≡ s.read_count + min len (length (contents s)))
      × IsValid s'
unfolding pop_output
pop_output_lem s len v =
    let (b, e, c) =
      View.remove_prefix_ok s.buffer (min (BufferList.size s.buffer) len) (omega arith) in
    let n = min (BufferList.size s.buffer) len in
    let left : length (BufferList.concatenate b) ≡ length (contents s) - n =
      ap length c ∙ length-drop n (contents s) in
    (
      record s { buffer = b; read_count = add64 s.read_count n },
      rw e,
      c
          ∙ ap (λ k. drop (min k len) (contents s)) (View.size_lem s.buffer)
          ∙ drop-min len (contents s),
      refl,
      refl,
      refl,
      refl,
      omega (arith, View.size_lem s.buffer),
      record {
        fits = omega (arith, left);
        counted = omega (arith, left, View.size_lem s.buffer);
        bounded = v.bounded;
        capacity_bounded = v.capacity_bounded;
      },
    )

-- `read` never throws: it returns the first `len` bytes, or all there are, and drops them from the stream.
pub read_lem :
    (s : ByteStream) (len : ℕ)
    → IsValid s
    → (s' : ByteStream) × (read s len ≡ ok (take len (contents s), s'))
      × (contents s ≡ take len (contents s) ++ contents s')
      × (s'.read_count ≡ s.read_count + length (take len (contents s)))
      × (s'.write_count ≡ s.write_count)
      × (s'.capacity ≡ s.capacity)
      × IsValid s'
      × (s'.input_ended_flag ≡ s.input_ended_flag)
unfolding read
read_lem s len v =
    let (s', e, c, cap, flag, _, w, r, v') = pop_output_lem s len v in
    (
      s',
      rw e,
      sym (rw c (take-append-drop len (contents s))),
      r ∙ omega (arith, length-take len (contents s)),
      w,
      cap,
      v',
      flag,
    )

-- Popping as many bytes as were taken from the front.
pub pop_taken :
    (all taken rest : List ℕ) (n : ℕ)
    → taken ++ rest ≡ take n all
    → taken ++ drop (length taken) all ≡ all
pop_taken all taken rest n e =
    let whole : taken ++ (rest ++ drop n all) ≡ all =
      sym (append_assoc taken rest (drop n all))
      ∙ ap (λ k. k ++ drop n all) e
      ∙ take-append-drop n all in
    ap (λ k. taken ++ drop (length taken) k) (sym whole)
    ∙ ap (λ k. taken ++ k) (drop_exact (length taken) taken (rest ++ drop n all) refl)
    ∙ whole
