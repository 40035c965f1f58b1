-- ===== src/Util/BufferViewList.antt =====
-- libsponge/util/buffer.hh and buffer.cc: `BufferViewList`, a queue of borrowed views read as one
-- string.
use tcp_lab.Base.{
  ℕ, ◌+◌, ◌-◌, ◌≡◌, refl, List, [], ◌∷◌, ◌++◌, arith, ltb, ◌==◌, if◌then◌else◌, length, drop,
  length-append, sym, ap, ◌∙◌, ◌≤◌, drop-nil, Bool-cases, inl, inr, ==→eq, ltb→lt, ltb→le,
  drop-append_left, drop-append_right, Result, ok, throw, out_of_range,
}
use tcp_lab.Util.Buffer
use tcp_lab.Util.BufferList.{BufferList, concatenate}

-- `BufferViewList`: each view is the bytes that it shows.
abbrev pub BufferViewList : Type 0
BufferViewList = List (List ℕ)

unfoldable pub of_buffers : BufferList → BufferViewList
of_buffers [] = []
of_buffers (b ∷ bs) = Buffer.str b ∷ of_buffers bs

unfoldable pub size : BufferViewList → ℕ
size [] = 0
size (v ∷ vs) = length v + size vs

unfoldable pub remove_prefix : BufferViewList → ℕ → Result BufferViewList
remove_prefix [] n = if n == 0 then ok [] else throw out_of_range
remove_prefix (v ∷ vs) n =
    let rest = remove_prefix vs (n - length v) in
    if n == 0 then ok (v ∷ vs) else if ltb n (length v) then ok (drop n v ∷ vs) else rest

abbrev pub flatten : BufferViewList → List ℕ
flatten [] = []
flatten (v ∷ vs) = v ++ flatten vs

-- The views of a list show the string that the list concatenates to.
pub flatten-of_buffers : (bs : BufferList) → flatten (of_buffers bs) ≡ concatenate bs
unfolding of_buffers concatenate
flatten-of_buffers [] = refl
flatten-of_buffers (b ∷ bs) = rw (flatten-of_buffers bs)

pub size_lem : (vs : BufferViewList) → size vs ≡ length (flatten vs)
unfolding size
size_lem [] = refl
size_lem (v ∷ vs) = omega (arith, size_lem vs, length-append v (flatten vs))

-- Where the views show `n` bytes, `remove_prefix` drops the first `n` of them.
pub remove_prefix_ok :
    (vs : BufferViewList) (n : ℕ)
    → n ≤ size vs
    → (vs' : BufferViewList) × (remove_prefix vs n ≡ ok vs') × (flatten vs' ≡ drop n (flatten vs))
unfolding remove_prefix size
remove_prefix_ok [] n le = ([], ground arith, sym (drop-nil n))
remove_prefix_ok (v ∷ vs) n le = elim (Bool-cases (n == 0)) [
  | inl z ↦ (v ∷ vs, rw z refl, ap (λ k. drop k (v ++ flatten vs)) (sym (==→eq _ _ z)))
  | inr nz ↦ elim (Bool-cases (ltb n (length v))) [
    | inl lt ↦ (
      drop n v ∷ vs,
      rw (nz, lt) refl,
      sym (drop-append_left n v (flatten vs) (omega (arith, ltb→lt _ _ lt))),
    )
    | inr ge ↦
        let (vs', e, d) = remove_prefix_ok vs (n - length v) (omega arith) in
        (vs', rw (nz, ge) e, d ∙ sym (drop-append_right n v (flatten vs) (ltb→le _ _ ge)))
  ]
]
