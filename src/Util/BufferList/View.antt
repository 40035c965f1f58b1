-- ===== src/Util/BufferList/View.antt =====
-- A `BufferList` behaves as the string that it concatenates to.
use tcp_lab.Base.{
  ℕ, ◌-◌, ◌≤◌, ◌<◌, ◌≡◌, refl, sym, ◌∙◌, inl, inr, List, [], ◌∷◌, ◌++◌, append_assoc, append-nil,
  arith, ltb, ◌==◌, Bool-cases, ==→eq, ltb→lt, ltb→le, drop-nil, length, drop, length-append,
  drop-append_left, drop-append_right, ok, throw, out_of_range,
}
use tcp_lab.Util.Buffer
use tcp_lab.Util.Buffer.{Buffer}
use tcp_lab.Util.BufferList.{BufferList, concatenate, size, append, remove_prefix, of_string}

-- `size()` is the number of bytes that `concatenate()` copies out.
pub size_lem : (bs : BufferList) → size bs ≡ length (concatenate bs)
unfolding size concatenate Buffer.size
size_lem [] = refl
size_lem (b ∷ bs) = omega (arith, size_lem bs, length-append (Buffer.str b) (concatenate bs))

pub concatenate-append :
    (bs cs : BufferList) → concatenate (append bs cs) ≡ concatenate bs ++ concatenate cs
unfolding append concatenate
concatenate-append [] cs = refl
concatenate-append (b ∷ bs) cs = simp (concatenate-append bs cs, append_assoc)

pub concatenate-of_string : (s : List ℕ) → concatenate (of_string s) ≡ s
unfolding concatenate Buffer.str
concatenate-of_string s = append-nil s

-- Where the list holds `n` bytes, `remove_prefix` drops the first `n` of its string.
pub remove_prefix_ok :
    (bs : BufferList) (n : ℕ)
    → n ≤ size bs
    → (cs : BufferList) × (remove_prefix bs n ≡ ok cs) × (concatenate cs ≡ drop n (concatenate bs))
unfolding remove_prefix concatenate size Buffer.size
remove_prefix_ok [] n h = ([], ground arith, sym (drop-nil n))
remove_prefix_ok (b ∷ bs) n h = elim (Bool-cases (n == 0)) [
  | inl none_left ↦ (b ∷ bs, rw none_left, rw (==→eq n 0 none_left))
  | inr more ↦ elim (Bool-cases (ltb n (Buffer.size b))) [
    | inl inside ↦
        let (b', e, v) =
          Buffer.remove_prefix_ok b n (omega (arith, ltb→lt n (Buffer.size b) inside)) in
        (
          b' ∷ bs,
          rw (more, inside, e),
          rw v (
              sym (
                drop-append_left n (Buffer.str b) (concatenate bs)
                  (omega (arith, ltb→lt n (Buffer.size b) inside)))),
        )
    | inr past ↦
        let (cs, e, v) = remove_prefix_ok bs (n - Buffer.size b) (omega arith) in
        (
          cs,
          rw (more, past) e,
          v
              ∙ sym (
                  drop-append_right n (Buffer.str b) (concatenate bs)
                    (ltb→le n (Buffer.size b) past)),
        )
  ]
]

-- Where the list holds fewer than `n` bytes, it throws.
pub remove_prefix_throws :
    (bs : BufferList) (n : ℕ) → size bs < n → remove_prefix bs n ≡ throw out_of_range
unfolding remove_prefix size
remove_prefix_throws [] n h = ground arith
remove_prefix_throws (b ∷ bs) n h = ground (arith, remove_prefix_throws bs (n - Buffer.size b))
