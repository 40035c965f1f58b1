-- ===== src/Reassembler/Stream.antt =====
-- The stream that a sender cuts into substrings: a byte for each index. A substring is a slice.
use tcp_lab.Base.{
  ℕ, zero, suc, ◌+◌, ◌-◌, ◌≤◌, ◌≡◌, refl, sym, ◌∙◌, ap, ap₂, List, [], ◌∷◌, ◌++◌, arith, length,
  take, drop,
}

module _ (stream : ℕ → ℕ) where
  -- The `n` bytes from index `i` on.
  unfoldable pub slice : ℕ → ℕ → List ℕ
  slice i zero = []
  slice i (suc n) = stream i ∷ slice (i + 1) n

  pub length-slice : (i n : ℕ) → length (slice i n) ≡ n
  unfolding slice
  length-slice i zero = refl
  length-slice i (suc n) = ap suc (length-slice (i + 1) n)

  pub slice-append : (i m n : ℕ) → slice i m ++ slice (i + m) n ≡ slice i (m + n)
  unfolding slice
  slice-append i zero n = ap₂ slice (omega arith) (omega arith)
  slice-append i (suc m) n =
      ap (λ k. stream i ∷ (slice (i + 1) m ++ slice k n)) next
      ∙ ap (λ t. stream i ∷ t) (slice-append (i + 1) m n)
      ∙ ap (slice i) count
    where
      next : i + suc m ≡ i + 1 + m
      next = omega arith

      count : suc (m + n) ≡ suc m + n
      count = omega arith

  pub drop-slice : (m i n : ℕ) → drop m (slice i n) ≡ slice (i + m) (n - m)
  unfolding slice
  drop-slice zero i n = ap₂ slice (omega arith) (omega arith)
  drop-slice (suc m) i zero = ap (slice (i + suc m)) none_left
    where
      none_left : 0 ≡ 0 - suc m
      none_left = omega arith
  drop-slice (suc m) i (suc n) = drop-slice m (i + 1) n ∙ ap₂ slice (omega arith) (omega arith)

  pub take-slice : (m i n : ℕ) → m ≤ n → take m (slice i n) ≡ slice i m
  unfolding slice
  take-slice zero i n h = refl
  take-slice (suc m) i zero h = absurd (omega arith)
  take-slice (suc m) i (suc n) h = ap (λ t. stream i ∷ t) (take-slice m (i + 1) n (omega arith))

-- The parts of a slice are slices.
pub split-slice :
    (stream : ℕ → ℕ) (i n : ℕ) (xs ys : List ℕ)
    → xs ++ ys ≡ slice stream i n
    → (xs ≡ slice stream i (length xs)) × (ys ≡ slice stream (i + length xs) (length ys))
unfolding slice
split-slice stream i n [] ys e =
    (refl, e ∙ ap₂ (slice stream) (omega arith) (sym (length-slice stream i n) ∙ ap length (sym e)))
split-slice stream i zero (x ∷ xs) ys e = absurd (omega (arith, ap length e))
split-slice stream i (suc n) (x ∷ xs) ys e =
    let (a, b) = split-slice stream (i + 1) n xs ys (cc) in
    (cc, b ∙ ap (λ k. slice stream k (length ys)) (omega arith))
