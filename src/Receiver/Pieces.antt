-- ===== src/Receiver/Pieces.antt =====
-- The bytes that a sender (libsponge/tcp_sender.cc) has accepted as the stream that a receiver
-- (libsponge/tcp_receiver.cc) puts together.
use tcp_lab.Base.{
  ℕ, zero, suc, ◌+◌, ◌-◌, ◌≤◌, ◌≡◌, refl, sym, ◌∙◌, ap, List, [], ◌∷◌, ◌++◌, arith, length, drop,
  take, length-drop, length-append, take-append-drop,
}
use tcp_lab.Reassembler.Stream.{slice, split-slice, drop-slice, take-slice}

-- The byte at an index; past the end it does not matter.
abbrev pub byte_at : List ℕ → ℕ → ℕ
byte_at [] i = 0
byte_at (x ∷ xs) zero = x
byte_at (x ∷ xs) (suc i) = byte_at xs i

slice-suc :
    (x : ℕ) (xs : List ℕ) (i n : ℕ) → slice (byte_at (x ∷ xs)) (suc i) n ≡ slice (byte_at xs) i n
unfolding slice
slice-suc x xs i zero = refl
slice-suc x xs i (suc n) =
    let next : suc i + 1 ≡ suc (i + 1) = omega arith in
    ap (λ t. byte_at xs i ∷ t)
      (ap (λ k. slice (byte_at (x ∷ xs)) k n) next ∙ slice-suc x xs (i + 1) n)

pub slice_whole : (acc : List ℕ) → slice (byte_at acc) 0 (length acc) ≡ acc
unfolding slice
slice_whole [] = refl
slice_whole (x ∷ xs) =
    let one : 0 + 1 ≡ suc 0 = omega arith in
    ap (λ t. x ∷ t)
      (ap (λ k. slice (byte_at (x ∷ xs)) k (length xs)) one
        ∙ slice-suc x xs 0 (length xs)
        ∙ slice_whole xs)

-- A part of the bytes from `k` on is a slice, and ends where they end or before.
pub cut_of :
    (acc bytes rest : List ℕ) (k : ℕ)
    → k ≤ length acc
    → bytes ++ rest ≡ drop k acc
    → (bytes ≡ slice (byte_at acc) k (length bytes)) × (k + length bytes ≤ length acc)
cut_of acc bytes rest k le e =
    let whole : bytes ++ rest ≡ slice (byte_at acc) k (length acc - k) =
      e
      ∙ ap (drop k) (sym (slice_whole acc))
      ∙ drop-slice (byte_at acc) k 0 (length acc)
      ∙ ap (λ j. slice (byte_at acc) j (length acc - k)) (omega arith) in
    (
      (split-slice (byte_at acc) k (length acc - k) bytes rest whole).0,
      omega (arith, ap length e, length-append bytes rest, length-drop k acc),
    )

-- What comes before an index is a prefix.
pub prefix_of :
    (acc : List ℕ) (n : ℕ) → n ≤ length acc → slice (byte_at acc) 0 n ++ drop n acc ≡ acc
prefix_of acc n le =
    let front : slice (byte_at acc) 0 n ≡ take n acc =
      sym (take-slice (byte_at acc) n 0 (length acc) le) ∙ ap (take n) (slice_whole acc) in
    ap (λ b. b ++ drop n acc) front ∙ take-append-drop n acc
