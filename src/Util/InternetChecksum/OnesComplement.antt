-- ===== src/Util/InternetChecksum/OnesComplement.antt =====
-- The checksum of libsponge/util/util.cc, which adds in 32 bits and carries at the end, is that of
-- RFC 1071, which carries at every addition.
use tcp_lab.Base.{
  ℕ, min, ◌==◌, Bool-cases, inl, inr, ==→eq, ==→ne, ◌+◌, ◌-◌, ◌*◌, ◌%◌, ◌≤◌, ◌≡◌, ◌∙◌, ap, false,
  List, [], ◌∷◌, All, arith, ltb, if◌then◌else◌, IsU8, IsU16, IsU32,
}
use tcp_lab.Util.InternetChecksum.{new, add, fold, value}
use tcp_lab.Util.InternetChecksum.Laws.{words, fold_two, fold_zero, value-add}

-- The ones' complement sum of two 16-bit words: the carry is added again.
unfoldable pub carry : ℕ → ℕ → ℕ
carry a b = if ltb 0xffff (a + b) then a + b - 0xffff else a + b

-- The ones' complement sum of the 16-bit words of the bytes, a last odd byte being a high half.
unfoldable pub ones_sum : ℕ → List ℕ → ℕ
ones_sum sum [] = sum
ones_sum sum (h ∷ []) = carry sum (h * 256)
ones_sum sum (h ∷ l ∷ rest) = ones_sum (carry sum (h * 256 + l)) rest

carry_lem :
    (a b : ℕ)
    → a ≤ 0xffff
    → b ≤ 0xffff
    → (carry a b ≤ 0xffff)
      × (carry a b % 0xffff ≡ (a + b) % 0xffff)
      × (carry a b ≤ a + b)
      × (min 1 (a + b) ≤ carry a b)
unfolding carry
carry_lem a b p q = (ground arith, ground arith, ground arith, ground arith)

-- The sum `s` stands for the number `n`: it is congruent to it, and 0 only where that is.
record StandsFor (s n : ℕ) : Type 0 where
  small : s ≤ 0xffff
  same : s % 0xffff ≡ n % 0xffff
  below : s ≤ n
  zero_lem : min 1 n ≤ s

ones_sum_lem :
    (sum : ℕ) (xs : List ℕ)
    → sum ≤ 0xffff
    → All IsU8 xs
    → StandsFor (ones_sum sum xs) (sum + words false xs)
unfolding ones_sum words
ones_sum_lem sum [] le b = record {
  small = le;
  same = omega arith;
  below = omega arith;
  zero_lem = omega arith;
}
ones_sum_lem sum (h ∷ []) le b =
    let (k1, k2, k3, k4) = carry_lem sum (h * 256) le (omega (arith, b.0)) in
    record {
      small = k1;
      same = k2 ∙ ap (λ k. k % 0xffff) (omega arith);
      below = omega arith;
      zero_lem = omega (arith, k4);
    }
ones_sum_lem sum (h ∷ l ∷ rest) le b =
    let (k1, k2, k3, k4) = carry_lem sum (h * 256 + l) le (omega (arith, b.0, b.1.0)) in
    let r = ones_sum_lem (carry sum (h * 256 + l)) rest k1 b.1.1 in
    record {
      small = r.small;
      same = omega (arith, r.same, k2);
      below = omega (arith, r.below, k3);
      zero_lem = omega (arith, r.zero_lem, k4);
    }

unique : (s t n : ℕ) → StandsFor s n → StandsFor t n → s ≡ t
unique s t n a b =
    omega (arith, a.small, b.small, a.same, b.same, a.zero_lem, b.zero_lem, a.below, b.below)

fold_le : (n : ℕ) → IsU32 n → fold 2 n ≤ n
unfolding fold
fold_le n h = ground arith

fold_positive : (n : ℕ) → IsU32 n → min 1 n ≤ fold 2 n
fold_positive n h = elim (Bool-cases (fold 2 n == 0)) [
  | inl z ↦ omega (arith, fold_zero n h (==→eq _ _ z))
  | inr nz ↦ omega (arith, ==→ne _ _ nz)
]

fold-StandsFor : (n : ℕ) → IsU32 n → StandsFor (fold 2 n) n
fold-StandsFor n h =
    let (a, b) = fold_two n h in
    record { small = a; same = b; below = fold_le n h; zero_lem = fold_positive n h }

-- For a 16-bit start and bytes whose 16-bit words add up, with the start, to less than 2 ^ 32, the
-- checksum is the complement of their ones' complement sum, in which every carry is added again
-- at once.
pub value-ones_sum :
    (start : ℕ) (xs : List ℕ)
    → IsU16 start
    → All IsU8 xs
    → IsU32 (start + words false xs)
    → value (add (new start) xs) ≡ 0xffff - ones_sum start xs
unfolding value
value-ones_sum start xs s b h =
    let same =
      unique _ _ (start + words false xs) (fold-StandsFor (start + words false xs) h)
        (ones_sum_lem start xs (omega (arith, s)) b) in
    value-add start xs b h ∙ omega (arith, same, (fold_two (start + words false xs) h).0)
