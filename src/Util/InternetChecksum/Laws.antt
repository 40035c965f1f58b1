-- ===== src/Util/InternetChecksum/Laws.antt =====
-- The checksum of libsponge/util/util.cc as a number modulo 65535.
use tcp_lab.Base.{
  ℕ, zero, suc, replicate, ◌+◌, ◌*◌, ◌%◌, ◌^◌, ◌≤◌, ◌<◌, ◌≡◌, refl, ◌∙◌, ap, Bool, true, false, not,
  List, [], ◌∷◌, ◌++◌, arith, if◌then◌else◌, IsU8, IsU32, All, length,
}
use tcp_lab.Util.InternetChecksum.{InternetChecksum, new, add_byte, add, fold, value}

pub add-append : (c : InternetChecksum) (xs ys : List ℕ) → add c (xs ++ ys) ≡ add (add c xs) ys
unfolding add
add-append c [] ys = refl
add-append c (x ∷ xs) ys = add-append (add_byte c x) xs ys

-- The sum of the 16-bit words of the bytes, the first of which is a high half or not.
unfoldable pub words : Bool → List ℕ → ℕ
words parity [] = 0
words parity (x ∷ xs) = (if parity then x else x * 256) + words (not parity) xs

-- The parity after as many bytes.
unfoldable pub flips : Bool → List ℕ → Bool
flips parity [] = parity
flips parity (x ∷ xs) = flips (not parity) xs

abbrev at : ℕ → Bool → InternetChecksum
at sum parity = record { sum = sum; parity = parity }

add_byte_lem :
    (sum x : ℕ) (p : Bool)
    → x < 256
    → IsU32 (sum + (if p then x else x * 256))
    → add_byte (at sum p) x ≡ at (sum + (if p then x else x * 256)) (not p)
unfolding add_byte
add_byte_lem sum x true b h = ap (λ k. at k false) (omega arith)
add_byte_lem sum x false b h = ap (λ k. at k true) (omega arith)

-- The sum of bytes, where the whole of it fits in 32 bits.
pub add_lem :
    (sum : ℕ) (p : Bool) (xs : List ℕ)
    → All IsU8 xs
    → IsU32 (sum + words p xs)
    → add (at sum p) xs ≡ at (sum + words p xs) (flips p xs)
unfolding add words flips
add_lem sum p [] b h = ap (λ k. at k p) (omega arith)
add_lem sum p (x ∷ xs) b h =
    let v : ℕ = if p then x else x * 256 in
    ap (λ c. add c xs) (add_byte_lem sum x p b.0 (omega arith))
    ∙ add_lem (sum + v) (not p) xs b.1 (omega arith)
    ∙ ap (λ k. at k (flips (not p) xs)) (omega arith)

-- Two turns fold a 32-bit number to 16 bits: 0 stays, and any other number becomes its
-- representative from 1 to 65535 modulo 65535.
pub fold_two : (n : ℕ) → IsU32 n → (fold 2 n ≤ 0xffff) × (fold 2 n % 0xffff ≡ n % 0xffff)
unfolding fold
fold_two n h = (ground arith, ground arith)

pub fold_zero : (n : ℕ) → IsU32 n → fold 2 n ≡ 0 → n ≡ 0
unfolding fold
fold_zero n h e = ground arith

-- A packet that carries the checksum of the rest of it, counted as 0 itself, adds up to 65535.
pub value_closes : (n : ℕ) → n + 0xffff < 2 ^ 32 → value (new (n + value (new n))) ≡ 0
unfolding value fold
value_closes n h = ground arith

pub words-append :
    (p : Bool) (xs ys : List ℕ) → words p (xs ++ ys) ≡ words p xs + words (flips p xs) ys
unfolding words flips
words-append p [] ys = omega arith
words-append p (x ∷ xs) ys = omega (arith, words-append (not p) xs ys)

pub All-append : (xs ys : List ℕ) → All IsU8 xs → All IsU8 ys → All IsU8 (xs ++ ys)
All-append [] ys a b = b
All-append (x ∷ xs) ys a b = (a.0, All-append xs ys a.1 b)

pub All-zeros : (n : ℕ) → All IsU8 (replicate n 0)
All-zeros zero = tt
All-zeros (suc n) = (omega arith, All-zeros n)

pub value-lt : (c : InternetChecksum) → value c < 2 ^ 16
unfolding value
value-lt c = omega arith

-- The checksum of a sequence of bytes, from its sum.
pub value-add :
    (start : ℕ) (xs : List ℕ)
    → All IsU8 xs
    → IsU32 (start + words false xs)
    → value (add (new start) xs) ≡ value (new (start + words false xs))
unfolding value
value-add start xs b h = ap value (add_lem start false xs b h)

-- A byte adds at most 255 * 256.
pub words-length : (p : Bool) (xs : List ℕ) → All IsU8 xs → words p xs ≤ 65280 * length xs
unfolding words
words-length p [] b = omega arith
words-length true (x ∷ xs) b = omega (arith, words-length false xs b.1, b.0)
words-length false (x ∷ xs) b = omega (arith, words-length true xs b.1, b.0)
