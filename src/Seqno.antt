-- ===== src/Seqno.antt =====
-- libsponge/wrapping_integers.hh and wrapping_integers.cc: 32-bit sequence numbers.
-- A `WrappingInt32` is its raw value, a number below 2 ^ 32.
pub mod Wrap
pub mod Unwrap
mod Tests
use tcp_lab.Base.{
  ℕ, ◌/◌, ◌%◌, ◌^◌, Bool, not, ◌&&◌, ◌||◌, ltb, leb, if◌then◌else◌, add32, sub32, add64, sub64,
  uint32_max,
}

abbrev pub WrappingInt32 : Type 0
WrappingInt32 = ℕ

-- `operator+(WrappingInt32, uint32_t)` and `operator-(WrappingInt32, uint32_t)`; the second adds
-- `-b`, the negation of an unsigned word.
unfoldable pub plus : WrappingInt32 → ℕ → WrappingInt32
plus a b = add32 a b

unfoldable pub minus : WrappingInt32 → ℕ → WrappingInt32
unfolding plus
minus a b = plus a (sub32 0 b)

-- `n & 0xFFFFFFFF` of a `uint64_t` is `n % 2 ^ 32`; the sum is cut to `uint32_t`.
unfoldable pub wrap : ℕ → WrappingInt32 → WrappingInt32
wrap n isn = add64 (n % 2 ^ 32) isn % 2 ^ 32

-- The position of `nn` seen from `cn`, the wrapped checkpoint.
pub record Offset : Type 0 where
  pub cn_is_large : Bool
  pub offset : ℕ
  pub of_large_half : Bool
  pub backward : Bool

unfoldable pub offset_of : ℕ → ℕ → Offset
offset_of nn cn =
    let cn_is_large = leb nn cn in
    let offset = if cn_is_large then sub32 cn nn else sub32 nn cn in
    let of_large_half = ltb (uint32_max / 2) offset in
    record {
      cn_is_large = cn_is_large;
      offset = offset;
      of_large_half = of_large_half;
      backward = (not cn_is_large && of_large_half) || (cn_is_large && not of_large_half);
    }

-- `UINT32_MAX + 1 - offset` is `uint32_t` arithmetic.
abbrev complement : ℕ → ℕ
complement offset = sub32 (add32 uint32_max 1) offset

unfoldable pub unwrap : WrappingInt32 → WrappingInt32 → ℕ → ℕ
unfolding wrap offset_of
unwrap n isn checkpoint =
    let cn = wrap checkpoint isn in
    let o = offset_of n cn in
    let back_far = sub64 checkpoint (complement o.offset) in
    let back_near = sub64 checkpoint o.offset in
    if o.backward
    then if leb checkpoint (uint32_max / 2)
        && ((o.of_large_half && ltb uint32_max back_far)
            || (not o.of_large_half && ltb uint32_max back_near))
      then if leb cn n then add64 checkpoint o.offset else add64 checkpoint (complement o.offset)
      else if not o.of_large_half
      then back_near
      else back_far
    else if not o.of_large_half
    then add64 checkpoint o.offset
    else add64 checkpoint (complement o.offset)
