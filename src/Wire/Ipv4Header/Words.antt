-- ===== src/Wire/Ipv4Header/Words.antt =====
-- The packed words of the IPv4 header (libsponge/tcp_helpers/ipv4_header.cc), by evaluation.
use Prim.Native.Nat.{bit_or}
use mathlib.Core.Bool.{true≢false}
use tcp_lab.Base.{
  ◌+◌, ◌-◌, ap, sym, ◌∙◌, false, if◌then◌else◌, Bool-cases, inl, inr, if_true, if_false, ==→ne, ℕ,
  zero, suc, ◌*◌, ◌/◌, ◌%◌, ◌^◌, ◌<◌, ◌≡◌, refl, Bool, true, ◌&&◌, arith, ltb, ◌==◌, ltb→lt, ==→eq,
}
use tcp_lab.Wire.Flags.{test_bit, same, both, both_sound, same→eq, &&_true}
use tcp_lab.Wire.Ipv4Header.{flags_word}

-- The check holds of `count` numbers from `first` on.
holds_from : (ℕ → Bool) → ℕ → ℕ → Bool
holds_from check zero first = true
holds_from check (suc count) first =
    let later = holds_from check count (suc first) in if check first then later else false

-- Reading off the check of one of them.
holds_at :
    (check : ℕ → Bool) (count first i : ℕ)
    → i < count
    → holds_from check count first ≡ true
    → check (first + i) ≡ true
unfolding holds_from
holds_at check zero first i inside t = absurd (omega arith)
holds_at check (suc count) first i inside t = elim (Bool-cases (check first)) [
  | inr fails ↦ absurd (true≢false (sym t ∙ if_false (check first) _ _ fails))
  | inl passes ↦ elim (Bool-cases (i == 0)) [
    | inl here ↦ ap check (omega (arith, ==→eq i 0 here)) ∙ passes
    | inr there ↦
        ap check (omega (arith, ==→ne i 0 there))
        ∙ holds_at check count (suc first) (i - 1) (omega (arith, ==→ne i 0 there))
            (sym (if_true (check first) _ _ passes) ∙ t)
  ]
]

holds_below :
    (check : ℕ → Bool) (count i : ℕ) → i < count → holds_from check count 0 ≡ true → check i ≡ true
holds_below check count i inside t = ap check (omega arith) ∙ holds_at check count 0 i inside t

word_check : Bool → Bool → ℕ → Bool
word_check df mf o =
    let w = flags_word df mf o in
    ltb w 65536 && (same (test_bit w 0x4000) df && (same (test_bit w 0x2000) mf && w % 0x2000 == o))

word_table : both (λ df. both (λ mf. holds_from (λ o. word_check df mf o) 8192 0)) ≡ true
unfolding both holds_from word_check flags_word
word_table = refl

first_check : ℕ → Bool
first_check hlen = let b = bit_or (4 * 16) (hlen % 16) % 256 in b / 16 == 4 && b % 16 == hlen

first_table : holds_from first_check 16 0 ≡ true
unfolding holds_from first_check
first_table = refl

-- The flags and the offset are read back from their word.
pub flags_word_reads :
    (df mf : Bool) (o : ℕ)
    → o < 0x2000
    → (flags_word df mf o < 2 ^ 16)
      × (test_bit (flags_word df mf o) 0x4000 ≡ df)
      × (test_bit (flags_word df mf o) 0x2000 ≡ mf)
      × (flags_word df mf o % 0x2000 ≡ o)
unfolding word_check
flags_word_reads df mf o h =
    let all = both_sound _ mf (both_sound _ df word_table) in
    let (a, r) = &&_true _ _ (holds_below (word_check df mf) 8192 o h all) in
    let (b, r') = &&_true _ _ r in
    let (c, d) = &&_true _ _ r' in (ltb→lt _ 65536 a, same→eq _ df b, same→eq _ mf c, ==→eq _ o d)

-- The version and the header length are read back from the first byte.
pub first_byte_reads :
    (hlen : ℕ)
    → hlen < 16
    → let b = bit_or (4 * 16) (hlen % 16) % 256 in (b < 2 ^ 8) × (b / 16 ≡ 4) × (b % 16 ≡ hlen)
unfolding first_check
first_byte_reads hlen h =
    let (a, b) = &&_true _ _ (holds_below first_check 16 hlen h first_table) in
    (omega arith, ==→eq _ 4 a, ==→eq _ hlen b)
