-- ===== src/Wire/Flags.antt =====
-- Single bits of a byte, as the header classes write and test them.
use tcp_lab.Base.{ℕ, Bool, true, false, not, ◌==◌, ◌&&◌, ◌≡◌, arith, if◌then◌else◌}
use Prim.Native.Nat.{bit_and}

-- `static_cast<bool>(byte & mask)`
abbrev pub test_bit : ℕ → ℕ → Bool
test_bit byte mask = not (bit_and byte mask == 0)

-- `flag ? mask : 0`
abbrev pub flag : Bool → ℕ → ℕ
flag b mask = if b then mask else 0

-- A check of all values of a flag, by evaluation.
unfoldable pub both : (Bool → Bool) → Bool
both f = f true && f false

pub both_sound : (f : Bool → Bool) (b : Bool) → both f ≡ true → f b ≡ true
unfolding both
both_sound f true h = ground arith
both_sound f false h = ground arith

abbrev pub same : Bool → Bool → Bool
same x y = if x then y else not y

pub same→eq : (x y : Bool) → same x y ≡ true → x ≡ y
same→eq x y h = ground arith

pub &&_true : (x y : Bool) → (x && y) ≡ true → (x ≡ true) × (y ≡ true)
&&_true x y h = ground arith
