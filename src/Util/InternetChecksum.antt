-- ===== src/Util/InternetChecksum.antt =====
-- libsponge/util/util.hh and util.cc: `InternetChecksum`, the ones' complement sum of RFC 1071.
pub mod Laws
pub mod OnesComplement
mod Tests
use tcp_lab.Base.{
  ℕ, zero, suc, ◌-◌, ◌*◌, ◌/◌, ◌%◌, ◌^◌, Bool, false, not, List, [], ◌∷◌, ltb, if◌then◌else◌, add32,
}

pub record InternetChecksum : Type 0 where
  pub sum : ℕ
  pub parity : Bool

-- `InternetChecksum(const uint32_t initial_sum)`
abbrev pub new : ℕ → InternetChecksum
new initial_sum = record { sum = initial_sum; parity = false }

-- One byte: the high half of a 16-bit word on even positions.
unfoldable pub add_byte : InternetChecksum → ℕ → InternetChecksum
add_byte c byte =
    let val = if not c.parity then byte * 2 ^ 8 % 2 ^ 16 else byte in
    record { sum = add32 c.sum val; parity = not c.parity }

unfoldable pub add : InternetChecksum → List ℕ → InternetChecksum
unfolding add_byte
add c [] = c
add c (byte ∷ data_rest) = add (add_byte c byte) data_rest

-- `while (ret > 0xffff)`, on fuel.
unfoldable pub fold : ℕ → ℕ → ℕ
fold zero ret = ret
fold (suc fuel) ret =
    let rest = fold fuel (add32 (ret / 2 ^ 16) (ret % 2 ^ 16)) in
    if ltb 0xffff ret then rest else ret

-- `~ret`, cut to 16 bits. Two turns bring every 32-bit number below 2 ^ 16.
unfoldable pub value : InternetChecksum → ℕ
unfolding fold
value c = 0xffff - fold 2 c.sum % 2 ^ 16
