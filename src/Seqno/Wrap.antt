-- ===== src/Seqno/Wrap.antt =====
-- What `wrap` of libsponge/wrapping_integers.cc computes.
use tcp_lab.Base.{ℕ, ◌+◌, ◌%◌, ◌^◌, ◌≡◌, IsU32, arith}
use tcp_lab.Seqno.{wrap, plus, minus}

-- `wrap n isn` is the point `n` steps past `isn` on the ring of 2 ^ 32 numbers.
pub wrap_lem : (n isn : ℕ) → IsU32 isn → wrap n isn ≡ (n + isn) % 2 ^ 32
unfolding wrap
wrap_lem n isn h = omega arith

pub wrap-lt : (n isn : ℕ) → IsU32 (wrap n isn)
unfolding wrap
wrap-lt n isn = omega arith

pub wrap_injective : (m n isn : ℕ) → IsU32 isn → wrap m isn ≡ wrap n isn → m % 2 ^ 32 ≡ n % 2 ^ 32
unfolding wrap
wrap_injective m n isn h e = omega arith

-- Stepping `k` on from a wrapped number is wrapping the number `k` further on; stepping back
-- undoes it.
pub plus-wrap :
    (n k isn : ℕ)
    → IsU32 isn
    → IsU32 k
    → (plus (wrap n isn) k ≡ wrap (n + k) isn) × (minus (wrap (n + k) isn) k ≡ wrap n isn)
unfolding wrap plus minus
plus-wrap n k isn hi hk = omega arith
