-- ===== src/Seqno/Tests.antt =====
-- The witnesses of the theorems on sequence numbers, and tests.
use tcp_lab.Base.{◌^◌, ◌+◌, ◌-◌, ◌*◌, ◌≡◌, refl, arith}
use tcp_lab.Seqno.{wrap, unwrap}
use tcp_lab.Seqno.Unwrap.{wrap-unwrap, unwrap-wrap}

unwrap_tests :
    (unwrap 1 0 0 ≡ 1)
    × (unwrap 1 0 0xffff_ffff ≡ 2 ^ 32 + 1)
    × (unwrap 0xffff_fffe 0 (3 * 2 ^ 32) ≡ 3 * 2 ^ 32 - 2)
    × (unwrap 0xffff_fff6 0 0 ≡ 0xffff_fff6)
    × (unwrap 0xffff_ffff 10 (2 ^ 32 * 3) ≡ 3 * 2 ^ 32 - 11)
unfolding unwrap
unwrap_tests = (refl, refl, refl, refl, refl)

wrap-unwrap_example : wrap (unwrap 0xffff_ffff 10 (2 ^ 32 * 3)) 10 ≡ 0xffff_ffff
wrap-unwrap_example =
    wrap-unwrap 0xffff_ffff 10 (2 ^ 32 * 3) (omega arith) (omega arith) (omega arith)

unwrap-wrap_example : unwrap (wrap (2 ^ 33 + 5) 0xffff_fff0) 0xffff_fff0 (2 ^ 33) ≡ 2 ^ 33 + 5
unwrap-wrap_example =
    unwrap-wrap (2 ^ 33 + 5) 0xffff_fff0 (2 ^ 33) (omega arith) (omega arith) (omega arith)
