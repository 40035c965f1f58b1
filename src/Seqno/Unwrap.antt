-- ===== src/Seqno/Unwrap.antt =====
-- `unwrap` of libsponge/wrapping_integers.cc inverts `wrap`, and picks the candidate that is
-- closest to the checkpoint.
use tcp_lab.Base.{
  ℕ, ◌+◌, ◌-◌, ◌%◌, ◌^◌, ◌<◌, ◌≤◌, ◌≡◌, ◌∙◌, sym, refl, IsU32, arith, ltb, if◌then◌else◌,
}
use tcp_lab.Seqno.{wrap, unwrap}
use tcp_lab.Seqno.Wrap.{wrap_injective, wrap-lt}

-- `|a - b|`
abbrev pub dist : ℕ → ℕ → ℕ
dist a b = if ltb a b then b - a else a - b

congruent_near :
    (u m cp : ℕ) → u % 2 ^ 32 ≡ m % 2 ^ 32 → dist u cp ≤ dist m cp → dist m cp < 2 ^ 31 → u ≡ m
congruent_near u m cp e near h = ground arith

module _ (n isn cp : ℕ) (hn : IsU32 n) (hi : IsU32 isn) (hc : cp + 2 ^ 32 ≤ 2 ^ 64) where
  -- For 32-bit words `n` and `isn`, and a checkpoint at least 2 ^ 32 below the end of the 64-bit
  -- numbers, `unwrap` returns an absolute number that wraps back to `n`.
  pub wrap-unwrap : wrap (unwrap n isn cp) isn ≡ n
  unfolding unwrap
  wrap-unwrap = ground arith

  -- Under the same conditions, no number that wraps to `n` is closer to the checkpoint than the
  -- one that `unwrap` returns.
  unwrap_closest : (m : ℕ) → wrap m isn ≡ n → dist (unwrap n isn cp) cp ≤ dist m cp
  unfolding unwrap
  unwrap_closest m h = ground arith

  pub unwrap-le : unwrap n isn cp ≤ cp + 2 ^ 32
  unfolding unwrap
  unwrap-le = ground arith

  pub unwrap_near : (m : ℕ) → wrap m isn ≡ n → dist m cp < 2 ^ 31 → unwrap n isn cp ≡ m
  unwrap_near m h d =
      congruent_near (unwrap n isn cp) m cp (wrap_injective _ m isn hi (wrap-unwrap ∙ sym h))
        (unwrap_closest m h) d

-- For a 32-bit `isn` and a checkpoint at least 2 ^ 32 below the end of the 64-bit numbers,
-- `unwrap` gives back every absolute number less than 2 ^ 31 from the checkpoint that was wrapped.
pub unwrap-wrap :
    (m isn cp : ℕ)
    → IsU32 isn
    → cp + 2 ^ 32 ≤ 2 ^ 64
    → dist m cp < 2 ^ 31
    → unwrap (wrap m isn) isn cp ≡ m
unwrap-wrap m isn cp hi hc d = unwrap_near (wrap m isn) isn cp (wrap-lt m isn) hi hc m refl d
