-- ===== src/Reassembler/Trim.antt =====
-- The preprocessing of `push_substring`: the piece of the substring that the window admits.
use tcp_lab.Base.{
  ℕ, zero, suc, refl, ◌+◌, ◌-◌, ◌≤◌, ◌<◌, ◌≡◌, sym, ◌∙◌, ap, Bool, ◌&&◌, ltb, leb, List, [], arith,
  length, take, drop, IsU64,
}
use tcp_lab.Util.BufferList
use tcp_lab.Util.BufferList.View
use tcp_lab.Reassembler.{Piece, trim}
use tcp_lab.Reassembler.Stream.{slice, drop-slice, take-slice}

-- Whether an index lies in the substring, in the piece.
abbrev pub offered : ℕ → List ℕ → ℕ → Bool
offered index bytes i = leb index i && ltb i (index + length bytes)

abbrev pub within : Piece → ℕ → Bool
within p i = leb p.index i && leb i p.end

module _ (stream : ℕ → ℕ) (limit : ℕ) where
  -- A piece that is not empty: consecutive bytes of the stream below the limit.
  pub record IsPiece (p : Piece) : Type 0 where
    pub some_bytes : 0 < p.len
    pub ends : p.end + 1 ≡ p.index + p.len
    pub below : p.end < limit
    pub content : BufferList.concatenate p.buf ≡ slice stream p.index p.len

  module _ (bytes : List ℕ) (index first : ℕ) (cut : bytes ≡ slice stream index (length bytes))
      (word : IsU64 limit) (fits : IsU64 (index + length bytes))
      (reaches : first < index + length bytes) (starts : index < limit)
      (nonempty : 0 < length bytes) (room : first < limit) where
    cut_slice :
        (o l k : ℕ)
        → o + l ≤ length bytes
        → k ≡ index + o
        → take l (drop o bytes) ≡ slice stream k l
    cut_slice o l k h e =
        ap (λ b. take l (drop o b)) cut
        ∙ ap (take l) (drop-slice stream o index (length bytes))
        ∙ take-slice stream l (index + o) (length bytes - o) (omega arith)
        ∙ ap (λ j. slice stream j l) (sym e)

    pub trim-IsPiece : IsPiece (trim bytes index first limit)
    unfolding trim
    trim-IsPiece = record {
      some_bytes = ground arith;
      ends = ground arith;
      below = ground arith;
      content = View.concatenate-of_string _ ∙ cut_slice _ _ _ (ground arith) (ground arith);
    }

    pub within-trim :
        (i : ℕ)
        → within (trim bytes index first limit) i
          ≡ (offered index bytes i && (leb first i && ltb i limit))
    unfolding trim
    within-trim i = ground arith

take_zero : (n : ℕ) (xs : List ℕ) → n ≡ 0 → take n xs ≡ []
take_zero zero xs h = refl
take_zero (suc n) xs h = absurd (omega arith)

-- With a full window the piece is empty, and begins at the first missing index.
pub trim_full :
    (bytes : List ℕ) (index first : ℕ)
    → IsU64 (index + length bytes)
    → first < index + length bytes
    → index < first
    → ((trim bytes index first first).index ≡ first)
      × (BufferList.concatenate (trim bytes index first first).buf ≡ [])
unfolding trim
trim_full bytes index first fits reaches starts =
    (ground arith, View.concatenate-of_string _ ∙ take_zero _ _ (ground arith))
