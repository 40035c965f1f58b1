-- ===== src/Reassembler/Place.antt =====
-- Where `push_substring` of libsponge/stream_reassembler.cc puts a piece: the place keeps the order of
-- the map, and covers what the map and the piece covered.
use tcp_lab.Base.{
  true, ℕ, ◌+◌, ◌≤◌, ◌≡◌, ◌∙◌, Bool, ◌||◌, ◌==◌, ◌≢◌, refl, ==→eq, ==→ne, ne→==, Bool-cases, inl,
  inr, List, [], ◌∷◌, some, arith, IsU64, ok,
}
use tcp_lab.Reassembler.{Entry, Piece, Spot, insert, extend, candidate, place}
use tcp_lab.Reassembler.Entries.{total, inside, covers, Above, top, Before, KeyBelow, KeyFrom}
use tcp_lab.Reassembler.Trim.{IsPiece, within}
use tcp_lab.Reassembler.Behind.{at_end}
use tcp_lab.Reassembler.Merge.{Placed, insert-Placed, extend_cases}

move_middle : (x b a w : Bool) → ((b || (x || a)) || w) ≡ (((x || b) || a) || w)
move_middle x b a w = ground arith

module _ (stream : ℕ → ℕ) (limit lo : ℕ) (p : Piece) (g : IsPiece stream limit p)
    (word : IsU64 (limit + 1)) where
  -- The entry before the place was the candidate: the place is the same, one entry further on.
  shift-Placed :
      (b a : List Entry) (y : Entry) (s : Spot)
      → Placed stream limit lo p g word b (y ∷ a) s
      → Placed stream limit lo p g word (y ∷ b) a s
  shift-Placed b a y s k = record {
    before_ok = k.before_ok;
    fits = k.fits;
    entry_ok = k.entry_ok;
    after_ok = k.after_ok;
    counted = k.counted;
    covered = λ i. k.covered i ∙ move_middle (inside y i) (covers b i) (covers a i) (within p i);
    settled = k.settled;
  }

  module _ (end_key count : ℕ) (small : IsU64 (count + p.len)) where
    -- The candidate has the piece's key.
    same_key :
        (b : List Entry) (x : Entry) (a : List Entry)
        → Before stream limit lo b
        → Above stream limit (top lo b) (x ∷ a)
        → count ≡ total b + total (x ∷ a)
        → x.start ≡ p.index
        → (s : Spot) × (extend p b x a count ≡ ok (some s))
          × Placed stream limit lo p g word b (x ∷ a) s
    same_key b x a hb (gap, hx, ha) hc e =
        elim (extend_cases stream limit lo p g word b x a count hb gap hx ha hc (omega arith)
          small) [ inl r ↦ r | inr (_, apart) ↦ absurd (omega (arith, hx.ordered)) ]

    pub place_ok :
        (b a : List Entry)
        → Before stream limit lo b
        → Above stream limit (top lo b) a
        → KeyBelow p.index b
        → KeyFrom p.index a
        → lo ≤ p.index
        → count ≡ total b + total a
        → (at_end b a ≡ true → end_key ≢ p.index)
        → (s : Spot) × (place end_key p b a count ≡ ok s) × Placed stream limit lo p g word b a s
    unfolding place candidate
    place_ok [] [] hb ha kb ka low hc past_end = (
      insert p [] [] count,
      refl,
      insert-Placed stream limit lo p g word [] hb low count [] tt hc small,
    )
    place_ok [] (x ∷ a) hb ha kb ka low hc past_end = elim (Bool-cases (x.start == p.index)) [
      | inl same ↦ let (s, r, k) = same_key [] x a hb ha hc (==→eq _ _ same) in (s, rw (same, r), k)
      | inr other ↦ (
        insert p [] (x ∷ a) count,
        rw other,
        insert-Placed stream limit lo p g word [] hb low count (x ∷ a)
            (omega (arith, ==→ne _ _ other), ha.1, ha.2) hc small,
      )
    ]
    place_ok (y ∷ b) [] (gap, hy, hb) ha kb ka low hc past_end =
        elim (extend_cases stream limit lo p g word b y [] count hb gap hy tt (omega arith)
          (omega arith) small) [
            | inl (s, r, k) ↦ (s, rw (ne→== _ _ (past_end refl), r), shift-Placed b [] y s k)
            | inr (r, apart) ↦ (
              insert p (y ∷ b) [] count,
              rw (ne→== _ _ (past_end refl), r),
              insert-Placed stream limit lo p g word (y ∷ b) (gap, hy, hb) apart count [] tt hc
                  small,
            )
          ]
    place_ok (y ∷ b) (x ∷ a) (gap, hy, hb) ha kb ka low hc past_end =
        elim (Bool-cases (x.start == p.index)) [
          | inl same ↦
              let (s, r, k) = same_key (y ∷ b) x a (gap, hy, hb) ha hc (==→eq _ _ same) in
              (s, rw (same, r), k)
          | inr other ↦
              elim (extend_cases stream limit lo p g word b y (x ∷ a) count hb gap hy ha
                (omega arith) (omega arith) small) [
                  | inl (s, r, k) ↦ (s, rw (other, r), shift-Placed b (x ∷ a) y s k)
                  | inr (r, apart) ↦ (
                    insert p (y ∷ b) (x ∷ a) count,
                    rw (other, r),
                    insert-Placed stream limit lo p g word (y ∷ b) (gap, hy, hb) apart count (x ∷ a)
                        (omega (arith, ==→ne _ _ other), ha.1, ha.2) hc small,
                  )
                ]
        ]
