-- ===== src/Reassembler/Ready.antt =====
-- The parts of `push_substring` (libsponge/stream_reassembler.cc) around the storing of a piece: the
-- early return, and the end of the stream.
use tcp_lab.Base.{
  ℕ, ◌+◌, ◌^◌, ◌≤◌, ◌<◌, ◌≡◌, refl, Bool, true, false, ◌&&◌, ◌||◌, not, leb, ltb, Bool-cases, ◌==◌,
  if◌then◌else◌, inl, inr, arith, add64, sub64, IsU64,
}
use tcp_lab.ByteStream
use tcp_lab.ByteStream.{ByteStream}
use tcp_lab.ByteStream.Laws.{remaining_lem}
use tcp_lab.Reassembler.{StreamReassembler, note_eof, close}
use tcp_lab.Reassembler.Flush.{limit_of, Inv, held}

-- The index at which the admitted part of a substring begins.
abbrev pub from_index : StreamReassembler → ℕ → ℕ
from_index r index = if ltb index r.first_index then r.first_index else index

module _ (stream : ℕ → ℕ) (r : StreamReassembler) (v : Inv stream r) where
  pub window_end :
      limit_of r.output < 2 ^ 63
      → add64 r.first_index (ByteStream.remaining_capacity r.output) ≡ limit_of r.output
  window_end h =
      let k = v.output_ok in
      omega (arith, remaining_lem r.output k.valid, k.wrote, k.valid.counted, k.valid.fits)

  pub first-le-limit : r.first_index ≤ limit_of r.output
  first-le-limit =
      omega (arith, v.output_ok.wrote, v.output_ok.valid.counted, v.output_ok.valid.fits)

  note_eof-Inv : (index n : ℕ) (eof : Bool) → Inv stream (note_eof r index n eof)
  unfolding note_eof
  note_eof-Inv index n eof = elim (Bool-cases (eof && not r.eof)) [
    | inl e ↦ rw e (record {
      output_ok = v.output_ok;
      entries_ok = v.entries_ok;
      counted = v.counted;
      ended = v.ended;
    })
    | inr e ↦ rw e v
  ]

  pub close-Inv : Inv stream (close r)
  unfolding close ByteStream.end_input
  close-Inv = elim (Bool-cases (r.eof && r.first_index == r.eof_index)) [
    | inl e ↦ rw e (record {
      output_ok = record {
        valid = record {
          fits = v.output_ok.valid.fits;
          counted = v.output_ok.valid.counted;
          bounded = v.output_ok.valid.bounded;
          capacity_bounded = v.output_ok.valid.capacity_bounded;
        };
        wrote = v.output_ok.wrote;
        content = v.output_ok.content;
      };
      entries_ok = v.entries_ok;
      counted = v.counted;
      ended = refl;
    })
    | inr e ↦ rw e v
  ]

pub close_keeps :
    (r : StreamReassembler)
    → ((i : ℕ) → held (close r) i ≡ held r i)
      × (limit_of (close r).output ≡ limit_of r.output)
      × ((close r).first_index ≡ r.first_index)
      × ((close r).eof ≡ r.eof)
      × ((close r).eof_index ≡ r.eof_index)
      × ((close r).eofed ≡ (r.eofed || (r.eof && r.first_index == r.eof_index)))
unfolding close ByteStream.end_input
close_keeps r = elim (Bool-cases (r.eof && r.first_index == r.eof_index)) [
  | inl e ↦ rw e (λ i. refl, refl, refl, refl, refl, ground arith)
  | inr e ↦ rw e (λ i. refl, refl, refl, refl, refl, ground arith)
]

note_eof_keeps :
    (r : StreamReassembler) (index n : ℕ) (eof : Bool)
    → ((note_eof r index n eof).output ≡ r.output)
      × ((note_eof r index n eof).first_index ≡ r.first_index)
      × ((note_eof r index n eof).unassembled ≡ r.unassembled)
      × ((note_eof r index n eof).eofed ≡ r.eofed)
unfolding note_eof
note_eof_keeps r index n eof = ground arith

-- The early return is taken only where the substring has nothing new in the window.
pub nothing_new :
    (first limit index n i : ℕ) (c : Bool)
    → IsU64 (index + n)
    → (ltb (sub64 (add64 index n) 1) first || (leb limit index || n == 0)) ≡ true
    → (ltb i first || c)
      ≡ ((ltb i first || c) || ((leb index i && ltb i (index + n)) && ltb i limit))
nothing_new first limit index n i c h t = ground arith

pub window_open :
    (first limit index n : ℕ)
    → IsU64 (index + n)
    → (ltb (sub64 (add64 index n) 1) first || (leb limit index || n == 0)) ≡ false
    → (first < index + n) × (index < limit) × (0 < n)
window_open first limit index n h t = (ground arith, ground arith, ground arith)

pub nothing_below :
    (first limit i : ℕ) (o : Bool) → first ≡ limit → false ≡ (o && (leb first i && ltb i limit))
nothing_below first limit i o h = ground arith

pub assembled_before :
    (first limit i : ℕ) (c o : Bool)
    → ((ltb i first || c) || (o && (leb first i && ltb i limit)))
      ≡ ((ltb i first || c) || (o && ltb i limit))
assembled_before first limit i c o = ground arith
