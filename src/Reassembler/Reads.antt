-- ===== src/Reassembler/Reads.antt =====
-- Reads of the output of a reassembler (libsponge/stream_reassembler.cc) between two calls.
use tcp_lab.Base.{
  ℕ, ◌+◌, ◌≤◌, ◌≡◌, refl, sym, ◌∙◌, ap, Bool, ◌||◌, ltb, leb, ◌==◌, sub64, add64, List, [], ◌∷◌,
  arith, length, take, Ensures, Ensures-any, Ensures-bind, Ensures-if, ok,
}
use tcp_lab.Reassembler.{EndKey}
use tcp_lab.ByteStream
use tcp_lab.ByteStream.{ByteStream}
use tcp_lab.ByteStream.Laws.{contents, read_lem}
use tcp_lab.Reassembler.{
  StreamReassembler, Entry, Piece, Spot, place, absorb, flush, settle, store, trim, note_eof, close,
  push_substring, lower_bound,
}
use tcp_lab.Reassembler.Stream.{slice, split-slice}
use tcp_lab.Reassembler.Entries.{Above}
use tcp_lab.Reassembler.Flush.{limit_of, Inv}

module _ (stream : ℕ → ℕ) (limit limit' : ℕ) (further : limit ≤ limit') where
  Above-further : (lo : ℕ) (es : List Entry) → Above stream limit lo es → Above stream limit' lo es
  Above-further lo [] a = tt
  Above-further lo (e ∷ es) (gap, h, a) = (
    gap,
    record { ordered = h.ordered; below = omega (arith, h.below); content = h.content },
    Above-further (e.end + 1) es a,
  )

-- A read returns the next bytes of the stream, and moves the window on by as many.
pub read-Inv :
    (stream : ℕ → ℕ) (r : StreamReassembler) (n : ℕ)
    → Inv stream r
    → (bytes : List ℕ) × (o : ByteStream) × (ByteStream.read r.output n ≡ ok (bytes, o))
      × Inv stream (record r { output = o })
      × (bytes ≡ slice stream r.output.read_count (length bytes))
      × (o.read_count ≡ r.output.read_count + length bytes)
      × (o.capacity ≡ r.output.capacity)
read-Inv stream r n v =
    let k = v.output_ok in
    let (o, e, c, reads, writes, cap, valid, flag) = read_lem r.output n k.valid in
    let bytes = take n (contents r.output) in
    let (front, back) =
      split-slice stream r.output.read_count (length (contents r.output)) bytes (contents o)
        (sym c ∙ k.content) in
    (
      bytes,
      o,
      e,
      record {
        output_ok = record {
          valid = valid;
          wrote = writes ∙ k.wrote;
          content = back ∙ ap (λ j. slice stream j (length (contents o))) (sym reads);
        };
        entries_ok =
            Above-further stream (limit_of r.output) (limit_of o) (omega (arith, reads, cap))
              r.first_index r.unassembled v.entries_ok;
        counted = v.counted;
        ended = flag ∙ v.ended;
      },
      front,
      reads,
      cap,
    )

-- Nothing but a read changes how much was read.
abbrev pub SameReads : StreamReassembler → StreamReassembler → Type 0
SameReads r r' =
    (r'.output.read_count ≡ r.output.read_count) × (r'.output.capacity ≡ r.output.capacity)

flush-SameReads :
    (r : StreamReassembler) (before : List Entry) (x : Entry) (after : List Entry) (count : ℕ)
    → SameReads r (flush r before x after count)
unfolding flush ByteStream.write
flush-SameReads r before x after count = ground arith

settle-SameReads : (r : StreamReassembler) (s : Spot) → Ensures (SameReads r) (settle r s)
unfolding settle
settle-SameReads r s =
    Ensures-if (SameReads r) s.finish _ _ (flush-SameReads r s.before s.entry s.after s.count) (
      Ensures-bind _ (SameReads r) (absorb s.entry s.after s.count) _ (Ensures-any _)
        (λ t _. flush-SameReads r s.before t.0 t.1 t.2))

store-SameReads :
    (end_key : EndKey) (r : StreamReassembler) (p : Piece)
    → Ensures (SameReads r) (store end_key r p)
unfolding store
store-SameReads end_key r p =
    Ensures-bind _ (SameReads r)
      (place (end_key r.unassembled) p (lower_bound p.index [] r.unassembled).0
        (lower_bound p.index [] r.unassembled).1 r.unassembled_bytes)
      _ (Ensures-any _) (λ s _. settle-SameReads r s)

note_eof-SameReads :
    (r : StreamReassembler) (index n : ℕ) (eof : Bool) → SameReads r (note_eof r index n eof)
unfolding note_eof
note_eof-SameReads r index n eof = ground arith

close-SameReads : (r r' : StreamReassembler) → SameReads r r' → SameReads r (close r')
unfolding close ByteStream.end_input
close-SameReads r r' s = ground arith

pub push_substring-SameReads :
    (end_key : EndKey) (r : StreamReassembler) (bytes : List ℕ) (index : ℕ) (eof : Bool)
    → Ensures (SameReads r) (push_substring end_key r bytes index eof)
unfolding push_substring
push_substring-SameReads end_key r bytes index eof =
    let noted = note_eof r index (length bytes) eof in
    let kept = note_eof-SameReads r index (length bytes) eof in
    let stop =
      ltb (sub64 (add64 index (length bytes)) 1) r.first_index
      || (leb (add64 r.first_index (ByteStream.remaining_capacity r.output)) index
          || length bytes == 0) in
    let piece =
      trim bytes index r.first_index
        (add64 r.first_index (ByteStream.remaining_capacity r.output)) in
    Ensures-if (SameReads r) r.eofed _ _ (refl, refl)
      (Ensures-if (SameReads r) stop _ _ (close-SameReads r noted kept) (
        Ensures-bind (SameReads noted) (SameReads r) (store end_key noted piece) _
          (store-SameReads end_key noted piece)
          (λ u k. close-SameReads r u (k.0 ∙ kept.0, k.1 ∙ kept.1))))
