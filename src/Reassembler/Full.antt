-- ===== src/Reassembler/Full.antt =====
-- `push_substring` when the window of the output is full: an empty piece passes through.
use tcp_lab.Base.{
  ℕ, ◌^◌, ◌<◌, ◌≡◌, ◌∙◌, ap, subst, refl, true, false, ◌==◌, ==_self, List, [], ◌∷◌, arith, add64,
  sub64, ok, ◌>>=◌,
}
use tcp_lab.Reassembler.{EndKey}
use tcp_lab.Util.BufferList
use tcp_lab.ByteStream
use tcp_lab.Reassembler.{
  StreamReassembler, Entry, Piece, store, lower_bound, place, candidate, insert, settle, absorb,
  flush, rejoin,
}
use tcp_lab.Reassembler.Stream.{slice}
use tcp_lab.Reassembler.Entries.{total, Above}
use tcp_lab.Reassembler.Flush.{limit_of, OutputOk, Inv, write_slice}
use tcp_lab.Reassembler.Push.{Stored}

Above-full : (stream : ℕ → ℕ) (limit : ℕ) (es : List Entry) → Above stream limit limit es → es ≡ []
Above-full stream limit [] a = refl
Above-full stream limit (e ∷ es) (g, h, a) = absurd (omega (arith, h.ordered, h.below))

module _ (stream : ℕ → ℕ) (end_key : EndKey) (r : StreamReassembler) (v : Inv stream r)
    (window : limit_of r.output < 2 ^ 63) (full : r.first_index ≡ limit_of r.output) (p : Piece)
    (here : p.index ≡ r.first_index) (no_bytes : BufferList.concatenate p.buf ≡ [])
    (no_size : BufferList.size p.buf ≡ 0) where
  none_stored : r.unassembled ≡ []
  none_stored =
      Above-full stream (limit_of r.output) r.unassembled
        (subst (λ l. Above stream (limit_of r.output) l r.unassembled) full v.entries_ok)

  same_first : add64 r.first_index 0 ≡ r.first_index
  same_first = omega arith

  passed : StreamReassembler
  passed = record r {
    output = (ByteStream.write r.output []).0;
    unassembled = [];
    unassembled_bytes = sub64 (add64 r.unassembled_bytes 0) 0;
    first_index = add64 r.first_index 0;
  }

  store-passed : store end_key r p ≡ ok passed
  unfolding store lower_bound place candidate insert settle absorb flush rejoin passed
  store-passed =
      let nothing : lower_bound p.index [] r.unassembled ≡ ([], []) = rw none_stored in
      let at_first : (p.index == r.first_index) ≡ true = rw here (==_self r.first_index) in
      ap (λ q. place (end_key r.unassembled) p q.0 q.1 r.unassembled_bytes >>= settle r) nothing
      ∙ rw (at_first, no_bytes, no_size)

  passed-Stored : Stored stream r (λ i. false) passed
  unfolding passed slice
  passed-Stored =
      let (o, lim, flag) =
        write_slice stream r.output r.first_index 0 v.output_ok (omega arith) (omega arith) in
      let zero_bytes : r.unassembled_bytes ≡ 0 = v.counted ∙ ap total none_stored in
      record {
        inv = record {
          output_ok =
              rw same_first
                (subst (λ j. OutputOk stream (ByteStream.write r.output []).0 j) (omega arith) o);
          entries_ok = tt;
          counted = omega (arith, zero_bytes);
          ended = flag ∙ v.ended;
        };
        same_limit = lim;
        kept = (refl, refl, refl);
        holds = λ i. rw (none_stored, same_first) (ground arith);
      }

  pub full_store :
      (r' : StreamReassembler) × (store end_key r p ≡ ok r') × Stored stream r (λ i. false) r'
  full_store = (passed, store-passed, passed-Stored)
