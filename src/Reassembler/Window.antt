-- ===== src/Reassembler/Window.antt =====
-- `push_substring` of libsponge/stream_reassembler.cc as a whole: the bytes that it holds after a
-- call, whatever the order of the calls, and the end of the stream.
use tcp_lab.Base.{
  ℕ, ◌+◌, ◌^◌, ◌<◌, ◌≡◌, ◌≢◌, ◌∙◌, ap, refl, Bool, true, false, ◌&&◌, ◌||◌, not, leb, ltb, ltb→lt,
  ltb→le, Bool-cases, if_false, ◌==◌, if◌then◌else◌, inl, inr, List, arith, length, add64, sub64,
  IsU64, Result, ok, ◌>>=◌,
}
use tcp_lab.Reassembler.{EndKey}
use tcp_lab.Reassembler.Behind.{reads_end}
use tcp_lab.Util.BufferList
use tcp_lab.Util.BufferList.View
use tcp_lab.ByteStream
use tcp_lab.ByteStream.{ByteStream}
use tcp_lab.Reassembler.{StreamReassembler, new, store, trim, note_eof, close, push_substring}
use tcp_lab.Reassembler.Stream.{slice}
use tcp_lab.Reassembler.Entries.{covers, covers-Above}
use tcp_lab.Reassembler.Trim.{offered, trim-IsPiece, within-trim, trim_full}
use tcp_lab.Reassembler.Flush.{limit_of, Inv, held}
use tcp_lab.Reassembler.Push.{Stored, store_ok}
use tcp_lab.Reassembler.Full.{full_store}
use tcp_lab.Reassembler.Ready.{
  from_index, window_end, first-le-limit, close-Inv, close_keeps, nothing_new, window_open,
  nothing_below, assembled_before,
}

module _ (stream : ℕ → ℕ) (end_key : EndKey) (bytes : List ℕ) (index : ℕ) where
  -- What a call has done to the state `r`.
  pub record Pushed (r r' : StreamReassembler) : Type 0 where
    pub inv : Inv stream r'
    pub same_limit : limit_of r'.output ≡ limit_of r.output
    pub holds :
        (i : ℕ) → held r' i ≡ (held r i || (offered index bytes i && ltb i (limit_of r.output)))
    pub eof_kept : (r'.eof ≡ r.eof) × (r'.eof_index ≡ r.eof_index)
    pub ended : r'.eofed ≡ (r'.eof && r'.first_index == r'.eof_index)

  -- `push_substring` behind `if (_eofed)` and `if (eof && not _eof)`.
  abbrev admit : StreamReassembler → Result StreamReassembler
  admit r =
      let max_acindex = add64 r.first_index (ByteStream.remaining_capacity r.output) in
      if ltb (sub64 (add64 index (length bytes)) 1) r.first_index
        || (leb max_acindex index || length bytes == 0)
      then ok (close r)
      else (store end_key r (trim bytes index r.first_index max_acindex)
          >>= (λ r''. ok (close r'')))

  module _ (r : StreamReassembler) (v : Inv stream r) (window : limit_of r.output < 2 ^ 63)
      (fits : IsU64 (index + length bytes)) (cut : bytes ≡ slice stream index (length bytes))
      (running : r.eofed ≡ false)
      (past_end : reads_end (from_index r index) r.unassembled ≡ true
        → end_key r.unassembled ≢ from_index r index) where
    abbrev limit : ℕ
    limit = limit_of r.output

    abbrev early : Bool
    early =
        ltb (sub64 (add64 index (length bytes)) 1) r.first_index
        || (leb limit index || length bytes == 0)

    closed :
        (r' : StreamReassembler)
        → r'.eofed ≡ false
        → (close r').eofed ≡ ((close r').eof && (close r').first_index == (close r').eof_index)
    closed r' e = let (_, _, f, g, h, k) = close_keeps r' in rw (k, f, g, h, e)

    -- The piece is stored, if there is room for any byte.
    stored :
        early ≡ false
        → (r' : StreamReassembler) × (store end_key r (trim bytes index r.first_index limit)
            ≡ ok r')
          × Stored stream r (λ i. offered index bytes i && (leb r.first_index i && ltb i limit)) r'
    unfolding trim
    stored e =
        let (reaches, starts, some_bytes) =
          window_open r.first_index limit index (length bytes) fits e in
        elim (Bool-cases (ltb r.first_index limit)) [
          | inl room ↦
              let (r', s, t) =
                store_ok stream end_key r v window (trim bytes index r.first_index limit)
                  (trim-IsPiece stream limit bytes index r.first_index cut (omega arith) fits
                    reaches starts some_bytes (ltb→lt _ _ room))
                  (ground arith) past_end in
              (
                r',
                s,
                record {
                  inv = t.inv;
                  same_limit = t.same_limit;
                  kept = t.kept;
                  holds = λ i.
                      t.holds i
                      ∙ ap (λ b. held r i || b)
                          (within-trim stream limit bytes index r.first_index cut (omega arith) fits
                            reaches starts some_bytes (ltb→lt _ _ room) i);
                },
              )
          | inr full ↦
              let filled : r.first_index ≡ limit =
                omega (arith, ltb→le _ _ full, first-le-limit stream r v) in
              let (here, no_bytes) =
                trim_full bytes index r.first_index fits reaches (omega arith) in
              let (r', s, t) =
                full_store stream end_key r v window filled
                  (trim bytes index r.first_index r.first_index) here no_bytes
                  (View.size_lem _ ∙ ap length no_bytes) in
              (
                r',
                rw (← filled) s,
                record {
                  inv = t.inv;
                  same_limit = t.same_limit;
                  kept = t.kept;
                  holds = λ i.
                      t.holds i
                      ∙ ap (λ b. held r i || b)
                          (nothing_below r.first_index limit i (offered index bytes i) filled);
                },
              )
        ]

    admit_ok : (r' : StreamReassembler) × (admit r ≡ ok r') × Pushed r r'
    admit_ok = elim (Bool-cases early) [
      | inl e ↦
          let (h, l, f, g, k, _) = close_keeps r in
          (
            close r,
            rw (window_end stream r v window, e),
            record {
              inv = close-Inv stream r v;
              same_limit = l;
              holds = λ i.
                  h i
                  ∙ nothing_new r.first_index limit index (length bytes) i (covers r.unassembled i)
                      fits e;
              eof_kept = (g, k);
              ended = closed r running;
            },
          )
      | inr e ↦
          let (r', s, t) = stored e in
          let (h, l, f, g, k, _) = close_keeps r' in
          (
            close r',
            rw (window_end stream r v window, e, s),
            record {
              inv = close-Inv stream r' t.inv;
              same_limit = l ∙ t.same_limit;
              holds = λ i.
                  h i
                  ∙ t.holds i
                  ∙ assembled_before r.first_index limit i (covers r.unassembled i)
                      (offered index bytes i);
              eof_kept = (g ∙ t.kept.0, k ∙ t.kept.1);
              ended = closed r' (t.kept.2 ∙ running);
            },
          )
    ]

pub record Extended (stream : ℕ → ℕ) (bytes : List ℕ) (index : ℕ) (r r' : StreamReassembler)
    : Type 0 where
  pub inv : Inv stream r'
  pub same_limit : limit_of r'.output ≡ limit_of r.output
  pub holds :
      (i : ℕ) → held r' i ≡ (held r i || (offered index bytes i && ltb i (limit_of r.output)))
  pub exact : held r' r'.first_index ≡ false
  pub ended : r'.eofed ≡ (r'.eof && r'.first_index == r'.eof_index)

pub first-missing :
    (stream : ℕ → ℕ) (r : StreamReassembler) → Inv stream r → held r r.first_index ≡ false
first-missing stream r v = ground (
  arith,
  covers-Above stream (limit_of r.output) r.first_index r.first_index r.unassembled v.entries_ok
      (omega arith),
)

-- Let the reassembler be in order with respect to a stream, its window end below 2 ^ 63, the
-- stream not be at its end, and `bytes` be the stream's bytes from `index` on, below 2 ^ 64. The
-- value read behind the end of the map, if it is read, is not the index that is looked up. Then `push_substring`
-- does not throw, and the new state is in order, with the same end of the window. It holds
-- exactly the bytes that it held and those of `bytes` that lie in the window;
-- `first_unassembled` is not among them, though all before it are. The end of the stream is noted
-- if it was already or `eof` is set, and the stream is ended exactly if `first_unassembled` is
-- that end.
pub push_substring_window :
    (stream : ℕ → ℕ) (end_key : EndKey) (bytes : List ℕ) (index : ℕ) (eof : Bool)
    (r : StreamReassembler)
    → Inv stream r
    → limit_of r.output < 2 ^ 63
    → IsU64 (index + length bytes)
    → bytes ≡ slice stream index (length bytes)
    → r.eofed ≡ false
    → (reads_end (from_index r index) r.unassembled ≡ true
        → end_key r.unassembled ≢ from_index r index)
    → (r' : StreamReassembler) × (push_substring end_key r bytes index eof ≡ ok r')
      × Extended stream bytes index r r'
      × (r'.eof ≡ (r.eof || eof))
      × (r'.eof_index ≡ (if eof && not r.eof then index + length bytes else r.eof_index))
unfolding push_substring note_eof
push_substring_window stream end_key bytes index eof r v window fits cut running past_end =
    elim (Bool-cases (eof && not r.eof)) [
      | inl e ↦
          let noted : StreamReassembler = record r {
            eof = true;
            eof_index = add64 index (length bytes);
          } in
          let (r', p, k) =
            admit_ok stream end_key bytes index noted
              (record {
                output_ok = v.output_ok;
                entries_ok = v.entries_ok;
                counted = v.counted;
                ended = v.ended;
              })
              window fits cut running past_end in
          (
            r',
            rw e (if_false r.eofed _ _ running ∙ p),
            record {
              inv = k.inv;
              same_limit = k.same_limit;
              holds = k.holds;
              exact = first-missing stream r' k.inv;
              ended = k.ended;
            },
            k.eof_kept.0 ∙ ground arith,
            rw e (k.eof_kept.1 ∙ omega arith),
          )
      | inr e ↦
          let (r', p, k) =
            admit_ok stream end_key bytes index r v window fits cut running past_end in
          (
            r',
            rw e (if_false r.eofed _ _ running ∙ p),
            record {
              inv = k.inv;
              same_limit = k.same_limit;
              holds = k.holds;
              exact = first-missing stream r' k.inv;
              ended = k.ended;
            },
            k.eof_kept.0 ∙ ground arith,
            rw e k.eof_kept.1,
          )
    ]

-- A new reassembler is in order with respect to every stream, and holds nothing.
pub new-Inv :
    (stream : ℕ → ℕ) (capacity : ℕ)
    → IsU64 capacity
    → Inv stream (new capacity) × ((i : ℕ) → held (new capacity) i ≡ false)
unfolding new ByteStream.new BufferList.concatenate slice
new-Inv stream capacity h = (
  record {
    output_ok = record {
      valid = record {
        fits = omega arith;
        counted = refl;
        bounded = omega arith;
        capacity_bounded = h;
      };
      wrote = refl;
      content = refl;
    };
    entries_ok = tt;
    counted = refl;
    ended = refl;
  },
  λ i. ground arith,
)
