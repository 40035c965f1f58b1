-- ===== src/Reassembler.antt =====
-- libsponge/stream_reassembler.hh and stream_reassembler.cc.
-- The map `_unassembled` is the list of its entries in the order of their keys, and an iterator
-- into it is a place in the list: the entries before it, nearest first, and those from it on.
-- `size_t` arithmetic wraps at 2 ^ 64.
pub mod Stream
pub mod Entries
pub mod Trim
pub mod Merge
pub mod Place
pub mod Absorb
pub mod Flush
pub mod Behind
pub mod Push
pub mod Full
pub mod Ready
pub mod Window
pub mod Reads
pub mod Events
pub mod Collected
pub mod Runs
mod Tests
use tcp_lab.Base.{
  ℕ, Bool, true, false, not, ◌&&◌, ◌||◌, Option, none, some, List, [], ◌∷◌, ltb, leb, ◌==◌,
  if◌then◌else◌, length, take, drop, add64, sub64, Result, ok, throw, ◌>>=◌, undefined_behaviour,
}
use tcp_lab.Util.BufferList
use tcp_lab.Util.BufferList.{BufferList}
use tcp_lab.ByteStream
use tcp_lab.ByteStream.{ByteStream}

-- An entry of the map: the key, and the pair that it leads to.
pub record Entry : Type 0 where
  pub start : ℕ
  pub end : ℕ
  pub bytes : BufferList

pub record StreamReassembler : Type 0 where
  pub output : ByteStream
  pub capacity : ℕ
  pub unassembled : List Entry
  pub unassembled_bytes : ℕ
  pub first_index : ℕ
  pub eof_index : ℕ
  pub eof : Bool
  pub eofed : Bool

unfoldable pub new : ℕ → StreamReassembler
new capacity = record {
  output = ByteStream.new capacity;
  capacity = capacity;
  unassembled = [];
  unassembled_bytes = 0;
  first_index = 0;
  eof_index = 0;
  eof = false;
  eofed = false;
}

-- `_unassembled.lower_bound(index)`: the entries with smaller keys, nearest first, and the rest.
unfoldable pub lower_bound : ℕ → List Entry → List Entry → List Entry × List Entry
lower_bound index before [] = (before, [])
lower_bound index before (e ∷ es) =
    let further = lower_bound index (e ∷ before) es in
    if ltb e.start index then further else (before, e ∷ es)

-- The whole map, from a place in it.
unfoldable pub rejoin : List Entry → List Entry → List Entry
rejoin [] after = after
rejoin (e ∷ before) after = rejoin before (e ∷ after)

-- The part of a substring that may be stored.
pub record Piece : Type 0 where
  pub index : ℕ
  pub len : ℕ
  pub end : ℕ
  pub buf : BufferList

-- The preprocessing: cut what lies before `first_index`, and from `max_acindex` on.
unfoldable pub trim : List ℕ → ℕ → ℕ → ℕ → Piece
trim bytes index first max_acindex =
    let offset = if ltb index first then sub64 first index else 0 in
    let index_c = if ltb index first then first else index in
    let length_c = sub64 (length bytes) offset in
    let over = ltb max_acindex (add64 index_c length_c) in
    let length_c' = if over then sub64 max_acindex index_c else length_c in
    let end_index =
      if over then sub64 (add64 index_c length_c') 1 else sub64 (add64 index (length bytes)) 1 in
    record {
      index = index_c;
      len = length_c';
      end = end_index;
      buf = BufferList.of_string (take length_c' (drop offset bytes));
    }

-- Where `insert` points: its entry, what stands around it, the count of bytes, and `finish`.
pub record Spot : Type 0 where
  pub before : List Entry
  pub entry : Entry
  pub after : List Entry
  pub count : ℕ
  pub finish : Bool

-- What the read of `it->first` yields where `it` is `cend()`, for the entries of the map. C++ leaves
-- it undefined; libstdc++ keeps the number of entries there.
abbrev pub EndKey : Type 0
EndKey = List Entry → ℕ

-- The entry that the piece may extend: the one with the same key, or else the one before it.
-- At the end of the map the source reads `it->first` through `cend()`; `end_key` is the value that
-- the read yields. If that is the piece's index, the source goes on to
-- use the entry behind `cend()`.
unfoldable pub candidate :
    ℕ → ℕ → List Entry → List Entry → Result (Option (List Entry × Entry × List Entry))
candidate end_key index [] [] = ok none
candidate end_key index [] (x ∷ after) =
    if x.start == index then ok (some ([], x, after)) else ok none
candidate end_key index (y ∷ before) [] =
    if end_key == index then throw undefined_behaviour else ok (some (before, y, []))
candidate end_key index (y ∷ before) (x ∷ after) =
    if x.start == index then ok (some (y ∷ before, x, after)) else ok (some (before, y, x ∷ after))

-- `_unassembled.insert`, which keeps an entry that has the same key.
unfoldable pub insert : Piece → List Entry → List Entry → ℕ → Spot
insert p before [] count = record {
  before = before;
  entry = record { start = p.index; end = p.end; bytes = p.buf };
  after = [];
  count = add64 count (BufferList.size p.buf);
  finish = false;
}
insert p before (x ∷ after) count =
    let same = x.start == p.index in
    record {
      before = before;
      entry = if same then x else record { start = p.index; end = p.end; bytes = p.buf };
      after = if same then after else x ∷ after;
      count = add64 count (BufferList.size p.buf);
      finish = false;
    }

-- The piece against the entry `e`: covered by it (`finish`), appended to it (`merged`), or apart.
unfoldable pub extend : Piece → List Entry → Entry → List Entry → ℕ → Result (Option Spot)
extend p before e after count =
    let olap_len = add64 (sub64 e.end p.index) 1 in
    if leb p.index (add64 e.end 1)
    then if leb p.len olap_len
      then ok (
          some (record { before = before; entry = e; after = after; count = count; finish = true }))
      else (BufferList.remove_prefix p.buf olap_len >>= (λ buf. ok (
          some (record {
            before = before;
            entry = record e { end = p.end; bytes = BufferList.append e.bytes buf };
            after = after;
            count = add64 count (BufferList.size buf);
            finish = false;
          }))))
    else ok none

-- The search for the place of the piece, up to `insert`.
unfoldable pub place : ℕ → Piece → List Entry → List Entry → ℕ → Result Spot
place end_key p before after count = do
  c ← candidate end_key p.index before after
  elim c [
    | none ↦ ok (insert p before after count)
    | some (b, e, a) ↦ do
      s ← extend p b e a count
      elim s [ none ↦ ok (insert p before after count) | some spot ↦ ok spot ]
  ]

-- The loop that merges the entries behind `insert` into it.
unfoldable pub absorb : Entry → List Entry → ℕ → Result (Entry × List Entry × ℕ)
absorb x [] count = ok (x, [], count)
absorb x (y ∷ ys) count =
    let erased = absorb x ys (sub64 count (BufferList.size y.bytes)) in
    let olap_len = add64 (sub64 x.end y.start) 1 in
    if leb y.end x.end
    then erased
    else if leb y.start (add64 x.end 1)
    then (BufferList.remove_prefix y.bytes olap_len >>= (λ rest. ok (
      record x { end = y.end; bytes = BufferList.append x.bytes rest },
      ys,
      sub64 count olap_len,
    )))
    else ok (x, y ∷ ys, count)

-- `if (_eof && _first_index == _eof_index)`
unfoldable pub close : StreamReassembler → StreamReassembler
close r =
    if r.eof && r.first_index == r.eof_index
    then record r { output = ByteStream.end_input r.output; eofed = true }
    else r

-- Write the entry to the stream if it begins at the first index that is missing.
unfoldable pub flush : StreamReassembler → List Entry → Entry → List Entry → ℕ → StreamReassembler
flush r before x after count =
    let seg_len = BufferList.size x.bytes in
    if x.start == r.first_index
    then record r {
      output = (ByteStream.write r.output (BufferList.concatenate x.bytes)).0;
      unassembled = rejoin before after;
      unassembled_bytes = sub64 count seg_len;
      first_index = add64 r.first_index seg_len;
    }
    else record r { unassembled = rejoin before (x ∷ after); unassembled_bytes = count }

pub settle : StreamReassembler → Spot → Result StreamReassembler
settle r s =
    if s.finish
    then ok (flush r s.before s.entry s.after s.count)
    else (absorb s.entry s.after s.count >>= (λ t. ok (flush r s.before t.0 t.1 t.2)))

-- The body of `push_substring` behind its early returns.
unfoldable pub store : EndKey → StreamReassembler → Piece → Result StreamReassembler
unfolding settle
store end_key r p = do
  let (before, after) = lower_bound p.index [] r.unassembled
  s ← place (end_key r.unassembled) p before after r.unassembled_bytes
  settle r s

-- `if (eof && not _eof)`
unfoldable pub note_eof : StreamReassembler → ℕ → ℕ → Bool → StreamReassembler
note_eof r index len eof =
    if eof && not r.eof then record r { eof = true; eof_index = add64 index len } else r

unfoldable pub push_substring :
    EndKey → StreamReassembler → List ℕ → ℕ → Bool → Result StreamReassembler
unfolding note_eof
push_substring end_key r bytes index eof =
    let r' = note_eof r index (length bytes) eof in
    let end_index = sub64 (add64 index (length bytes)) 1 in
    let max_acindex = add64 r.first_index (ByteStream.remaining_capacity r.output) in
    if r.eofed
    then ok r
    else if ltb end_index r.first_index || (leb max_acindex index || length bytes == 0)
    then ok (close r')
    else (store end_key r' (trim bytes index r.first_index max_acindex) >>= (λ r''. ok (close r'')))

unfoldable pub empty : StreamReassembler → Bool
empty r = r.unassembled_bytes == 0
