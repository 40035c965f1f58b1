-- ===== src/Reassembler/Events.antt =====
-- Runs of `push_substring` (libsponge/stream_reassembler.cc) and of reads of the output.
use tcp_lab.Base.{
  ℕ, ◌+◌, ◌≤◌, ◌≡◌, Bool, true, false, ◌||◌, List, [], ◌∷◌, ◌++◌, length, Result, ok, ◌>>=◌,
}
use tcp_lab.Reassembler.{EndKey}
use tcp_lab.ByteStream
use tcp_lab.Reassembler.{StreamReassembler, new, push_substring}
use tcp_lab.Reassembler.Stream.{slice}
use tcp_lab.Reassembler.Trim.{offered}

-- A substring arrives, or the client reads.
pub data Event : Type 0 where
  push : List ℕ → ℕ → Bool → Event
  get : ℕ → Event

-- What the client has read, and the reassembler.
pub record Trace : Type 0 where
  pub out : List ℕ
  pub reassembler : StreamReassembler

abbrev pub step : EndKey → Trace → Event → Result Trace
step end_key t (push bytes index eof) =
    push_substring end_key t.reassembler bytes index eof >>= λ r. ok (record t { reassembler = r })
step end_key t (get n) = do
  (bytes, o) ← ByteStream.read t.reassembler.output n
  ok (record { out = t.out ++ bytes; reassembler = record t.reassembler { output = o } })

unfoldable pub run : EndKey → Trace → List Event → Result Trace
run end_key t [] = ok t
run end_key t (x ∷ xs) = step end_key t x >>= λ u. run end_key u xs

abbrev pub started : ℕ → Trace
started capacity = record { out = []; reassembler = new capacity }

-- Whether an event has the byte at `i`, and whether it has the end of the stream.
abbrev pub offers : Event → ℕ → Bool
offers (push bytes index eof) i = offered index bytes i
offers (get n) i = false

abbrev pub any_offers : List Event → ℕ → Bool
any_offers [] i = false
any_offers (x ∷ xs) i = offers x i || any_offers xs i

abbrev pub ends : Event → Bool
ends (push bytes index eof) = eof
ends (get n) = false

abbrev pub any_ends : List Event → Bool
any_ends [] = false
any_ends (x ∷ xs) = ends x || any_ends xs

-- A substring is a piece of the stream, whose length is `n`, and is marked by `eof` only at its end.
abbrev pub IsCut : (ℕ → ℕ) → ℕ → Event → Type 0
IsCut stream n (push bytes index eof) =
    (index + length bytes ≤ n)
    × (bytes ≡ slice stream index (length bytes))
    × (eof ≡ true → index + length bytes ≡ n)
IsCut stream n (get k) = Unit {0}
