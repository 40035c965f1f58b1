-- ===== src/Reassembler/Tests.antt =====
-- The witnesses of the theorems on the reassembler, and a test.
use tcp_lab.Base.{
  ℕ, Bool, true, false, not, ◌&&◌, ◌||◌, ◌+◌, ◌≡◌, refl, if◌then◌else◌, List, [], ◌∷◌, All, length,
  arith, ok, Result, ◌>>=◌,
}
use tcp_lab.Reassembler.Behind.{length-Misses, Inv-Misses}
use tcp_lab.Util.Buffer
use tcp_lab.Util.BufferList
use tcp_lab.ByteStream
use tcp_lab.Reassembler.{
  EndKey, StreamReassembler, new, push_substring, store, lower_bound, trim, place, candidate,
  insert, extend, absorb, flush, rejoin, close,
}
use tcp_lab.Reassembler.Stream.{slice}
use tcp_lab.Reassembler.Events.{Event, Trace, push, get, run, started, IsCut}
use tcp_lab.Reassembler.Runs.{Assembled, run_collects}
use tcp_lab.Reassembler.Window.{Extended, new-Inv, push_substring_window}

abbrev fresh : StreamReassembler
fresh = new 8

-- The stream whose byte at each index is the index.
abbrev stream : ℕ → ℕ
stream i = i

abbrev end_key : EndKey
end_key es = length es

abbrev second_half : List ℕ
second_half = 2 ∷ 3 ∷ []

push_substring_window_example :
    (r' : StreamReassembler) × (push_substring end_key fresh second_half 2 true ≡ ok r')
    × Extended stream second_half 2 fresh r'
    × (r'.eof ≡ (fresh.eof || true))
    × (r'.eof_index ≡ (if true && not fresh.eof then 2 + length second_half else fresh.eof_index))
unfolding new slice
push_substring_window_example =
    push_substring_window stream end_key second_half 2 true fresh (new-Inv stream 8 (omega arith)).0
      (unfold ByteStream.new in omega arith) (omega arith) refl refl
      (Inv-Misses stream end_key fresh _ length-Misses (new-Inv stream 8 (omega arith)).0)

-- The second half comes first, and twice; the first part overlaps it.
abbrev events : List Event
events =
    push second_half 2 true
    ∷ get 5
    ∷ push (0 ∷ 1 ∷ 2 ∷ []) 0 false
    ∷ get 3
    ∷ push second_half 2 true
    ∷ []

events-IsCut : All (IsCut stream 4) events
unfolding slice
events-IsCut = (
  (omega arith, refl, λ _. refl),
  (tt, ((omega arith, refl, λ h. cc), (tt, ((omega arith, refl, λ _. refl), tt)))),
)

run_collects_example :
    (t : Trace) × (run end_key (started 8) events ≡ ok t) × Assembled stream 4 events t
run_collects_example =
    run_collects stream 4 8 end_key events (omega arith) (omega arith) length-Misses events-IsCut

abbrev summary : StreamReassembler → Result (ℕ × Bool × List ℕ)
summary r = ok (r.first_index, r.eofed, BufferList.concatenate r.output.buffer)

-- The second half arrives first; the first half completes the stream.
out_of_order :
    (push_substring end_key fresh second_half 2 true
      >>= (λ r. push_substring end_key r (0 ∷ 1 ∷ []) 0 false >>= summary))
    ≡ ok (4, true, 0 ∷ 1 ∷ 2 ∷ 3 ∷ [])
unfolding new push_substring store lower_bound trim place candidate insert extend absorb flush
    rejoin close ByteStream.new ByteStream.remaining_capacity ByteStream.write ByteStream.end_input
    BufferList.size BufferList.concatenate BufferList.append BufferList.remove_prefix Buffer.str
    Buffer.size Buffer.remove_prefix
out_of_order = refl
