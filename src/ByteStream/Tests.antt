-- ===== src/ByteStream/Tests.antt =====
-- The witness of the theorem on byte streams, and a test.
use tcp_lab.Base.{◌≤◌, ◌≡◌, refl, List, [], ◌∷◌, ◌++◌, arith, length, ok}
use tcp_lab.Util.BufferList
use tcp_lab.ByteStream.{new, write, bytes_written, bytes_read}
use tcp_lab.ByteStream.Laws.{contents}
use tcp_lab.ByteStream.Runs.{Call, put, get, close, Trace, run, started, run-fifo}

-- Three bytes of room: the first call offers five.
abbrev calls : List Call
calls = put (1 ∷ 2 ∷ 3 ∷ 4 ∷ 5 ∷ []) ∷ get 2 ∷ put (6 ∷ 7 ∷ 8 ∷ []) ∷ close ∷ get 1 ∷ []

write_stops_when_full : (write (new 3) (1 ∷ 2 ∷ 3 ∷ 4 ∷ [])).1 ≡ 3
unfolding write new BufferList.size
write_stops_when_full = refl

run-fifo_example :
    (t : Trace) × (run (started 3) calls ≡ ok t)
    × (t.inn ≡ t.out ++ contents t.stream)
    × (bytes_written t.stream ≡ length t.inn)
    × (bytes_read t.stream ≡ length t.out)
    × (length (contents t.stream) ≤ 3)
run-fifo_example = run-fifo 3 calls (omega arith) (omega arith)
