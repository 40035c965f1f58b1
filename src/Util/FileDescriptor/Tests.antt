-- ===== src/Util/FileDescriptor/Tests.antt =====
-- The witness of the theorem on `write`: a kernel that takes three bytes at a time.
use tcp_lab.Base.{ℕ, ◌≡◌, refl, [], ◌∷◌, true, false, some, Option, arith, length, min, ok}
use tcp_lab.Util.BufferViewList.{BufferViewList, flatten}
use tcp_lab.Util.FileDescriptor.{FileDescriptor, Written, write}
use tcp_lab.Util.FileDescriptor.Writes.{Accepts, write_all_lem}

abbrev three_at_a_time : ℕ → BufferViewList → Option ℕ
three_at_a_time count views = some (min 3 (length (flatten views)))

three_at_a_time-Accepts : Accepts three_at_a_time
three_at_a_time-Accepts count views =
    (min 3 (length (flatten views)), refl, omega arith, omega arith)

abbrev socket : FileDescriptor
socket = record { fd_num = 3; eof = false; closed = false; read_count = 0; write_count = 0 }

abbrev views : BufferViewList
views = (1 ∷ 2 ∷ []) ∷ (3 ∷ 4 ∷ 5 ∷ 6 ∷ []) ∷ []

write_all_lem_example :
    (w : Written) × (write three_at_a_time socket views true ≡ ok w)
    × (w.taken ≡ 1 ∷ 2 ∷ 3 ∷ 4 ∷ 5 ∷ 6 ∷ [])
    × (w.total ≡ 6)
write_all_lem_example =
    write_all_lem three_at_a_time socket views three_at_a_time-Accepts (omega arith)
