-- ===== src/Copy/Moves.antt =====
-- The steps that the callbacks of apps/bidirectional_stream_copy.cc share: a read into a stream, and a
-- write of a stream's first bytes.
use tcp_lab.Base.{
  ℕ, ◌*◌, ◌≤◌, ◌≡◌, refl, ◌∙◌, ap, Bool, true, false, not, ◌&&◌, ltb, ltb→le, ◌==◌, if◌then◌else◌,
  Option, none, some, List, [], ◌∷◌, ◌++◌, append-nil, arith, min, length, length-take, take,
  take_all, drop, take-append-drop, Safe, Safe-bind, Safe-if, ok, throw, runtime_error, IsU64,
}
use tcp_lab.Util.BufferViewList
use tcp_lab.Util.BufferViewList.{BufferViewList, flatten}
use tcp_lab.Util.FileDescriptor
use tcp_lab.Util.FileDescriptor.{
  FileDescriptor, Written, write_once, write_loop, register_write, register_read,
}
use tcp_lab.ByteStream
use tcp_lab.ByteStream.{ByteStream}
use tcp_lab.ByteStream.Laws.{contents, contents-write, pop_contents, pop_taken}
use tcp_lab.Copy.{read_into, write_from}

-- A read(2) gives no more than was asked for.
read_lem :
    (kernel : ℕ → Option (List ℕ)) (f : FileDescriptor) (limit : ℕ)
    → Safe (λ q. length q.1 ≤ limit) (FileDescriptor.read kernel f limit)
unfolding FileDescriptor.read
read_lem kernel f limit =
    let size = min (1024 * 1024) limit in
    elim (kernel size)
      as (λ o.
        Safe {A = FileDescriptor × List ℕ} (λ q. length q.1 ≤ limit)
          (elim o [
            | none ↦ throw runtime_error
            | some bytes ↦
                let f' = if ltb 0 limit && length bytes == 0 then record f { eof = true } else f in
                if ltb size (length bytes)
                then throw runtime_error
                else ok (register_read f', bytes)
          ])) [
            | none ↦ refl
            | some bytes ↦
                Safe-if (λ q. length q.1 ≤ limit) (ltb size (length bytes)) _ _ (λ _. refl)
                  (λ e. omega (arith, ltb→le _ _ e))
          ]

ended_same :
    (b : Bool) (s : ByteStream) → contents (if b then ByteStream.end_input s else s) ≡ contents s
unfolding ByteStream.end_input
ended_same true s = refl
ended_same false s = refl

-- The rest of the callback for an inbound descriptor.
pub read_into_lem :
    (kernel : ℕ → Option (List ℕ)) (f : FileDescriptor) (stream : ByteStream)
    → Safe (λ q. contents q.1 ≡ contents stream ++ q.2) (read_into kernel f stream)
unfolding read_into
read_into_lem kernel f stream =
    Safe-bind (λ q. length q.1 ≤ ByteStream.remaining_capacity stream)
      (λ q. contents q.1 ≡ contents stream ++ q.2)
      (FileDescriptor.read kernel f (ByteStream.remaining_capacity stream)) _
      (read_lem kernel f (ByteStream.remaining_capacity stream))
      (λ q le.
        ended_same q.0.eof (ByteStream.write stream q.1).0
        ∙ contents-write stream q.1
        ∙ ap (λ k. contents stream ++ k) (take_all _ q.1 (omega (arith, le))))

-- What a write leaves of `views`.
abbrev Fronts : BufferViewList → Written → Type 0
Fronts views w = (rest : List ℕ) × (w.taken ++ rest ≡ flatten views) × (w.total ≡ length w.taken)

-- A write of some of the bytes takes them from the front.
write_once_lem :
    (f : FileDescriptor) (views : BufferViewList) (n : ℕ)
    → IsU64 (length (flatten views))
    → Safe
        (Fronts views)
        (write_once (record { file = f; buffer = views; total = 0; taken = [] }) n)
unfolding write_once
write_once_lem f views n fits =
    Safe-if (Fronts views) (n == 0 && not (BufferViewList.size views == 0)) _ _ (λ _. refl)
      (λ _.
        Safe-if (Fronts views) (ltb (BufferViewList.size views) n) _ _ (λ _. refl)
          (λ e.
            let size = BufferViewList.size_lem views in
            let le : n ≤ length (flatten views) = omega (arith, size, ltb→le _ _ e) in
            let (left, e', d) = BufferViewList.remove_prefix_ok views n (omega (arith, le, size)) in
            rw e' (
              drop n (flatten views),
              take-append-drop n (flatten views),
              omega (arith, le, fits, length-take n (flatten views)),
            )))

write_lem :
    (writev : ℕ → BufferViewList → Option ℕ) (f : FileDescriptor) (views : BufferViewList)
    → IsU64 (length (flatten views))
    → Safe (Fronts views) (FileDescriptor.write writev f views false)
unfolding FileDescriptor.write write_loop
write_lem writev f views fits =
    let answer : (o : Option ℕ)
        → Safe (λ _. Unit {0}) (elim o [ none ↦ throw runtime_error | some k ↦ ok k ]) =
      λ o.
        elim o
          as (λ o. Safe (λ _. Unit {0}) (elim o [ none ↦ throw runtime_error | some k ↦ ok k ])) [
            | none ↦ refl
            | some k ↦ tt
          ] in
    Safe-bind (λ _. Unit {0}) (Fronts views) _ _ (answer (writev f.write_count views))
      (λ n _.
        Safe-bind (Fronts views) (Fronts views)
          (write_once (record { file = f; buffer = views; total = 0; taken = [] }) n) _
          (write_once_lem f views n fits) (λ w k. k))

-- The rest of the callback for an outbound descriptor.
pub write_from_lem :
    (writev : ℕ → BufferViewList → Option ℕ) (f : FileDescriptor) (stream : ByteStream)
    → Safe (λ q. q.2 ++ contents q.1 ≡ contents stream) (write_from writev f stream)
unfolding write_from ByteStream.peek_output
write_from_lem writev f stream =
    let n = min 65536 (ByteStream.buffer_size stream) in
    let view = append-nil (take n (contents stream)) in
    Safe-bind (Fronts (take n (contents stream) ∷ [])) (λ q. q.2 ++ contents q.1 ≡ contents stream)
      (FileDescriptor.write writev f (take n (contents stream) ∷ []) false) _
      (write_lem writev f (take n (contents stream) ∷ [])
        (omega (arith, ap length view, length-take n (contents stream))))
      (λ w (rest, front, count).
        let (s, e, popped) = pop_contents stream w.total in
        rw e (
          ap (λ k. w.taken ++ k) (popped ∙ ap (λ k. drop k (contents stream)) count)
          ∙ pop_taken (contents stream) w.taken rest n (front ∙ view)))
