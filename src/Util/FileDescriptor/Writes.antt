-- ===== src/Util/FileDescriptor/Writes.antt =====
-- `FileDescriptor::write` of libsponge/util/file_descriptor.cc, in front of a kernel that may take
-- less than it is offered.
use tcp_lab.Base.{
  ℕ, zero, suc, ◌-◌, ◌≤◌, ◌<◌, ◌≡◌, refl, sym, ◌∙◌, ap, Bool, true, false, not, ◌&&◌, ◌==◌, min,
  Option, some, List, [], ◌++◌, append_assoc, append-nil, ◌∷◌, if◌then◌else◌, arith, Bool-cases,
  inl, inr, if_true, if_false, ==→eq, ==→ne, length, length-drop, length-take, length-append, take,
  take-append-drop, add64, ok, IsU64,
}
use tcp_lab.Util.BufferViewList
use tcp_lab.Util.BufferViewList.{BufferViewList, flatten, size_lem, remove_prefix_ok}
use tcp_lab.Util.FileDescriptor.{
  FileDescriptor, Written, write_once, write_loop, write, register_write,
}

-- The kernel takes bytes whenever it is offered some, and no more than it is offered.
abbrev pub Accepts : (ℕ → BufferViewList → Option ℕ) → Type 0
Accepts writev =
    (count : ℕ) (views : BufferViewList)
    → (n : ℕ) × (writev count views ≡ some n)
      × (n ≤ length (flatten views))
      × (min 1 (length (flatten views)) ≤ n)

-- After a turn of the loop.
record Turned (w w' : Written) : Type 0 where
  moved : w'.taken ++ flatten w'.buffer ≡ w.taken ++ flatten w.buffer
  counted : w.total ≡ length w.taken → w'.total ≡ length w'.taken
  shrinks : length (flatten w'.buffer) ≤ length (flatten w.buffer) - 1

write_once_lem :
    (w : Written) (n : ℕ)
    → n ≤ length (flatten w.buffer)
    → min 1 (length (flatten w.buffer)) ≤ n
    → IsU64 (length (w.taken ++ flatten w.buffer))
    → (w' : Written) × (write_once w n ≡ ok w') × Turned w w'
unfolding write_once
write_once_lem w n le pos fits =
    let (left, e, d) = remove_prefix_ok w.buffer n (omega (arith, size_lem w.buffer)) in
    (
      record {
        file = register_write w.file;
        buffer = left;
        total = add64 w.total n;
        taken = w.taken ++ take n (flatten w.buffer);
      },
      ground (arith, e, size_lem w.buffer),
      record {
        moved =
            append_assoc w.taken (take n (flatten w.buffer)) (flatten left)
            ∙ ap (λ k. w.taken ++ k)
                (ap (λ k. take n (flatten w.buffer) ++ k) d
                  ∙ take-append-drop n (flatten w.buffer));
        counted = λ c. omega (
          arith,
          c,
          fits,
          length-append w.taken (flatten w.buffer),
          length-append w.taken (take n (flatten w.buffer)),
          length-take n (flatten w.buffer),
        );
        shrinks = omega (arith, ap length d, length-drop n (flatten w.buffer));
      },
    )

append-empty : (xs ys : List ℕ) → length ys ≡ 0 → xs ++ ys ≡ xs
append-empty xs [] e = append-nil xs
append-empty xs (y ∷ ys) e = absurd (omega arith)

module _ (writev : ℕ → BufferViewList → Option ℕ) (accepts : Accepts writev) where
  -- A turn, and whether another one follows.
  loop_step :
      (fuel : ℕ) (write_all : Bool) (w : Written)
      → IsU64 (length (w.taken ++ flatten w.buffer))
      → (w' : Written) × Turned w w'
        × (write_loop writev write_all (suc fuel) w ≡ (
            if write_all && not (BufferViewList.size w'.buffer == 0)
            then write_loop writev write_all fuel w'
            else ok w'))
  unfolding write_loop
  loop_step fuel write_all w fits =
      let (n, e, le, pos) = accepts w.file.write_count w.buffer in
      let (w', e', t) = write_once_lem w n le pos fits in (w', t, rw (e, e') refl)

  loop_lem :
      (fuel : ℕ) (w : Written)
      → w.total ≡ length w.taken
      → IsU64 (length (w.taken ++ flatten w.buffer))
      → length (flatten w.buffer) < fuel
      → (w' : Written) × (write_loop writev true fuel w ≡ ok w')
        × (w'.taken ≡ w.taken ++ flatten w.buffer)
        × (w'.total ≡ length w'.taken)
  loop_lem zero w c fits le = absurd (omega arith)
  loop_lem (suc fuel) w c fits le =
      let (u, t, e) = loop_step fuel true w fits in
      elim (Bool-cases (BufferViewList.size u.buffer == 0)) [
        | inl done ↦ (
          u,
          e ∙ if_false _ _ _ (ap not done),
          sym (
                append-empty u.taken (flatten u.buffer)
                  (omega (arith, ==→eq _ _ done, size_lem u.buffer)))
              ∙ t.moved,
          t.counted c,
        )
        | inr more ↦
            let (z, e', took, count) =
              loop_lem fuel u (t.counted c) (rw t.moved fits)
                (omega (arith, t.shrinks, le, ==→ne _ _ more, size_lem u.buffer)) in
            (z, e ∙ if_true _ _ _ (ap not more) ∙ e', took ∙ t.moved, count)
      ]

-- In front of a kernel that takes a byte or more whenever it is offered some, and no more than it
-- is offered, `write` with `write_all` ends without an exception, for fewer than 2 ^ 64 bytes: the
-- kernel has taken all bytes of the views, in order, and their number is returned.
pub write_all_lem :
    (writev : ℕ → BufferViewList → Option ℕ) (f : FileDescriptor) (buffer : BufferViewList)
    → Accepts writev
    → IsU64 (length (flatten buffer))
    → (w : Written) × (write writev f buffer true ≡ ok w)
      × (w.taken ≡ flatten buffer)
      × (w.total ≡ length (flatten buffer))
unfolding write
write_all_lem writev f buffer accepts fits =
    let (w, e, t, c) =
      loop_lem writev accepts (suc (BufferViewList.size buffer))
        (record { file = f; buffer = buffer; total = 0; taken = [] }) refl fits
        (omega (arith, size_lem buffer)) in
    (w, e, t, c ∙ ap length t)

-- Without `write_all` one turn is made: it takes a byte or more if there is one.
pub write_some_lem :
    (writev : ℕ → BufferViewList → Option ℕ) (f : FileDescriptor) (buffer : BufferViewList)
    → Accepts writev
    → IsU64 (length (flatten buffer))
    → (w : Written) × (rest : List ℕ) × (write writev f buffer false ≡ ok w)
      × (w.taken ++ rest ≡ flatten buffer)
      × (w.total ≡ length w.taken)
      × (length rest ≤ length (flatten buffer) - 1)
unfolding write
write_some_lem writev f buffer accepts fits =
    let (w, t, e) =
      loop_step writev accepts (BufferViewList.size buffer) false
        (record { file = f; buffer = buffer; total = 0; taken = [] }) fits in
    (w, flatten w.buffer, e, t.moved, t.counted refl, t.shrinks)
