-- ===== src/Socket/Inbound.antt =====
-- What the peer sent reaches the application: rule 3 of libsponge/tcp_helpers/tcp_sponge_socket.cc.
use tcp_lab.Base.{
  ℕ, ◌+◌, ◌≤◌, ◌≡◌, refl, sym, ◌∙◌, ap, true, false, ◌||◌, Option, List, [], ◌∷◌, ◌++◌, append-nil,
  arith, min, length, length-append, length-take, take, drop, subst, Bool-cases, inl, inr, Result,
  ok,
}
use tcp_lab.Util.BufferViewList.{BufferViewList, flatten}
use tcp_lab.Util.BufferList.View.{size_lem}
use tcp_lab.Util.FileDescriptor
use tcp_lab.Util.FileDescriptor.{FileDescriptor, Written}
use tcp_lab.Util.FileDescriptor.Writes.{Accepts, write_some_lem}
use tcp_lab.ByteStream
use tcp_lab.ByteStream.{ByteStream}
use tcp_lab.ByteStream.Laws.{IsValid, contents, pop_output_lem, pop_taken}
use tcp_lab.Adapter.Lossy.{FdAdapter}
use tcp_lab.Socket.{SpongeSocket, inbound_stream, with_inbound, write_inbound}

module _ {A Device : Type 0} (ops : FdAdapter A Device) (s : SpongeSocket A)
    (writev : ℕ → BufferViewList → Option ℕ) (shutdown : FileDescriptor → Result FileDescriptor)
    (accepts : Accepts writev)
    (shuts : (f : FileDescriptor) → (f' : FileDescriptor) × (shutdown f ≡ ok f'))
    (valid : IsValid (inbound_stream s.tcp)) where
  abbrev inbound : ByteStream
  inbound = inbound_stream s.tcp

  abbrev amount : ℕ
  amount = min 65536 (ByteStream.buffer_size inbound)

  -- The bytes that are offered to the kernel.
  offered_lem :
      flatten (ByteStream.peek_output inbound amount ∷ []) ≡ take amount (contents inbound)
  unfolding ByteStream.peek_output
  offered_lem = append-nil (take amount (contents inbound))

  length-offered : length (take amount (contents inbound)) ≡ min 65536 (length (contents inbound))
  unfolding ByteStream.buffer_size
  length-offered = omega (arith, length-take amount (contents inbound), size_lem inbound.buffer)

  -- The end of the callback, once the bytes are popped.
  finish :
      (w : Written) (stream : ByteStream)
      → FileDescriptor.write writev s.thread_data (ByteStream.peek_output inbound amount ∷ []) false
        ≡ ok w
      → ByteStream.pop_output inbound w.total ≡ ok stream
      → (s' : SpongeSocket A) × (write_inbound ops writev shutdown s ≡ ok (s', w.taken))
        × (inbound_stream s'.tcp ≡ stream)
  unfolding write_inbound with_inbound
  finish w stream e1 e2 =
      let s' = record s { tcp = with_inbound s.tcp stream; thread_data = w.file } in
      let (f, e3) = shuts w.file in
      elim (Bool-cases (ByteStream.eof stream || stream.error)) [
        | inl over ↦ (
          record s' { thread_data = f; inbound_shutdown = true },
          rw (e1, e2, over, e3, write_inbound) refl,
          refl,
        )
        | inr open_ ↦ (s', rw (e1, e2, open_, write_inbound) refl, refl)
      ]

-- In front of a kernel that takes a byte or more whenever it is offered some, and no more than it
-- is offered, and whose shutdown does not fail, the callback for the inbound stream does not throw:
-- what the kernel takes is the front of the stream, at least one byte if there is one and at most
-- 65536, and the stream keeps exactly the bytes behind it.
pub write_inbound_lem :
    {A Device : Type 0} (ops : FdAdapter A Device) (s : SpongeSocket A)
    (writev : ℕ → BufferViewList → Option ℕ) (shutdown : FileDescriptor → Result FileDescriptor)
    → Accepts writev
    → ((f : FileDescriptor) → (f' : FileDescriptor) × (shutdown f ≡ ok f'))
    → IsValid (inbound_stream s.tcp)
    → (s' : SpongeSocket A) × (taken : List ℕ) × (write_inbound ops writev shutdown s
        ≡ ok (s', taken))
      × (taken ++ contents (inbound_stream s'.tcp) ≡ contents (inbound_stream s.tcp))
      × (min 1 (length (contents (inbound_stream s.tcp))) ≤ length taken)
      × (length taken ≤ 65536)
      × IsValid (inbound_stream s'.tcp)
write_inbound_lem {A} {Device} ops s writev shutdown accepts shuts valid =
    let i = inbound_stream s.tcp in
    let n = min 65536 (ByteStream.buffer_size i) in
    let offer = ByteStream.peek_output i n ∷ [] in
    let view = offered_lem ops s writev shutdown accepts shuts valid in
    let size = length-offered ops s writev shutdown accepts shuts valid in
    let (w, rest, e1, moved, count, left) =
      write_some_lem writev s.thread_data offer accepts (omega (arith, ap length view, size)) in
    let (stream, e2, popped, _, _, _, _, _, valid') = pop_output_lem i w.total valid in
    let (s', e, same) = finish ops s writev shutdown accepts shuts valid w stream e1 e2 in
    let total : length w.taken + length rest ≡ min 65536 (length (contents i)) =
      sym (length-append w.taken rest) ∙ ap length (moved ∙ view) ∙ size in
    (
      s',
      w.taken,
      e,
      ap (λ k. w.taken ++ contents k) same
          ∙ ap (λ k. w.taken ++ k) (popped ∙ ap (λ k. drop k (contents i)) count)
          ∙ pop_taken (contents i) w.taken rest n (moved ∙ view),
      omega (arith, total, left, ap length view, size),
      omega (arith, total),
      subst IsValid (sym same) valid',
    )
