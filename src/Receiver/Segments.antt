-- ===== src/Receiver/Segments.antt =====
-- What a receiver (libsponge/tcp_receiver.cc) that follows a stream does with a segment of it.
use tcp_lab.Base.{
  ℕ, suc, ◌+◌, ◌^◌, ◌≤◌, ◌<◌, ◌≡◌, refl, sym, subst, ◌∙◌, ap, false, ◌==◌, inl, inr, Bool-cases,
  List, [], ◌++◌, arith, length, drop, IsU32, ok,
}
use tcp_lab.Reassembler.{EndKey}
use tcp_lab.Reassembler.Behind.{Misses}
use mathlib.Core.Bool.{true≢false}
use tcp_lab.Seqno.{WrappingInt32, minus, wrap, unwrap}
use tcp_lab.Seqno.Wrap.{wrap-lt}
use tcp_lab.Seqno.Unwrap.{unwrap-le}
use tcp_lab.Util.Buffer
use tcp_lab.Reassembler.Stream.{slice}
use tcp_lab.Wire.TcpSegment.{TcpSegment}
use tcp_lab.Sender.Chain.{Carries}
use tcp_lab.Receiver.{TcpReceiver}
use tcp_lab.Receiver.Synced.{IsSynced, received_at}
use tcp_lab.Receiver.Ackno.{far_lem, numbers_of}
use tcp_lab.Receiver.Pieces.{byte_at, cut_of}
use tcp_lab.Receiver.First.{IsWaiting, received_syn}
use tcp_lab.Receiver.Ended.{received_done}
use tcp_lab.Receiver.Events.{Event, deliver, get, Trace, step, IsSent}
use tcp_lab.Receiver.Following.{
  Following, first, get_step, after, dropped, behind, out_of_order, too_old,
}

wrap_again : (m isn : ℕ) → wrap m (wrap 0 isn) ≡ wrap m isn
unfolding wrap
wrap_again m isn = omega arith

minus-lt : (n : ℕ) → IsU32 (minus n 1)
unfolding minus
minus-lt n = omega arith

module _ (isn : WrappingInt32) (acc : List ℕ) (capacity : ℕ) (short : length acc + 1 < 2 ^ 31)
    (word : length acc + capacity < 2 ^ 63) (end_key : EndKey) (past : Misses end_key) where
  abbrev stream : ℕ → ℕ
  stream = byte_at acc

  module _ (t : Trace) (f : Following isn acc capacity short word end_key past t) where
    abbrev r : TcpReceiver
    r = t.receiver

    waiting_step :
        (seg : TcpSegment)
        → IsWaiting stream r
        → Carries isn acc seg
        → (u : Trace) × (step end_key t (deliver seg) ≡ ok u)
          × Following isn acc capacity short word end_key past u
    waiting_step seg w c = elim (Bool-cases seg.header.syn) [
      | inr plain ↦ dropped isn acc capacity short word end_key past t f seg (
          out_of_order isn acc capacity short word end_key past t f seg
            (ground (arith, plain, w.unsynced)))
      | inl syn ↦ elim c [
        | inr (_, plain, _) ↦ absurd (true≢false (sym syn ∙ plain))
        | inl (from, k, rest, (at, place), le, e) ↦ elim place [
          | inr (plain, _) ↦ absurd (true≢false (sym syn ∙ plain))
          | inl (_, from_zero, k_zero) ↦
              let number : seg.header.seqno ≡ wrap 0 isn = at ∙ ap (λ j. wrap j isn) from_zero in
              let (cut, inside) = cut_of acc (Buffer.str seg.payload) rest k le e in
              let (r', got, v, x, same) =
                received_syn stream end_key r seg w syn (subst IsU32 (sym number) (wrap-lt 0 isn))
                  (omega arith)
                  (cut ∙ ap (λ j. slice stream j (length (Buffer.str seg.payload))) k_zero)
                  (behind isn acc capacity short word end_key past t f 0) in
              after isn acc capacity short word end_key past t f seg 0 r' got v (same ∙ number) x
                (λ i h. ground (arith, inside, k_zero, h))
        ]
      ]
    ]

    module _ (seg : TcpSegment) (v : IsSynced stream r) (same : r.isn ≡ wrap 0 isn)
        (plain : seg.header.syn ≡ false) (running : r.reassembler.eofed ≡ false) where
      position : r.last_abseqno ≤ length acc
      position = omega (arith, v.position, first isn acc capacity short word end_key past t f)

      -- A segment that carries nothing stands anywhere.
      blank_step :
          Buffer.str seg.payload ≡ []
          → (u : Trace) × (step end_key t (deliver seg) ≡ ok u)
            × Following isn acc capacity short word end_key past u
      unfolding slice
      blank_step none_ =
          let index = unwrap (minus seg.header.seqno 1) r.isn r.last_abseqno in
          let near : index < 2 ^ 33 = omega (
            arith,
            position,
            unwrap-le (minus seg.header.seqno 1) r.isn r.last_abseqno (minus-lt seg.header.seqno)
                v.isn_ok (far_lem stream r v),
          ) in
          elim (Bool-cases (unwrap seg.header.seqno r.isn r.last_abseqno == 0)) [
            | inl old ↦ dropped isn acc capacity short word end_key past t f seg (
                too_old isn acc capacity short word end_key past t f seg
                  (ground (arith, plain, v.synced)) (ground (arith, v.synced, old)))
            | inr fresh ↦
                let (r', got, v', x, kept) =
                  received_at stream end_key r seg index v running plain fresh refl
                    (omega (arith, ap length none_))
                    (none_ ∙ sym (ap (slice stream index) (ap length none_)))
                    (behind isn acc capacity short word end_key past t f index) in
                after isn acc capacity short word end_key past t f seg index r' got v' (kept ∙ same)
                  x (λ i h. ground (arith, ap length none_, h))
          ]

      piece_step :
          (k : ℕ) (rest : List ℕ)
          → seg.header.seqno ≡ wrap (suc k) isn
          → k ≤ length acc
          → Buffer.str seg.payload ++ rest ≡ drop k acc
          → (u : Trace) × (step end_key t (deliver seg) ≡ ok u)
            × Following isn acc capacity short word end_key past u
      piece_step k rest at le e =
          let (cut, inside) = cut_of acc (Buffer.str seg.payload) rest k le e in
          let next : suc k ≡ k + 1 = omega arith in
          let (number, place) =
            numbers_of stream r seg.header.seqno k v
              (at
                ∙ ap (λ j. wrap j isn) next
                ∙ sym (wrap_again (k + 1) isn)
                ∙ ap (wrap (k + 1)) (sym same))
              (ground (arith, position)) in
          let (r', got, v', x, kept) =
            received_at stream end_key r seg k v running plain (ground (arith, number)) place
              (omega arith) cut (behind isn acc capacity short word end_key past t f k) in
          after isn acc capacity short word end_key past t f seg k r' got v' (kept ∙ same) x
            (λ i h. ground (arith, inside, h))

    synced_step :
        (seg : TcpSegment)
        → IsSynced stream r
        → r.isn ≡ wrap 0 isn
        → Carries isn acc seg
        → (u : Trace) × (step end_key t (deliver seg) ≡ ok u)
          × Following isn acc capacity short word end_key past u
    synced_step seg v same c = elim (Bool-cases seg.header.syn) [
      | inl syn ↦ dropped isn acc capacity short word end_key past t f seg (
          out_of_order isn acc capacity short word end_key past t f seg
            (ground (arith, syn, v.synced)))
      | inr plain ↦ elim (Bool-cases r.reassembler.eofed) [
        | inl done ↦
            dropped isn acc capacity short word end_key past t f seg
              (received_done stream end_key r seg v done plain)
        | inr running ↦ elim c [
          | inr (none_, _, _) ↦ blank_step seg v same plain running none_
          | inl (from, k, rest, (at, place), le, e) ↦ elim place [
            | inl (syn, _, _) ↦ absurd (true≢false (sym syn ∙ plain))
            | inr (_, behind_syn) ↦
                piece_step seg v same plain running k rest (at ∙ ap (λ j. wrap j isn) behind_syn) le
                  e
          ]
        ]
      ]
    ]

    pub event_step :
        (x : Event)
        → IsSent isn acc x
        → (u : Trace) × (step end_key t x ≡ ok u)
          × Following isn acc capacity short word end_key past u
    event_step (deliver seg) c = elim f.stage [
      | inl w ↦ waiting_step seg w c
      | inr (v, same) ↦ synced_step seg v same c
    ]
    event_step (get k) c = get_step isn acc capacity short word end_key past t f k
