-- ===== src/Receiver/Ended.antt =====
-- A receiver (libsponge/tcp_receiver.cc) whose stream has ended, and reads of the stream.
use tcp_lab.Base.{
  ℕ, ◌≡◌, refl, sym, ◌∙◌, ap, ap₂, Bool, true, false, not, ◌&&◌, ◌||◌, ◌==◌, if◌then◌else◌, if_true,
  if_false, Bool-cases, inl, inr, arith, Ensures, Ensures-if, Ensures-bind, ok, ◌>>=◌,
}
use tcp_lab.Reassembler.{EndKey}
use tcp_lab.Seqno.{minus, unwrap}
use tcp_lab.Util.Buffer
use tcp_lab.ByteStream
use tcp_lab.Reassembler
use tcp_lab.Reassembler.{StreamReassembler}
use tcp_lab.Reassembler.Reads.{SameReads, push_substring-SameReads}
use tcp_lab.Wire.TcpHeader.{TcpHeader}
use tcp_lab.Wire.TcpSegment.{TcpSegment}
use tcp_lab.Receiver.{
  TcpReceiver, segment_received, out_of_order_syn, note_assembled, note_syn, note_fin,
}
use tcp_lab.Receiver.Synced.{IsSynced, assembled, note_assembled_lem}

module _ (stream : ℕ → ℕ) (r : TcpReceiver) (v : IsSynced stream r)
    (done : r.reassembler.eofed ≡ true) (h : TcpHeader) (plain : h.syn ≡ false) where
  two : r.fin ≡ 2
  two = v.stage ∙ rw done refl

  note_fin_done : note_fin r h ≡ r
  unfolding note_fin ByteStream.end_input
  note_fin_done =
      let goal : Bool → ℕ → TcpReceiver = λ b n. record r {
        reassembler = record r.reassembler {
          output = record r.reassembler.output { input_ended_flag = b };
        };
        fin = n;
      } in
      elim (Bool-cases h.fin) [
        | inl f ↦
            let ends : ((if h.fin then 1 else r.fin) == 1 && r.reassembler.eofed) ≡ true =
              ground (arith, f, done) in
            if_true _ _ _ ends ∙ ap₂ goal (sym (v.inv.ended ∙ done)) (sym two)
        | inr f ↦
            let goes_on : ((if h.fin then 1 else r.fin) == 1 && r.reassembler.eofed) ≡ false =
              ground (arith, f, two) in
            if_false _ _ _ goes_on
            ∙ ap (λ n. record r { fin = n }) (if_false _ _ _ f ∙ two)
            ∙ ap (λ n. record r { fin = n }) (sym two)
      ]

  notes_done :
      note_fin (note_syn (note_assembled (record r { reassembler = r.reassembler })) h) h ≡ r
  unfolding note_syn
  notes_done =
      let same : assembled stream r r.reassembler h v v.inv v.limit_ok (omega arith) ≡ r =
        ap₂ (λ l a. record r { last_abseqno = l; ackno_field = a }) (sym v.position)
          (sym v.number) in
      ap (λ q. note_fin (note_syn q h) h)
        (note_assembled_lem stream r r.reassembler h v v.inv v.limit_ok (omega arith) ∙ same)
      ∙ ap (λ q. note_fin q h) (if_false _ _ _ plain)
      ∙ note_fin_done

-- Whatever comes without SYN once the stream has ended changes nothing.
pub received_done :
    (stream : ℕ → ℕ) (end_key : EndKey) (r : TcpReceiver) (seg : TcpSegment)
    → IsSynced stream r
    → r.reassembler.eofed ≡ true
    → seg.header.syn ≡ false
    → segment_received end_key r seg ≡ ok r
unfolding segment_received out_of_order_syn Reassembler.push_substring
received_done stream end_key r seg v done plain =
    let in_order : ((not seg.header.syn && not r.syn) || (seg.header.syn && r.syn)) ≡ false =
      ground (arith, v.synced, plain) in
    elim (Bool-cases (r.syn && unwrap seg.header.seqno r.isn r.last_abseqno == 0)) [
      | inl old ↦ if_false _ _ _ in_order ∙ if_true _ _ _ old
      | inr new_ ↦
          if_false _ _ _ in_order
          ∙ if_false _ _ _ new_
          ∙ ap
              (λ k. k >>= (λ re. ok (
                note_fin (note_syn (note_assembled (record r { reassembler = re })) seg.header)
                  seg.header)))
              (if_true _ _ _ done)
          ∙ ap ok (notes_done stream r v done seg.header plain)
    ]

abbrev pub SameStream : TcpReceiver → TcpReceiver → Type 0
SameStream r r' = SameReads r.reassembler r'.reassembler

note_assembled-SameStream : (r : TcpReceiver) → SameStream r (note_assembled r)
unfolding note_assembled
note_assembled-SameStream r = ground arith

note_syn-SameStream : (r : TcpReceiver) (h : TcpHeader) → SameStream r (note_syn r h)
unfolding note_syn
note_syn-SameStream r h = ground arith

note_fin-SameStream : (r : TcpReceiver) (h : TcpHeader) → SameStream r (note_fin r h)
unfolding note_fin ByteStream.end_input
note_fin-SameStream r h = ground arith

-- A segment does not change how much was read, nor the capacity.
pub segment_received-SameStream :
    (end_key : EndKey) (r : TcpReceiver) (seg : TcpSegment)
    → Ensures (SameStream r) (segment_received end_key r seg)
unfolding segment_received
segment_received-SameStream end_key r seg =
    let h = seg.header in
    let index = if r.syn then unwrap (minus h.seqno 1) r.isn r.last_abseqno else 0 in
    let notes : StreamReassembler → TcpReceiver =
      λ re. note_fin (note_syn (note_assembled (record r { reassembler = re })) h) h in
    Ensures-if (SameStream r) (out_of_order_syn r h) _ _ (refl, refl)
      (Ensures-if (SameStream r) (r.syn && unwrap h.seqno r.isn r.last_abseqno == 0) _ _
        (refl, refl)
        (Ensures-bind (SameReads r.reassembler) (SameStream r)
          (Reassembler.push_substring end_key r.reassembler (Buffer.str seg.payload) index h.fin)
          (λ re. ok (notes re))
          (push_substring-SameReads end_key r.reassembler (Buffer.str seg.payload) index h.fin)
          (λ re same.
            let a = note_assembled-SameStream (record r { reassembler = re }) in
            let b = note_syn-SameStream (note_assembled (record r { reassembler = re })) h in
            let c =
              note_fin-SameStream (note_syn (note_assembled (record r { reassembler = re })) h) h in
            (c.0 ∙ b.0 ∙ a.0 ∙ same.0, c.1 ∙ b.1 ∙ a.1 ∙ same.1))))
