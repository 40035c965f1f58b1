-- ===== src/Receiver/Synced.antt =====
-- `segment_received` of libsponge/tcp_receiver.cc once the SYN has been seen.
use tcp_lab.Base.{
  ℕ, ◌+◌, ◌-◌, ◌^◌, ◌≤◌, ◌<◌, ◌≡◌, ◌≢◌, refl, sym, ◌∙◌, ap, ap₂, true, false, not, ◌&&◌, ◌||◌, ◌==◌,
  if◌then◌else◌, if_true, if_false, ==→eq, ==→ne, Bool-cases, inl, inr, some, List, arith, length,
  IsU32, IsU64, ok, ◌>>=◌,
}
use tcp_lab.Reassembler.{EndKey}
use tcp_lab.Reassembler.Behind.{reads_end}
use tcp_lab.Seqno.{plus, minus, wrap, unwrap}
use tcp_lab.Seqno.Wrap.{plus-wrap}
use tcp_lab.Util.Buffer
use tcp_lab.ByteStream
use tcp_lab.Reassembler
use tcp_lab.Reassembler.{StreamReassembler}
use tcp_lab.Reassembler.Stream.{slice}
use tcp_lab.Reassembler.Flush.{Inv, limit_of}
use tcp_lab.Reassembler.Ready.{from_index}
use tcp_lab.Reassembler.Window.{Extended, push_substring_window}
use tcp_lab.Wire.TcpHeader.{TcpHeader}
use tcp_lab.Wire.TcpSegment.{TcpSegment}
use tcp_lab.Receiver.{
  TcpReceiver, segment_received, out_of_order_syn, note_assembled, note_syn, note_fin,
}

-- A receiver that has seen its SYN, between two segments. `fin` says how far the end has come.
pub record IsSynced (stream : ℕ → ℕ) (r : TcpReceiver) : Type 0 where
  pub synced : r.syn ≡ true
  pub isn_ok : IsU32 r.isn
  pub inv : Inv stream r.reassembler
  pub limit_ok : limit_of r.reassembler.output < 2 ^ 63
  pub position : r.last_abseqno ≡ r.reassembler.first_index - 1
  pub number : r.ackno_field ≡ some (wrap (r.reassembler.first_index + 1) r.isn)
  pub stage : r.fin ≡ (if r.reassembler.eofed then 2 else if r.reassembler.eof then 1 else 0)

module _ (stream : ℕ → ℕ) (r : TcpReceiver) (re : StreamReassembler) (h : TcpHeader)
    (v : IsSynced stream r) (inv : Inv stream re) (lim : limit_of re.output < 2 ^ 63)
    (further : r.reassembler.first_index ≤ re.first_index) where
  abbrev pub assembled : TcpReceiver
  assembled = record r {
    reassembler = re;
    last_abseqno = re.first_index - 1;
    ackno_field = some (wrap (re.first_index + 1) r.isn);
  }

  -- No index of the stream is past the counters' range.
  pub first_small : re.first_index < 2 ^ 63
  first_small =
      omega (arith, inv.output_ok.wrote, inv.output_ok.valid.counted, inv.output_ok.valid.fits)

  pub note_assembled_lem : note_assembled (record r { reassembler = re }) ≡ assembled
  unfolding note_assembled
  note_assembled_lem = elim (Bool-cases (re.first_index == 0)) [
    | inl z ↦
        let zero_ : re.first_index ≡ 0 = ==→eq _ _ z in
        if_false _ _ _ (ap not z)
        ∙ ap₂ (λ l a. record r { reassembler = re; last_abseqno = l; ackno_field = a })
            (v.position ∙ omega (arith, zero_))
            (v.number ∙ ap (λ k. some (wrap k r.isn)) (omega (arith, zero_)))
    | inr z ↦
        if_true _ _ _ (ap not z)
        ∙ ap₂ (λ l a. record r { reassembler = re; last_abseqno = l; ackno_field = a })
            (omega (arith, ==→ne _ _ z, first_small))
            (ap some (
              if_false _ _ _ (ap not v.synced)
              ∙ ap (λ k. plus (wrap k r.isn) 1) (omega (arith, ==→ne _ _ z, first_small))
              ∙ (plus-wrap re.first_index 1 r.isn v.isn_ok (omega arith)).0))
  ]

  module _ (running : r.reassembler.eofed ≡ false) (noted : re.eof ≡ (r.reassembler.eof || h.fin))
      (ended : re.eofed ≡ (re.eof && re.first_index == re.eof_index)) where
    stage_lem : (if h.fin then 1 else r.fin) ≡ (if re.eof then 1 else 0)
    stage_lem = ground (arith, v.stage, running, noted)

    abbrev pub stage : ℕ
    stage = if re.eofed then 2 else if re.eof then 1 else 0

    abbrev pub taken : TcpReceiver
    taken = record assembled { fin = stage }

    pub note_fin_lem : note_fin assembled h ≡ taken
    unfolding note_fin ByteStream.end_input
    note_fin_lem = elim (Bool-cases re.eofed) [
      | inl e ↦
          let last : (if h.fin then 1 else r.fin) ≡ 1 = stage_lem ∙ ground (arith, ended, e) in
          let ends : ((if h.fin then 1 else r.fin) == 1 && re.eofed) ≡ true =
            ground (arith, last, e) in
          if_true _ _ _ ends
          ∙ ap₂
              (λ b n. record assembled {
                reassembler = record re { output = record re.output { input_ended_flag = b } };
                fin = n;
              })
              (sym (inv.ended ∙ e)) (sym (if_true _ _ _ e))
      | inr e ↦
          let goes_on : ((if h.fin then 1 else r.fin) == 1 && re.eofed) ≡ false =
            ground (arith, e) in
          if_false _ _ _ goes_on
          ∙ ap (λ n. record assembled { fin = n }) (stage_lem ∙ sym (if_false _ _ _ e))
    ]

    pub taken-IsSynced : IsSynced stream taken
    taken-IsSynced = record {
      synced = v.synced;
      isn_ok = v.isn_ok;
      inv = inv;
      limit_ok = lim;
      position = refl;
      number = refl;
      stage = refl;
    }

    -- The calls behind that of the reassembler, on a segment without SYN.
    notes_lem :
        h.syn ≡ false
        → note_fin (note_syn (note_assembled (record r { reassembler = re })) h) h ≡ taken
    unfolding note_syn
    notes_lem plain =
        ap (λ q. note_fin (note_syn q h) h) note_assembled_lem
        ∙ ap (λ q. note_fin q h) (if_false _ _ _ plain)
        ∙ note_fin_lem

-- The bytes before `first_unassembled` stay assembled.
pub first-Extended :
    (stream : ℕ → ℕ) (bytes : List ℕ) (index : ℕ) (r r' : StreamReassembler)
    → Extended stream bytes index r r'
    → r.first_index ≤ r'.first_index
first-Extended stream bytes index r r' e = ground (arith, e.holds r'.first_index, e.exact)

-- `segment_received` past its early returns.
run_lem :
    (end_key : EndKey) (r : TcpReceiver) (seg : TcpSegment) (re : StreamReassembler) (index : ℕ)
    → r.syn ≡ true
    → seg.header.syn ≡ false
    → (unwrap seg.header.seqno r.isn r.last_abseqno == 0) ≡ false
    → unwrap (minus seg.header.seqno 1) r.isn r.last_abseqno ≡ index
    → Reassembler.push_substring end_key r.reassembler (Buffer.str seg.payload) index seg.header.fin
      ≡ ok re
    → segment_received end_key r seg
      ≡ ok (
          note_fin
            (note_syn (note_assembled (record r { reassembler = re })) seg.header)
            seg.header)
unfolding segment_received out_of_order_syn
run_lem end_key r seg re index syn plain number place e =
    let in_order : ((not seg.header.syn && not r.syn) || (seg.header.syn && r.syn)) ≡ false =
      ground (arith, syn, plain) in
    let fresh : (r.syn && unwrap seg.header.seqno r.isn r.last_abseqno == 0) ≡ false =
      ground (arith, syn, number) in
    if_false _ _ _ in_order
    ∙ if_false _ _ _ fresh
    ∙ ap
        (λ i.
          Reassembler.push_substring end_key r.reassembler (Buffer.str seg.payload) i seg.header.fin
          >>= (λ re. ok (
              note_fin (note_syn (note_assembled (record r { reassembler = re })) seg.header)
                seg.header)))
        (if_true _ _ _ syn ∙ place)
    ∙ rw e refl

-- A segment without SYN, at the index that its number stands for.
pub received_at :
    (stream : ℕ → ℕ) (end_key : EndKey) (r : TcpReceiver) (seg : TcpSegment) (index : ℕ)
    → IsSynced stream r
    → r.reassembler.eofed ≡ false
    → seg.header.syn ≡ false
    → (unwrap seg.header.seqno r.isn r.last_abseqno == 0) ≡ false
    → unwrap (minus seg.header.seqno 1) r.isn r.last_abseqno ≡ index
    → IsU64 (index + length (Buffer.str seg.payload))
    → Buffer.str seg.payload ≡ slice stream index (length (Buffer.str seg.payload))
    → (reads_end (from_index r.reassembler index) r.reassembler.unassembled ≡ true
        → end_key r.reassembler.unassembled ≢ from_index r.reassembler index)
    → (r' : TcpReceiver) × (segment_received end_key r seg ≡ ok r')
      × IsSynced stream r'
      × Extended stream (Buffer.str seg.payload) index r.reassembler r'.reassembler
      × (r'.isn ≡ r.isn)
received_at stream end_key r seg index v running plain number place fits cut past =
    let (re, e, x, noted, _) =
      push_substring_window stream end_key (Buffer.str seg.payload) index seg.header.fin
        r.reassembler v.inv v.limit_ok fits cut running past in
    let lim : limit_of re.output < 2 ^ 63 = omega (arith, x.same_limit, v.limit_ok) in
    let further = first-Extended stream (Buffer.str seg.payload) index r.reassembler re x in
    (
      taken stream r re seg.header v x.inv lim further running noted x.ended,
      run_lem end_key r seg re index v.synced plain number place e
          ∙ ap ok
              (notes_lem stream r re seg.header v x.inv lim further running noted x.ended plain),
      taken-IsSynced stream r re seg.header v x.inv lim further running noted x.ended,
      x,
      refl,
    )
