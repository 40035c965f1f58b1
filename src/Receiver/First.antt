-- ===== src/Receiver/First.antt =====
-- The first SYN that a receiver (libsponge/tcp_receiver.cc) takes, with the bytes that it carries.
use tcp_lab.Base.{
  ℕ, ◌+◌, ◌-◌, ◌^◌, ◌<◌, ◌≡◌, ◌≢◌, refl, sym, ◌∙◌, ap, ap₂, true, false, not, ◌&&◌, ◌||◌, ◌==◌,
  if_true, if_false, ==→eq, ==→ne, Bool-cases, inl, inr, Option, none, some, arith, length, IsU32,
  IsU64, add64, sub64, ok, ◌>>=◌,
}
use tcp_lab.Reassembler.{EndKey}
use tcp_lab.Reassembler.Behind.{reads_end}
use tcp_lab.Seqno.{plus, minus, wrap, unwrap}
use tcp_lab.Util.Buffer
use tcp_lab.Reassembler
use tcp_lab.Reassembler.{StreamReassembler}
use tcp_lab.Reassembler.Stream.{slice}
use tcp_lab.Reassembler.Flush.{Inv, limit_of}
use tcp_lab.Reassembler.Ready.{from_index}
use tcp_lab.Reassembler.Window.{Extended, push_substring_window}
use tcp_lab.Wire.TcpHeader.{TcpHeader}
use tcp_lab.Wire.TcpSegment.{TcpSegment}
use tcp_lab.Receiver.{
  TcpReceiver, segment_received, out_of_order_syn, note_assembled, note_syn, note_fin,
}
use tcp_lab.Receiver.Synced.{
  IsSynced, taken, note_fin_lem, taken-IsSynced, first-Extended, first_small,
}

-- A receiver that has seen no SYN.
pub record IsWaiting (stream : ℕ → ℕ) (r : TcpReceiver) : Type 0 where
  pub unsynced : r.syn ≡ false
  pub isn_zero : r.isn ≡ 0
  pub no_ackno : r.ackno_field ≡ none
  pub no_fin : r.fin ≡ 0
  pub at_zero : r.last_abseqno ≡ 0
  pub inv : Inv stream r.reassembler
  pub limit_ok : limit_of r.reassembler.output < 2 ^ 63
  pub nothing : r.reassembler.first_index ≡ 0
  pub no_eof : r.reassembler.eof ≡ false
  pub running : r.reassembler.eofed ≡ false

syn_number :
    (seqno first : ℕ)
    → IsU32 seqno
    → first < 2 ^ 63
    → plus (plus seqno 1) (wrap first 0) ≡ wrap (first + 1) seqno
unfolding plus wrap
syn_number seqno first h small = omega arith

first_number : (seqno first : ℕ) → IsU32 seqno → first ≡ 0 → plus seqno 1 ≡ wrap (first + 1) seqno
unfolding plus wrap
first_number seqno first h e = omega arith

raw_number : (first : ℕ) → first < 2 ^ 63 → minus (plus (wrap first 0) 1) 1 ≡ wrap first 0
unfolding minus plus wrap
raw_number first small = omega arith

module _ (stream : ℕ → ℕ) (r : TcpReceiver) (w : IsWaiting stream r) (h : TcpHeader)
    (syn : h.syn ≡ true) (word : IsU32 h.seqno) where
  -- What the SYN alone makes of the receiver.
  abbrev opened : TcpReceiver
  opened = record r {
    syn = true;
    isn = h.seqno;
    last_abseqno = 0;
    ackno_field = some (wrap 1 h.seqno);
  }

  opened-IsSynced : IsSynced stream opened
  opened-IsSynced = record {
    synced = refl;
    isn_ok = word;
    inv = w.inv;
    limit_ok = w.limit_ok;
    position = omega (arith, w.nothing);
    number = ap (λ k. some (wrap k h.seqno)) (omega (arith, w.nothing));
    stage = w.no_fin ∙ sym (rw (w.running, w.no_eof) refl);
  }

  note_syn_lem :
      (re : StreamReassembler)
      → re.first_index < 2 ^ 63
      → note_syn (note_assembled (record r { reassembler = re })) h ≡ record opened {
        reassembler = re;
        last_abseqno = re.first_index - 1;
        ackno_field = some (wrap (re.first_index + 1) h.seqno);
      }
  unfolding note_syn note_assembled
  note_syn_lem re small =
      let pick : Option ℕ → ℕ =
        λ a. elim a [ none ↦ plus h.seqno 1 | some raw ↦ plus (plus h.seqno 1) raw ] in
      let goal : ℕ → ℕ → TcpReceiver =
        λ l a. record opened { reassembler = re; last_abseqno = l; ackno_field = some a } in
      elim (Bool-cases (re.first_index == 0)) [
        | inl z ↦
            let zero_ : re.first_index ≡ 0 = ==→eq _ _ z in
            ap (λ q. note_syn q h) (if_false _ _ _ (ap not z))
            ∙ if_true _ _ _ syn
            ∙ ap₂ goal (w.at_zero ∙ omega (arith, zero_))
                (ap pick w.no_ackno ∙ first_number h.seqno re.first_index word zero_)
        | inr z ↦
            let last : add64 (sub64 re.first_index 1) 1 ≡ re.first_index =
              omega (arith, ==→ne _ _ z) in
            ap (λ q. note_syn q h) (if_true _ _ _ (ap not z))
            ∙ if_true _ _ _ syn
            ∙ ap₂ goal (omega (arith, ==→ne _ _ z)) (
                ap (λ k. plus (plus h.seqno 1) k)
                  (if_true _ _ _ (ap not w.unsynced)
                    ∙ ap₂ (λ j k. minus (plus (wrap j k) 1) 1) last w.isn_zero
                    ∙ raw_number re.first_index small)
                ∙ syn_number h.seqno re.first_index word small)
      ]

-- The first SYN, with the bytes at the beginning of the stream.
pub received_syn :
    (stream : ℕ → ℕ) (end_key : EndKey) (r : TcpReceiver) (seg : TcpSegment)
    → IsWaiting stream r
    → seg.header.syn ≡ true
    → IsU32 seg.header.seqno
    → IsU64 (length (Buffer.str seg.payload))
    → Buffer.str seg.payload ≡ slice stream 0 (length (Buffer.str seg.payload))
    → (reads_end (from_index r.reassembler 0) r.reassembler.unassembled ≡ true
        → end_key r.reassembler.unassembled ≢ from_index r.reassembler 0)
    → (r' : TcpReceiver) × (segment_received end_key r seg ≡ ok r')
      × IsSynced stream r'
      × Extended stream (Buffer.str seg.payload) 0 r.reassembler r'.reassembler
      × (r'.isn ≡ seg.header.seqno)
unfolding segment_received out_of_order_syn
received_syn stream end_key r seg w syn word fits cut past =
    let h = seg.header in
    let v = opened-IsSynced stream r w h syn word in
    let (re, e, x, noted, _) =
      push_substring_window stream end_key (Buffer.str seg.payload) 0 h.fin r.reassembler w.inv
        w.limit_ok (omega (arith, fits)) cut w.running past in
    let lim : limit_of re.output < 2 ^ 63 = omega (arith, x.same_limit, w.limit_ok) in
    let further = first-Extended stream (Buffer.str seg.payload) 0 r.reassembler re x in
    let o = opened stream r w h syn word in
    let in_order : ((not h.syn && not r.syn) || (h.syn && r.syn)) ≡ false =
      ground (arith, w.unsynced, syn) in
    let fresh : (r.syn && unwrap h.seqno r.isn r.last_abseqno == 0) ≡ false =
      ground (arith, w.unsynced) in
    (
      taken stream o re h v x.inv lim further w.running noted x.ended,
      if_false _ _ _ in_order
          ∙ if_false _ _ _ fresh
          ∙ ap
              (λ i.
                Reassembler.push_substring end_key r.reassembler (Buffer.str seg.payload) i h.fin
                >>= (λ re.
                    ok (note_fin (note_syn (note_assembled (record r { reassembler = re })) h) h)))
              (if_false _ _ _ w.unsynced)
          ∙ rw e refl
          ∙ ap (λ q. ok (note_fin q h))
              (note_syn_lem stream r w h syn word re
                (first_small stream o re h v x.inv lim further))
          ∙ ap ok (note_fin_lem stream o re h v x.inv lim further w.running noted x.ended),
      taken-IsSynced stream o re h v x.inv lim further w.running noted x.ended,
      x,
      refl,
    )
