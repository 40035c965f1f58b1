-- ===== src/Receiver/Following.antt =====
-- A receiver (libsponge/tcp_receiver.cc) that follows the stream of a sender: reads, and segments that
-- it drops.
use tcp_lab.Base.{
  ℕ, ◌+◌, ◌^◌, ◌≤◌, ◌<◌, ◌≡◌, ◌≢◌, refl, sym, subst, ◌∙◌, ap, ap₂, true, false, not, ◌&&◌, ◌||◌,
  ◌==◌, ◌⊎◌, inl, inr, if_true, if_false, List, ◌++◌, arith, length, Ensures, ok,
}
use tcp_lab.Reassembler.{EndKey}
use tcp_lab.Reassembler.Behind.{Misses, reads_end, Inv-Misses}
use tcp_lab.Seqno.{WrappingInt32, wrap, unwrap}
use tcp_lab.Util.Buffer
use tcp_lab.Reassembler.{StreamReassembler}
use tcp_lab.Reassembler.Stream.{slice, slice-append}
use tcp_lab.Reassembler.Trim.{offered}
use tcp_lab.Reassembler.Flush.{limit_of, Inv, held}
use tcp_lab.Reassembler.Ready.{from_index}
use tcp_lab.Reassembler.Window.{Extended}
use tcp_lab.Reassembler.Reads.{read-Inv}
use tcp_lab.Wire.TcpSegment.{TcpSegment}
use tcp_lab.Receiver.{TcpReceiver, segment_received, out_of_order_syn}
use tcp_lab.Receiver.Synced.{IsSynced}
use tcp_lab.Receiver.Pieces.{byte_at}
use tcp_lab.Receiver.First.{IsWaiting}
use tcp_lab.Receiver.Ended.{segment_received-SameStream}
use tcp_lab.Receiver.Events.{deliver, get, Trace, with_output, step}

module _ (isn : WrappingInt32) (acc : List ℕ) (capacity : ℕ) (short : length acc + 1 < 2 ^ 31)
    (word : length acc + capacity < 2 ^ 63) (end_key : EndKey) (past : Misses end_key) where
  abbrev pub stream : ℕ → ℕ
  stream = byte_at acc

  pub record Following (t : Trace) : Type 0 where
    pub size : t.receiver.reassembler.output.capacity ≡ capacity
    pub out_ok : t.out ≡ slice stream 0 t.receiver.reassembler.output.read_count
    pub small : (i : ℕ) → held t.receiver.reassembler i ≡ true → i < length acc
    pub stage :
        IsWaiting stream t.receiver ⊎ (IsSynced stream t.receiver × (t.receiver.isn ≡ wrap 0 isn))

  pub first_ok :
      (r : StreamReassembler)
      → ((i : ℕ) → held r i ≡ true → i < length acc)
      → r.first_index ≤ length acc
  first_ok r h = ground (arith, h (length acc))

  module _ (t : Trace) (f : Following t) where
    abbrev r : TcpReceiver
    r = t.receiver

    pub inv : Inv stream r.reassembler
    inv = elim f.stage [ inl w ↦ w.inv | inr (v, _) ↦ v.inv ]

    pub first : r.reassembler.first_index ≤ length acc
    first = first_ok r.reassembler f.small

    pub get_step : (k : ℕ) → (u : Trace) × (step end_key t (get k) ≡ ok u) × Following u
    get_step k =
        let from_zero : r.reassembler.output.read_count ≡ 0 + r.reassembler.output.read_count =
          omega arith in
        let (bytes, o, read, inv', cut, reads, cap) = read-Inv stream r.reassembler k inv in
        let lim : limit_of o < 2 ^ 63 =
          omega (arith, cap, f.size, inv'.output_ok.wrote, inv'.output_ok.valid.counted, first) in
        (
          record { out = t.out ++ bytes; receiver = with_output r o },
          rw read refl,
          record {
            size = cap ∙ f.size;
            out_ok =
                ap₂ ◌++◌ f.out_ok (cut ∙ ap (λ j. slice stream j (length bytes)) from_zero)
                ∙ slice-append stream 0 r.reassembler.output.read_count (length bytes)
                ∙ ap (slice stream 0) (sym reads);
            small = f.small;
            stage = elim f.stage [
              | inl w ↦ inl (record {
                unsynced = w.unsynced;
                isn_zero = w.isn_zero;
                no_ackno = w.no_ackno;
                no_fin = w.no_fin;
                at_zero = w.at_zero;
                inv = inv';
                limit_ok = lim;
                nothing = w.nothing;
                no_eof = w.no_eof;
                running = w.running;
              })
              | inr (v, same) ↦ inr (
                record {
                  synced = v.synced;
                  isn_ok = v.isn_ok;
                  inv = inv';
                  limit_ok = lim;
                  position = v.position;
                  number = v.number;
                  stage = v.stage;
                },
                same,
              )
            ];
          },
        )

    -- What holds once a piece of the stream was taken.
    pub after :
        (seg : TcpSegment) (index : ℕ) (r' : TcpReceiver)
        → segment_received end_key r seg ≡ ok r'
        → IsSynced stream r'
        → r'.isn ≡ wrap 0 isn
        → Extended stream (Buffer.str seg.payload) index r.reassembler r'.reassembler
        → ((i : ℕ) → offered index (Buffer.str seg.payload) i ≡ true → i < length acc)
        → (u : Trace) × (step end_key t (deliver seg) ≡ ok u) × Following u
    after seg index r' e v same x inside =
        let kept = subst (Ensures _) e (segment_received-SameStream end_key r seg) in
        (
          record t { receiver = r' },
          rw e refl,
          record {
            size = kept.1 ∙ f.size;
            out_ok = f.out_ok ∙ ap (slice stream 0) (sym kept.0);
            small = λ i h. ground (arith, x.holds i, f.small i, inside i, h);
            stage = inr (v, same);
          },
        )

    pub dropped :
        (seg : TcpSegment)
        → segment_received end_key r seg ≡ ok r
        → (u : Trace) × (step end_key t (deliver seg) ≡ ok u) × Following u
    dropped seg e = (t, rw e refl, f)

    pub behind :
        (index : ℕ)
        → reads_end (from_index r.reassembler index) r.reassembler.unassembled ≡ true
        → end_key r.reassembler.unassembled ≢ from_index r.reassembler index
    behind index = Inv-Misses stream end_key r.reassembler (from_index r.reassembler index) past inv

    pub out_of_order :
        (seg : TcpSegment)
        → ((not seg.header.syn && not r.syn) || (seg.header.syn && r.syn)) ≡ true
        → segment_received end_key r seg ≡ ok r
    unfolding segment_received out_of_order_syn
    out_of_order seg h = if_true _ _ _ h

    pub too_old :
        (seg : TcpSegment)
        → ((not seg.header.syn && not r.syn) || (seg.header.syn && r.syn)) ≡ false
        → (r.syn && unwrap seg.header.seqno r.isn r.last_abseqno == 0) ≡ true
        → segment_received end_key r seg ≡ ok r
    unfolding segment_received out_of_order_syn
    too_old seg h k = if_false _ _ _ h ∙ if_true _ _ _ k
