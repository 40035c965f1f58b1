-- ===== src/Receiver/Ackno.antt =====
-- `segment_received` of libsponge/tcp_receiver.cc: the acknowledgment number is the wrapped
-- position of the first byte that is missing.
use tcp_lab.Base.{
  true, ℕ, ◌+◌, ◌^◌, ◌≤◌, ◌<◌, ◌≡◌, ◌≢◌, refl, ◌∙◌, ap, false, ◌==◌, if◌then◌else◌, Bool-cases, inl,
  inr, some, arith, length, IsU64, ok,
}
use tcp_lab.Reassembler.{EndKey}
use tcp_lab.Reassembler.Behind.{reads_end}
use tcp_lab.Seqno.{WrappingInt32, minus, wrap, unwrap}
use tcp_lab.Seqno.Wrap.{plus-wrap}
use tcp_lab.Seqno.Unwrap.{dist, unwrap-wrap}
use tcp_lab.Util.Buffer
use tcp_lab.Reassembler.Stream.{slice}
use tcp_lab.Reassembler.Ready.{from_index}
use tcp_lab.Reassembler.Window.{Extended}
use tcp_lab.Wire.TcpSegment.{TcpSegment}
use tcp_lab.Receiver.{TcpReceiver, segment_received, ackno}
use tcp_lab.Receiver.Synced.{IsSynced, received_at}

-- What the peer has to send next: the first missing byte, behind the SYN and, once the stream has
-- ended, behind the FIN.
abbrev pub expected : TcpReceiver → ℕ
expected r = r.reassembler.first_index + 1 + (if r.reassembler.eofed then 1 else 0)

pub ackno_lem :
    (stream : ℕ → ℕ) (r : TcpReceiver)
    → IsSynced stream r
    → ackno r ≡ ok (some (wrap (expected r) r.isn))
unfolding ackno
ackno_lem stream r v = elim (Bool-cases r.reassembler.eofed) [
  | inl e ↦
      let two : r.fin ≡ 2 = v.stage ∙ rw e refl in
      rw
        (
          two,
          v.number,
          e,
          (plus-wrap (r.reassembler.first_index + 1) 1 r.isn v.isn_ok (omega arith)).0,
        )
        refl
  | inr e ↦
      let small : (r.fin == 2) ≡ false = rw (v.stage, e) (ground arith) in
      rw (small, v.number, e) (ap (λ k. ok (some (wrap k r.isn))) (omega arith))
]

pub far_lem :
    (stream : ℕ → ℕ) (r : TcpReceiver) → IsSynced stream r → r.last_abseqno + 2 ^ 32 ≤ 2 ^ 64
far_lem stream r v =
    let o = v.inv.output_ok in
    omega (arith, v.position, v.limit_ok, o.wrote, o.valid.counted, o.valid.fits)

dist_suc : (a b : ℕ) → dist a b + 1 < 2 ^ 31 → dist (a + 1) b < 2 ^ 31
dist_suc a b h = ground arith

-- The numbers that the receiver reads from a segment near the last byte received.
pub numbers_of :
    (stream : ℕ → ℕ) (r : TcpReceiver) (seqno : WrappingInt32) (index : ℕ)
    → IsSynced stream r
    → seqno ≡ wrap (index + 1) r.isn
    → dist index r.last_abseqno + 1 < 2 ^ 31
    → (unwrap seqno r.isn r.last_abseqno ≡ index + 1)
      × (unwrap (minus seqno 1) r.isn r.last_abseqno ≡ index)
numbers_of stream r seqno index v at near = (
  ap (λ k. unwrap k r.isn r.last_abseqno) at
      ∙ unwrap-wrap (index + 1) r.isn r.last_abseqno v.isn_ok (far_lem stream r v)
          (dist_suc index r.last_abseqno near),
  ap (λ k. unwrap (minus k 1) r.isn r.last_abseqno) at
      ∙ ap (λ k. unwrap k r.isn r.last_abseqno) (plus-wrap index 1 r.isn v.isn_ok (omega arith)).1
      ∙ unwrap-wrap index r.isn r.last_abseqno v.isn_ok (far_lem stream r v) (omega (arith, near)),
)

-- Let the receiver have seen its SYN, its stream not be at its end, and its window end below
-- 2 ^ 63. A segment without SYN, whose payload is the stream's bytes from `index` on, below 2 ^ 64,
-- and whose sequence number stands for `index`, within 2 ^ 31 of the last byte received, is taken
-- without an exception: the reassembler holds what it held and what of the payload lies in the
-- window, and the acknowledgment number stands for the first byte that is missing, or for the
-- number behind the FIN once the stream is complete. The value read behind the end of the map,
-- if it is read, is not the index that is looked up.
pub ackno-segment_received :
    (stream : ℕ → ℕ) (end_key : EndKey) (r : TcpReceiver) (seg : TcpSegment) (index : ℕ)
    → IsSynced stream r
    → r.reassembler.eofed ≡ false
    → seg.header.syn ≡ false
    → seg.header.seqno ≡ wrap (index + 1) r.isn
    → dist index r.last_abseqno + 1 < 2 ^ 31
    → IsU64 (index + length (Buffer.str seg.payload))
    → Buffer.str seg.payload ≡ slice stream index (length (Buffer.str seg.payload))
    → (reads_end (from_index r.reassembler index) r.reassembler.unassembled ≡ true
        → end_key r.reassembler.unassembled ≢ from_index r.reassembler index)
    → (r' : TcpReceiver) × (segment_received end_key r seg ≡ ok r')
      × IsSynced stream r'
      × Extended stream (Buffer.str seg.payload) index r.reassembler r'.reassembler
      × (ackno r' ≡ ok (some (wrap (expected r') r.isn)))
ackno-segment_received stream end_key r seg index v running plain at near fits cut past =
    let (number, place) = numbers_of stream r seg.header.seqno index v at near in
    let (r', e, v', x, same) =
      received_at stream end_key r seg index v running plain (ground (arith, number)) place fits cut
        past in
    (r', e, v', x, ackno_lem stream r' v' ∙ ap (λ k. ok (some (wrap (expected r') k))) same)
