-- ===== src/Connection/Sane.antt =====
-- What holds of a connection (libsponge/tcp_connection.cc) between two calls, if its peer is sound.
use tcp_lab.Base.{
  ℕ, ◌+◌, ◌^◌, ◌<◌, ◌≡◌, refl, subst, Ensures, ◌∙◌, List, [], ◌∷◌, add64, All, arith, length, Total,
  Total-if, ok, IsU16,
}
use tcp_lab.Reassembler.{EndKey}
use tcp_lab.Reassembler.Behind.{Misses}
use tcp_lab.Seqno.{WrappingInt32, unwrap}
use tcp_lab.Wire.TcpSegment.{TcpSegment}
use tcp_lab.Sender
use tcp_lab.Sender.{TcpSender, Sent}
use tcp_lab.Sender.Chain.{Carries}
use tcp_lab.Sender.Fill.{fill_window_lem}
use tcp_lab.Sender.Payloads.{
  AreSmall, fill_window-AreSmall, tick-AreSmall, ack_received-AreSmall, send_empty_segment-AreSmall,
}
use tcp_lab.Sender.Steps.{Good, tick-Good, ack_received-Good, send_empty_segment-Good}
use tcp_lab.Receiver.{TcpReceiver}
use tcp_lab.Receiver.Following.{Following}
use tcp_lab.Connection.{TcpConnection, fill_if_syned}

-- The sender's counters and segments are sound for the bytes `acc`, and it keeps its initial number.
pub record SenderOk (mine : WrappingInt32) (acc : List ℕ) (s : TcpSender) : Type 0 where
  pub good : Good acc s
  pub isn_kept : s.isn ≡ mine
  pub small : AreSmall s

-- What goes out carries the stream, and its window has 16 bits.
abbrev pub IsOut : WrappingInt32 → List ℕ → TcpSegment → Type 0
IsOut mine acc seg = Carries mine acc seg × IsU16 seg.header.win

retransmit_isn :
    (s : TcpSender) (time : ℕ) (xs : List Sent) → (Sender.retransmit s time xs).isn ≡ s.isn
unfolding Sender.retransmit
retransmit_isn s time [] = refl
retransmit_isn s time (x ∷ xs) = ground arith

advance_isn : (s : TcpSender) (m : ℕ) (xs : List Sent) → (Sender.advance s m xs).isn ≡ s.isn
unfolding Sender.advance
advance_isn s m [] = refl
advance_isn s m (x ∷ xs) = refl

ack_received_isn :
    (s : TcpSender) (ackno : WrappingInt32) (w : ℕ) → (Sender.ack_received s ackno w).isn ≡ s.isn
unfolding Sender.ack_received
ack_received_isn s ackno w =
    let tmp = unwrap ackno s.isn s.last_acked_abs_seqno in
    ground (arith, advance_isn (record s { window_size = w }) tmp s.sent)

module _ (mine : WrappingInt32) (acc : List ℕ) (s : TcpSender) (o : SenderOk mine acc s) where
  pub fill_ok : Total (SenderOk mine acc) (Sender.fill_window s)
  fill_ok =
      let (s', e, f, _) = fill_window_lem s o.good.valid in
      (
        s',
        e,
        record {
          good = record { valid = f.valid; sound = f.sound acc o.good.sound };
          isn_kept = f.same_isn ∙ o.isn_kept;
          small = subst (Ensures AreSmall) e (fill_window-AreSmall s o.small);
        },
      )

  pub fill_if_syned_ok : Total (SenderOk mine acc) (fill_if_syned s)
  unfolding fill_if_syned
  fill_if_syned_ok = Total-if (SenderOk mine acc) s.syned _ (ok s) fill_ok (s, refl, o)

  pub tick-SenderOk : (ms : ℕ) → SenderOk mine acc (Sender.tick s ms)
  unfolding Sender.tick
  tick-SenderOk ms = record {
    good = tick-Good acc s o.good ms;
    isn_kept = retransmit_isn s (add64 s.last_time ms) s.sent ∙ o.isn_kept;
    small = tick-AreSmall s ms o.small;
  }

  pub send_empty-SenderOk : SenderOk mine acc (Sender.send_empty_segment s)
  send_empty-SenderOk = record {
    good = send_empty_segment-Good acc s o.good;
    isn_kept = unfold Sender.send_empty_segment in o.isn_kept;
    small = send_empty_segment-AreSmall s o.small;
  }

  pub ack-SenderOk :
      (ackno : WrappingInt32) (w : ℕ) → IsU16 w → SenderOk mine acc (Sender.ack_received s ackno w)
  ack-SenderOk ackno w h = record {
    good = ack_received-Good acc s o.good ackno w h;
    isn_kept = ack_received_isn s ackno w ∙ o.isn_kept;
    small = ack_received-AreSmall s ackno w o.small;
  }

-- What a sound peer sends: segments of a stream of fewer than 2 ^ 31 - 1 bytes, that fits the counters
-- of the reassembler, beside what is read behind the end of its map.
pub record Peer : Type 0 where
  pub isn : WrappingInt32
  pub stream : List ℕ
  pub capacity : ℕ
  pub short : length stream + 1 < 2 ^ 31
  pub word : length stream + capacity < 2 ^ 63
  pub end_key : EndKey
  pub past : Misses end_key

-- The receiver puts the peer's stream together; `out` was read.
abbrev pub Follows : Peer → List ℕ → TcpReceiver → Type 0
Follows p out r =
    Following p.isn p.stream p.capacity p.short p.word p.end_key p.past
      (record { out = out; receiver = r })

pub record Sane (p : Peer) (mine : WrappingInt32) (acc out : List ℕ) (c : TcpConnection)
    : Type 0 where
  pub sender_ok : SenderOk mine acc c.sender
  pub receiver_ok : Follows p out c.receiver
  pub queued : All (IsOut mine acc) c.segments_out
