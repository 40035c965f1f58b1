-- ===== src/Connection/Reset.antt =====
-- The reset of libsponge/tcp_connection.cc: what `segment_received` does with an RST segment.
use tcp_lab.Base.{
  ◌≡◌, refl, ◌∙◌, sym, ap, true, false, List, [], ◌∷◌, ◌++◌, ok, Bool-cases, inl, inr, not, if_true,
  if_false,
}
use tcp_lab.Reassembler.{EndKey}
use mathlib.Core.Bool.{true≢false}
use tcp_lab.ByteStream
use tcp_lab.Receiver
use tcp_lab.Wire.TcpSegment.{TcpSegment}
use tcp_lab.Connection.{
  TcpConnection, stamp, stamp_all, pull_push_segments, set_errors, prepare_death, fully_dead,
  judge_do, segment_received, active,
}

-- The segment with its RST flag set.
abbrev pub with_rst : TcpSegment → TcpSegment
with_rst seg = record seg { header = record seg.header { rst = true } }

unfoldable pub all_rst : List TcpSegment → List TcpSegment
all_rst [] = []
all_rst (x ∷ xs) = with_rst x ∷ all_rst xs

pub stamp_all_rst :
    (r : Receiver.TcpReceiver) (xs : List TcpSegment) → stamp_all true r xs ≡ ok (all_rst xs)
unfolding stamp_all stamp all_rst
stamp_all_rst r [] = refl
stamp_all_rst r (x ∷ xs) = rw (stamp_all_rst r xs)

-- The connection after the peer reset it.
pub record Dead (c c' : TcpConnection) : Type 0 where
  pub inactive : active c' ≡ false
  pub outbound : c'.sender.stream.error ≡ true
  pub inbound : (Receiver.stream_out c'.receiver).error ≡ true
  pub queue : c'.segments_out ≡ c.segments_out ++ all_rst c.sender.segments_out
  pub drained : c'.sender.segments_out ≡ []

-- What `fully_dead(1)` leaves.
abbrev pub buried : TcpConnection → TcpConnection
buried c =
    let d = set_errors (record c { rst = true }) in
    record d {
      sender = record d.sender { segments_out = [] };
      segments_out = c.segments_out ++ all_rst c.sender.segments_out;
      is_active = false;
    }

fully_dead_one : (c : TcpConnection) → fully_dead c 1 ≡ ok (buried c)
unfolding fully_dead prepare_death pull_push_segments set_errors
fully_dead_one c =
    rw (stamp_all_rst (set_errors (record c { rst = true })).receiver c.sender.segments_out) refl

pub buried-Dead : (c : TcpConnection) → Dead c (buried c)
unfolding set_errors ByteStream.set_error
buried-Dead c = record {
  inactive = refl;
  outbound = refl;
  inbound = refl;
  queue = refl;
  drained = refl;
}

judge_do_reset :
    (c : TcpConnection) → c.is_active ≡ true → c.rst ≡ true → judge_do c ≡ ok (buried c)
unfolding judge_do
judge_do_reset c on r = if_false _ _ _ (ap not on) ∙ if_true _ _ _ r ∙ fully_dead_one c

judge_do_idle : (c : TcpConnection) → c.is_active ≡ false → judge_do c ≡ ok c
unfolding judge_do
judge_do_idle c off = if_true _ _ _ (ap not off)

-- An active connection that receives a segment with the RST flag ends at once, whatever else the
-- segment holds and whatever the state, LISTEN and SYN_SENT among them: no exception, both streams in error, and no segment but those that were queued,
-- each with its RST flag set. A connection that is not active stays so, and sends nothing.
pub segment_received_reset :
    (end_key : EndKey) (c : TcpConnection) (seg : TcpSegment)
    → seg.header.rst ≡ true
    → (c' : TcpConnection) × (segment_received end_key c seg ≡ ok c')
      × (active c ≡ true → Dead c c')
      × (active c ≡ false
          → (active c' ≡ false) × (c'.segments_out ≡ c.segments_out) × (c'.sender ≡ c.sender))
unfolding segment_received
segment_received_reset end_key c seg h =
    let c0 : TcpConnection = record c { last_seg_timer = 0; rst = true } in
    elim (Bool-cases c.is_active) [
      | inl on ↦ (
        buried c0,
        if_true _ _ _ h ∙ judge_do_reset c0 on refl,
        (λ _.
            let d = buried-Dead c0 in
            record {
              inactive = d.inactive;
              outbound = d.outbound;
              inbound = d.inbound;
              queue = d.queue;
              drained = d.drained;
            }),
        (λ off. absurd (true≢false (sym on ∙ off))),
      )
      | inr off ↦ (
        c0,
        if_true _ _ _ h ∙ judge_do_idle c0 off,
        (λ on. absurd (true≢false (sym on ∙ off))),
        (λ _. (off, refl, refl)),
      )
    ]
