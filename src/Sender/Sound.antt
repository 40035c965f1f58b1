-- ===== src/Sender/Sound.antt =====
-- What holds of the sender (libsponge/tcp_sender.cc) and of the stream `acc` that was written to it,
-- whatever calls it has served.
use tcp_lab.Base.{
  ℕ, ◌+◌, ◌≤◌, ◌<◌, ◌≡◌, sym, ◌∙◌, ap, Bool, true, false, inl, List, [], ◌∷◌, ◌++◌, append_assoc,
  append-nil, All, All-snoc, arith, length, length-append, length-drop, drop,
}
use tcp_lab.Util.Buffer
use tcp_lab.ByteStream.{ByteStream}
use tcp_lab.ByteStream.Laws.{contents}
use tcp_lab.Wire.TcpSegment.{length_in_sequence_space}
use tcp_lab.Sender.{TcpSender, Sent}
use tcp_lab.Sender.Chain.{
  payloads, payloads-append, kept, kept-append, Ordered, Place, Chain, Carries, Tail, Tail-waits,
  Chain-length, Chain-snoc, Ordered-snoc,
}

-- The kept segments follow each other from a number that is not above the acknowledged one to the
-- next to be sent; they carry the stream's bytes, up to those that wait; and so does every segment
-- that is queued.
pub record Sound (acc : List ℕ) (s : TcpSender) : Type 0 where
  pub start : ℕ
  pub index : ℕ
  pub chain : Chain s.isn start index s.sent s.next_abs_seqno s.stream.read_count
  pub behind : start ≤ s.last_acked_abs_seqno
  pub ordered : Ordered s.last_acked_abs_seqno s.sent
  pub tail : Tail acc index s.sent (contents s.stream)
  pub begun : s.syned ≡ false → (s.next_abs_seqno ≡ 0) × (s.stream.read_count ≡ 0)
  pub carries : All (Carries s.isn acc) s.segments_out

module _ (acc : List ℕ) (s : TcpSender) (u : Sound acc s) (stream : ByteStream) (fin : Bool) where
  -- What waits is the stream from the index of the next byte on.
  waits : drop s.stream.read_count acc ≡ contents s.stream
  waits =
      ap (λ k. drop k acc) (sym (Chain-length s.isn u.start u.index s.sent _ _ u.chain))
      ∙ Tail-waits acc u.index s.sent (contents s.stream) u.tail

  reached : s.stream.read_count ≤ length acc
  reached = omega (
    arith,
    Chain-length s.isn u.start u.index s.sent _ _ u.chain,
    u.tail.0,
    ap length u.tail.1,
    length-append (payloads (kept s.sent)) (contents s.stream),
    length-drop u.index acc,
  )

  kept_payloads :
      (x : Sent)
      → payloads (kept (s.sent ++ (x ∷ []))) ≡ payloads (kept s.sent) ++ Buffer.str x.seg.payload
  unfolding kept payloads
  kept_payloads x =
      ap payloads (kept-append s.sent (x ∷ []))
      ∙ payloads-append (kept s.sent) (x.seg ∷ [])
      ∙ ap (λ k. payloads (kept s.sent) ++ k) (append-nil (Buffer.str x.seg.payload))

  -- Taking nothing from the stream.
  pub Sound-stop :
      stream.read_count ≡ s.stream.read_count
      → contents stream ≡ contents s.stream
      → Sound acc (record s { stream = stream; syned = true; fined = fin })
  Sound-stop r c = record {
    start = u.start;
    index = u.index;
    chain = rw r u.chain;
    behind = u.behind;
    ordered = u.ordered;
    tail = rw c u.tail;
    begun = λ e. ground arith;
    carries = u.carries;
  }

  -- Sending and keeping a segment.
  pub Sound-push :
      (x : Sent)
      → s.last_acked_abs_seqno ≤ s.next_abs_seqno
      → Place s.isn s.next_abs_seqno s.stream.read_count x.seg
      → s.next_abs_seqno < x.expected_ack
      → x.expected_ack ≡ s.next_abs_seqno + length_in_sequence_space x.seg
      → stream.read_count ≡ s.stream.read_count + length (Buffer.str x.seg.payload)
      → Buffer.str x.seg.payload ++ contents stream ≡ contents s.stream
      → Sound acc (record s {
        stream = stream;
        syned = true;
        fined = fin;
        segments_out = s.segments_out ++ (x.seg ∷ []);
        next_abs_seqno = x.expected_ack;
        sent = s.sent ++ (x ∷ []);
      })
  Sound-push x le p lt e r c = record {
    start = u.start;
    index = u.index;
    chain = rw r (
        Chain-snoc s.isn u.start u.index s.sent s.next_abs_seqno s.stream.read_count x u.chain p lt
          e);
    behind = u.behind;
    ordered =
        Ordered-snoc s.isn s.last_acked_abs_seqno u.start u.index s.sent s.next_abs_seqno
          s.stream.read_count x u.chain u.ordered le lt;
    tail = (
      u.tail.0,
      ap (λ k. k ++ contents stream) (kept_payloads x)
          ∙ append_assoc (payloads (kept s.sent)) (Buffer.str x.seg.payload) (contents stream)
          ∙ ap (λ k. payloads (kept s.sent) ++ k) c
          ∙ u.tail.1,
    );
    begun = λ e. ground arith;
    carries =
        All-snoc (Carries s.isn acc) s.segments_out x.seg u.carries
          (inl (s.next_abs_seqno, s.stream.read_count, contents stream, p, reached, c ∙ sym waits));
  }
