-- ===== src/Sender/Writes.antt =====
-- Writes to the stream of the sender (libsponge/tcp_sender.cc), and its end, keep its segments sound.
use tcp_lab.Base.{
  ℕ, ◌+◌, sym, ◌∙◌, ap, List, [], ◌∷◌, ◌++◌, append_assoc, All, arith, length, length-append, take,
  drop-append_left, IsU64,
}
use tcp_lab.Seqno.{WrappingInt32}
use tcp_lab.ByteStream
use tcp_lab.ByteStream.Laws.{contents, write_lem}
use tcp_lab.Wire.TcpSegment.{TcpSegment}
use tcp_lab.Sender.{TcpSender}
use tcp_lab.Sender.Chain.{payloads, kept, Carries, Carries-grow}
use tcp_lab.Sender.Steps.{Good}

segments-Carries :
    (isn : WrappingInt32) (acc more : List ℕ) (out : List TcpSegment)
    → All (Carries isn acc) out
    → All (Carries isn (acc ++ more)) out
segments-Carries isn acc more [] c = tt
segments-Carries isn acc more (x ∷ out) (c, cs) =
    (Carries-grow isn acc more x c, segments-Carries isn acc more out cs)

module _ (acc : List ℕ) (s : TcpSender) (g : Good acc s) where
  pub write-Good :
      (bytes : List ℕ)
      → IsU64 (s.stream.write_count + length bytes + 2)
      → Good
          (acc ++ take (ByteStream.write s.stream bytes).1 bytes)
          (record s { stream = (ByteStream.write s.stream bytes).0 })
  write-Good bytes b =
      let n = (ByteStream.write s.stream bytes).1 in
      let got = take n bytes in
      let (e, c, w, ok_stream) = write_lem s.stream bytes g.valid.stream_ok (omega (arith, b)) in
      record {
        valid = record {
          stream_ok = ok_stream;
          counted = unfold ByteStream.write in g.valid.counted;
          acked = g.valid.acked;
          bounded = omega (arith, w, e, b);
          window_ok = g.valid.window_ok;
        };
        sound = record {
          start = g.sound.start;
          index = g.sound.index;
          chain = unfold ByteStream.write in g.sound.chain;
          behind = g.sound.behind;
          ordered = g.sound.ordered;
          tail = (
            omega (arith, g.sound.tail.0, length-append acc got),
            ap (λ k. payloads (kept s.sent) ++ k) c
                ∙ sym (append_assoc (payloads (kept s.sent)) (contents s.stream) got)
                ∙ ap (λ k. k ++ got) g.sound.tail.1
                ∙ sym (drop-append_left g.sound.index acc got g.sound.tail.0),
          );
          begun = unfold ByteStream.write in g.sound.begun;
          carries = segments-Carries s.isn acc got s.segments_out g.sound.carries;
        };
      }

  pub end_input-Good : Good acc (record s { stream = ByteStream.end_input s.stream })
  unfolding ByteStream.end_input
  end_input-Good = record {
    valid = record {
      stream_ok = record {
        fits = g.valid.stream_ok.fits;
        counted = g.valid.stream_ok.counted;
        bounded = g.valid.stream_ok.bounded;
        capacity_bounded = g.valid.stream_ok.capacity_bounded;
      };
      counted = g.valid.counted;
      acked = g.valid.acked;
      bounded = g.valid.bounded;
      window_ok = g.valid.window_ok;
    };
    sound = record {
      start = g.sound.start;
      index = g.sound.index;
      chain = g.sound.chain;
      behind = g.sound.behind;
      ordered = g.sound.ordered;
      tail = g.sound.tail;
      begun = g.sound.begun;
      carries = g.sound.carries;
    };
  }
