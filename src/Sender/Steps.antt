-- ===== src/Sender/Steps.antt =====
-- Every operation of the sender (libsponge/tcp_sender.cc) keeps what is sound of its segments.
use tcp_lab.Base.{
  ℕ, ◌≤◌, ◌<◌, ◌≡◌, refl, sym, ◌∙◌, ap, subst, add64, ◌||◌, inl, inr, List, [], ◌∷◌, All, All-snoc,
  arith, ltb, leb, Bool-cases, length, length-append, length-drop, ok, IsU16,
}
use tcp_lab.Seqno.{WrappingInt32, unwrap}
use tcp_lab.Util.Buffer
use tcp_lab.ByteStream.Laws.{contents}
use tcp_lab.Wire.TcpSegment.{TcpSegment}
use tcp_lab.Sender.{
  TcpSender, Sent, fill_window, advance, ack_received, drop_acked, retransmit, tick,
  send_empty_segment,
}
use tcp_lab.Sender.Chain.{
  payloads, kept, Chain, Tail, Carries, Chain-length, Chain-drop_acked, Chain-Carries,
}
use tcp_lab.Sender.Sound.{Sound}
use tcp_lab.Sender.Filled.{IsValid}
use tcp_lab.Sender.Fill.{fill_window_lem}
use tcp_lab.Sender.Ack.{drop_acked_lem}

-- The counters are right, and the segments sound for the stream `acc`.
pub record Good (acc : List ℕ) (s : TcpSender) : Type 0 where
  pub valid : IsValid s
  pub sound : Sound acc s

module _ (acc : List ℕ) (s : TcpSender) (g : Good acc s) where
  abbrev v : IsValid s
  v = g.valid

  abbrev u : Sound acc s
  u = g.sound

  -- The bytes written are those of the stream.
  pub written : s.stream.write_count ≡ length acc
  written = omega (
    arith,
    Chain-length s.isn u.start u.index s.sent _ _ u.chain,
    u.tail.0,
    ap length u.tail.1,
    length-append (payloads (kept s.sent)) (contents s.stream),
    length-drop u.index acc,
    v.stream_ok.counted,
  )

  pub fill_window-Good : (s' : TcpSender) × (fill_window s ≡ ok s') × Good acc s'
  fill_window-Good =
      let (s', e, f, _) = fill_window_lem s v in
      (s', e, record { valid = f.valid; sound = f.sound acc u })

  -- The other fields play no part, but for the queue and the size of the window.
  Good-fields :
      (out : List TcpSegment) (time timeout tries w : ℕ)
      → All (Carries s.isn acc) out
      → IsU16 w
      → Good acc (record s {
        segments_out = out;
        last_time = time;
        timeout = timeout;
        resend_try_times = tries;
        window_size = w;
      })
  Good-fields out time timeout tries w c h = record {
    valid = record {
      stream_ok = v.stream_ok;
      counted = v.counted;
      acked = v.acked;
      bounded = v.bounded;
      window_ok = h;
    };
    sound = record {
      start = u.start;
      index = u.index;
      chain = u.chain;
      behind = u.behind;
      ordered = u.ordered;
      tail = u.tail;
      begun = u.begun;
      carries = c;
    };
  }

  pub send_empty_segment-Good : Good acc (send_empty_segment s)
  unfolding send_empty_segment Buffer.str
  send_empty_segment-Good =
      Good-fields _ s.last_time s.timeout s.resend_try_times s.window_size
        (All-snoc (Carries s.isn acc) s.segments_out _ u.carries (inr (refl, refl, refl)))
        v.window_ok

  first-Carries : (x : Sent) (xs : List Sent) → s.sent ≡ x ∷ xs → Carries s.isn acc x.seg
  first-Carries x xs e =
      Chain-Carries s.isn acc (contents s.stream) u.start u.index x xs s.next_abs_seqno
        s.stream.read_count
        (subst (λ k. Chain s.isn u.start u.index k s.next_abs_seqno s.stream.read_count) e u.chain)
        (subst (λ k. Tail acc u.index k (contents s.stream)) e u.tail)

  tick_wait : (time : ℕ) → Good acc (record s { last_time = time })
  tick_wait time =
      Good-fields s.segments_out time s.timeout s.resend_try_times s.window_size u.carries
        v.window_ok

  retransmit-Good : (time : ℕ) (xs : List Sent) → s.sent ≡ xs → Good acc (retransmit s time xs)
  unfolding retransmit
  retransmit-Good time [] e = tick_wait 0
  retransmit-Good time (x ∷ xs) e = elim (Bool-cases (leb s.timeout time)) [
    | inl due ↦ rw due (
        Good-fields _ 0 _ _ s.window_size
          (All-snoc (Carries s.isn acc) s.segments_out x.seg u.carries (first-Carries x xs e))
          v.window_ok)
    | inr early ↦ rw early (tick_wait time)
  ]

  pub tick-Good : (ms : ℕ) → Good acc (tick s ms)
  unfolding tick
  tick-Good ms = retransmit-Good (add64 s.last_time ms) s.sent refl

  with_window-Good : (w : ℕ) → IsU16 w → Good acc (record s { window_size = w })
  with_window-Good w h =
      Good-fields s.segments_out s.last_time s.timeout s.resend_try_times w u.carries h

  -- A number that is acknowledged for the first time.
  advance-Good :
      (m time timeout tries : ℕ) (left : List Sent)
      → m ≤ s.next_abs_seqno
      → left ≡ drop_acked m s.sent
      → s.last_acked_abs_seqno < m
      → Good acc (record s {
        last_acked_abs_seqno = m;
        timeout = timeout;
        last_time = time;
        resend_try_times = tries;
        sent = left;
      })
  advance-Good m time timeout tries left below e above =
      let (from, k, c, t, le) =
        Chain-drop_acked s.isn acc (contents s.stream) m u.start u.index s.sent s.next_abs_seqno
          s.stream.read_count u.chain u.tail (omega (arith, u.behind, above)) in
      record {
        valid = record {
          stream_ok = v.stream_ok;
          counted = v.counted;
          acked = below;
          bounded = v.bounded;
          window_ok = v.window_ok;
        };
        sound = record {
          start = from;
          index = k;
          chain = rw e c;
          behind = le;
          ordered = rw e (drop_acked_lem m s.last_acked_abs_seqno s.sent u.ordered).open_;
          tail = rw e t;
          begun = u.begun;
          carries = u.carries;
        };
      }

  advance_cases :
      (m : ℕ) (xs : List Sent)
      → s.sent ≡ xs
      → s.last_acked_abs_seqno < m
      → m ≤ s.next_abs_seqno
      → Good acc (advance s m xs)
  unfolding advance drop_acked
  advance_cases m [] e above below =
      advance-Good m s.last_time s.timeout s.resend_try_times s.sent below
        (e ∙ ap (drop_acked m) (sym e)) above
  advance_cases m (x ∷ xs) e above below =
      advance-Good m 0 s.initial_retransmission_timeout 0 (drop_acked m (x ∷ xs)) below
        (ap (drop_acked m) (sym e)) above

module _ (acc : List ℕ) (s : TcpSender) (g : Good acc s) where
  pub ack_received-Good :
      (ackno : WrappingInt32) (w : ℕ) → IsU16 w → Good acc (ack_received s ackno w)
  unfolding ack_received
  ack_received-Good ackno w h =
      let g' = with_window-Good acc s g w h in
      let tmp = unwrap ackno s.isn s.last_acked_abs_seqno in
      elim (Bool-cases (leb tmp s.last_acked_abs_seqno || ltb s.next_abs_seqno tmp)) [
        | inl out ↦ rw out g'
        | inr in_ ↦ rw in_ (
            advance_cases acc (record s { window_size = w }) g' tmp s.sent refl (ground arith)
              (ground arith))
      ]
