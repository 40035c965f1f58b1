-- ===== src/Sender/Filled.antt =====
-- What `fill_window` of libsponge/tcp_sender.cc may do to the sender.
use tcp_lab.Base.{
  ℕ, ◌+◌, ◌≤◌, ◌≡◌, refl, sym, ◌∙◌, ap, Bool, ◌⊎◌, inl, inr, List, [], ◌++◌, append-nil,
  append_assoc, arith, if◌then◌else◌, IsU16, IsU64,
}
use tcp_lab.ByteStream.Laws
use tcp_lab.ByteStream.Laws.{contents}
use tcp_lab.Wire.TcpSegment.{TcpSegment}
use tcp_lab.Sender.{TcpSender}
use tcp_lab.Sender.Chain.{payloads, payloads-append, kept}
use tcp_lab.Sender.Sound.{Sound}

abbrev pub bit : Bool → ℕ
bit b = if b then 1 else 0

-- The next sequence number counts the SYN, the bytes read from the stream and the FIN, and is not
-- behind what was acknowledged; the counters do not wrap.
pub record IsValid (s : TcpSender) : Type 0 where
  pub stream_ok : Laws.IsValid s.stream
  pub counted : s.next_abs_seqno ≡ bit s.syned + (s.stream.read_count + bit s.fined)
  pub acked : s.last_acked_abs_seqno ≤ s.next_abs_seqno
  pub bounded : IsU64 (s.stream.write_count + 2)
  pub window_ok : IsU16 s.window_size

-- `s'` is `s` after it sent the segments `news`, none of them beyond the number `limit`; what is
-- sound of the segments stays so.
pub record Filled (limit : ℕ) (s s' : TcpSender) : Type 0 where
  pub valid : IsValid s'
  pub same_acked : s'.last_acked_abs_seqno ≡ s.last_acked_abs_seqno
  pub same_window : s'.window_size ≡ s.window_size
  pub same_isn : s'.isn ≡ s.isn
  pub same_tries : s'.resend_try_times ≡ s.resend_try_times
  pub news : List TcpSegment
  pub out : s'.segments_out ≡ s.segments_out ++ news
  pub saved : kept s'.sent ≡ kept s.sent ++ news
  pub bytes : payloads news ++ contents s'.stream ≡ contents s.stream
  pub sound : (acc : List ℕ) → Sound acc s → Sound acc s'
  pub grows : s.next_abs_seqno ≤ s'.next_abs_seqno
  pub room : (s'.next_abs_seqno ≡ s.next_abs_seqno) ⊎ (s'.next_abs_seqno ≤ limit)

pub Filled-refl : (limit : ℕ) (s : TcpSender) → IsValid s → Filled limit s s
unfolding payloads
Filled-refl limit s v = record {
  valid = v;
  same_acked = refl;
  same_window = refl;
  same_isn = refl;
  same_tries = refl;
  news = [];
  out = sym (append-nil _);
  saved = sym (append-nil _);
  bytes = refl;
  sound = λ acc u. u;
  grows = omega arith;
  room = inl refl;
}

pub Filled-trans :
    (l l' : ℕ) (s t u : TcpSender) → l' ≤ l → Filled l s t → Filled l' t u → Filled l s u
Filled-trans l l' s t u h f g = record {
  valid = g.valid;
  same_acked = g.same_acked ∙ f.same_acked;
  same_window = g.same_window ∙ f.same_window;
  same_isn = g.same_isn ∙ f.same_isn;
  same_tries = g.same_tries ∙ f.same_tries;
  news = f.news ++ g.news;
  out = g.out ∙ ap (λ k. k ++ g.news) f.out ∙ append_assoc s.segments_out f.news g.news;
  saved = g.saved ∙ ap (λ k. k ++ g.news) f.saved ∙ append_assoc (kept s.sent) f.news g.news;
  bytes =
      ap (λ k. k ++ contents u.stream) (payloads-append f.news g.news)
      ∙ append_assoc (payloads f.news) (payloads g.news) (contents u.stream)
      ∙ ap (λ k. payloads f.news ++ k) g.bytes
      ∙ f.bytes;
  sound = λ acc k. g.sound acc (f.sound acc k);
  grows = omega (arith, f.grows, g.grows);
  room = elim g.room [
    | inl e ↦ elim f.room [ inl e' ↦ inl (e ∙ e') | inr k ↦ inr (omega arith) ]
    | inr k ↦ inr (omega arith)
  ];
}
