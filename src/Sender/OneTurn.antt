-- ===== src/Sender/OneTurn.antt =====
-- One turn of the loop of `fill_window` (libsponge/tcp_sender.cc).
use tcp_lab.Base.{
  ℕ, ◌+◌, ◌≤◌, ◌<◌, ◌≡◌, ◌^◌, refl, sym, subst, IsU64, ◌∙◌, ap, Bool, true, false, not, ◌&&◌, ◌||◌,
  ◌⊎◌, inl, inr, List, [], ◌∷◌, ◌++◌, append-nil, arith, ltb, ◌==◌, ==→eq, ==→ne, Bool-cases,
  length, take, length-take, add64, sub64, ok,
}
use tcp_lab.Util.Buffer
use tcp_lab.ByteStream.{ByteStream}
use tcp_lab.ByteStream.Laws
use tcp_lab.ByteStream.Laws.{contents, read_lem}
use tcp_lab.Wire.TcpSegment.{length_in_sequence_space}
use tcp_lab.Sender.{
  TcpSender, Turn, allowed, read_size, sends_fin, segment_of, emit, turn, bytes_in_flight,
}
use tcp_lab.Sender.Chain.{payloads, kept, kept-append, Place}
use tcp_lab.Sender.Sound.{Sound-stop, Sound-push}
use tcp_lab.Sender.Filled.{IsValid, Filled, bit}

-- One past the last number that the window admits.
abbrev pub limit_of : TcpSender → ℕ → ℕ
limit_of s ex = s.last_acked_abs_seqno + (s.window_size + ex)

length-segment_of :
    (s : TcpSender) (bytes : List ℕ) (fin : Bool)
    → length_in_sequence_space (segment_of s bytes fin) ≡ length bytes + bit (not s.syned) + bit fin
unfolding length_in_sequence_space segment_of Buffer.size Buffer.str
length-segment_of s bytes fin = refl

payload-segment_of :
    (s : TcpSender) (bytes : List ℕ) (fin : Bool) → payloads (segment_of s bytes fin ∷ []) ≡ bytes
unfolding payloads segment_of Buffer.str
payload-segment_of s bytes fin = append-nil bytes

str-segment_of :
    (s : TcpSender) (bytes : List ℕ) (fin : Bool)
    → Buffer.str (segment_of s bytes fin).payload ≡ bytes
unfolding segment_of Buffer.str
str-segment_of s bytes fin = refl

no_bytes : (bytes : List ℕ) → length bytes ≡ 0 → bytes ≡ []
no_bytes [] e = refl
no_bytes (b ∷ bs) e = absurd (omega arith)

module _ (s : TcpSender) (v : IsValid s) (open_ : s.fined ≡ false) (limit : ℕ) (stream : ByteStream)
    (bytes : List ℕ) (fin : Bool) (ok_stream : Laws.IsValid stream)
    (content : bytes ++ contents stream ≡ contents s.stream)
    (reads : stream.read_count ≡ s.stream.read_count + length bytes)
    (writes : stream.write_count ≡ s.stream.write_count)
    (fits : s.next_abs_seqno + (length bytes + bit (not s.syned) + bit fin) ≤ limit) where
  abbrev size : ℕ
  size = length bytes + bit (not s.syned) + bit fin

  abbrev stopped : TcpSender
  stopped = record s { stream = stream; syned = true; fined = s.fined || fin }

  abbrev pushed : TcpSender
  pushed = record stopped {
    segments_out = s.segments_out ++ (segment_of s bytes fin ∷ []);
    next_abs_seqno = add64 s.next_abs_seqno size;
    sent =
        s.sent
        ++ (record { expected_ack = add64 s.next_abs_seqno size; seg = segment_of s bytes fin }
            ∷ []);
  }

  emit_stops :
      (size == 0) ≡ true → emit s stream bytes fin ≡ record { sender = stopped; stop = true }
  unfolding emit
  emit_stops z = rw (length-segment_of s bytes fin, z)

  emit_pushes :
      (size == 0) ≡ false → emit s stream bytes fin ≡ record { sender = pushed; stop = false }
  unfolding emit
  emit_pushes z = rw (length-segment_of s bytes fin, z)

  stopped-Filled : (size == 0) ≡ true → Filled limit s stopped
  unfolding payloads
  stopped-Filled z = record {
    valid = record {
      stream_ok = ok_stream;
      counted = ground (arith, ==→eq _ _ z, v.counted);
      acked = v.acked;
      bounded = omega (arith, v.bounded);
      window_ok = v.window_ok;
    };
    same_acked = refl;
    same_window = refl;
    same_isn = refl;
    same_tries = refl;
    news = [];
    out = sym (append-nil _);
    saved = sym (append-nil _);
    bytes =
        ap (λ k. k ++ contents stream) (sym (no_bytes bytes (omega (arith, ==→eq _ _ z))))
        ∙ content;
    sound = λ acc u.
        Sound-stop acc s u stream (s.fined || fin) (omega (arith, reads, ==→eq _ _ z)) (
          ap (λ k. k ++ contents stream) (sym (no_bytes bytes (omega (arith, ==→eq _ _ z))))
          ∙ content);
    grows = omega arith;
    room = inl refl;
  }

  next_lem : pushed.next_abs_seqno ≡ s.next_abs_seqno + size
  next_lem = ground (arith, v.counted, v.bounded, ok_stream.counted, reads, writes, open_)

  -- The place of the new segment.
  segment_of-Place :
      (s.syned ≡ false → (s.next_abs_seqno ≡ 0) × (s.stream.read_count ≡ 0))
      → Place s.isn s.next_abs_seqno s.stream.read_count (segment_of s bytes fin)
  unfolding segment_of
  segment_of-Place begun = (
    refl,
    elim (Bool-cases s.syned) [
      | inl y ↦ inr (ap not y, ground (arith, y, open_, v.counted))
      | inr n ↦ inl (ap not n, (begun n).0, (begun n).1)
    ],
  )

  pushed-Filled : (size == 0) ≡ false → Filled limit s pushed
  unfolding kept
  pushed-Filled z = record {
    valid = record {
      stream_ok = ok_stream;
      counted = next_lem ∙ ground (arith, v.counted);
      acked = rw next_lem (omega (arith, v.acked));
      bounded = omega (arith, v.bounded);
      window_ok = v.window_ok;
    };
    same_acked = refl;
    same_window = refl;
    same_isn = refl;
    same_tries = refl;
    news = segment_of s bytes fin ∷ [];
    out = refl;
    saved = kept-append s.sent _;
    bytes = ap (λ k. k ++ contents stream) (payload-segment_of s bytes fin) ∙ content;
    sound = λ acc u.
        Sound-push acc s u stream (s.fined || fin)
          (record { expected_ack = pushed.next_abs_seqno; seg = segment_of s bytes fin }) v.acked
          (segment_of-Place u.begun) (omega (arith, next_lem, ==→ne _ _ z))
          (next_lem ∙ ap (λ k. s.next_abs_seqno + k) (sym (length-segment_of s bytes fin)))
          (reads ∙ ap (λ k. s.stream.read_count + length k) (sym (str-segment_of s bytes fin)))
          (ap (λ k. k ++ contents stream) (str-segment_of s bytes fin) ∙ content);
    grows = rw next_lem (omega arith);
    room = inr (rw next_lem fits);
  }

fin_bound :
    (a n : ℕ) (open_ ended : Bool)
    → IsU64 a
    → n ≤ a
    → n + bit ((open_ && ltb 0 (sub64 a n)) && ended) ≤ a
fin_bound a n open_ ended h le = ground arith

-- A turn of the loop, entered with its guard true.
pub record Turned (s : TcpSender) (ex : ℕ) (t : Turn) : Type 0 where
  pub filled : Filled (limit_of s ex) s t.sender
  pub progress : (t.stop ≡ true) ⊎ ((t.stop ≡ false) × (s.next_abs_seqno < t.sender.next_abs_seqno))

emit-Turned :
    (s : TcpSender) (v : IsValid s) (open_ : s.fined ≡ false) (ex : ℕ) (stream : ByteStream)
    (bytes : List ℕ) (fin : Bool)
    → Laws.IsValid stream
    → bytes ++ contents stream ≡ contents s.stream
    → stream.read_count ≡ s.stream.read_count + length bytes
    → stream.write_count ≡ s.stream.write_count
    → s.next_abs_seqno + (length bytes + bit (not s.syned) + bit fin) ≤ limit_of s ex
    → Turned s ex (emit s stream bytes fin)
emit-Turned s v open_ ex stream bytes fin k c r w fits =
    elim (Bool-cases (length bytes + bit (not s.syned) + bit fin == 0)) [
      | inl z ↦
          subst (Turned s ex) (sym (emit_stops s v open_ _ stream bytes fin k c r w fits z))
            (record {
              filled = stopped-Filled s v open_ _ stream bytes fin k c r w fits z;
              progress = inl refl;
            })
      | inr z ↦
          subst (Turned s ex) (sym (emit_pushes s v open_ _ stream bytes fin k c r w fits z))
            (record {
              filled = pushed-Filled s v open_ _ stream bytes fin k c r w fits z;
              progress = inr (
                refl,
                omega (arith, next_lem s v open_ _ stream bytes fin k c r w fits, ==→ne _ _ z),
              );
            })
    ]

module _ (s : TcpSender) (ex : ℕ) (v : IsValid s) (open_ : s.fined ≡ false)
    (room : s.next_abs_seqno < limit_of s ex) (small : ex ≤ 1) where
  allowed_lem : allowed s ex + s.next_abs_seqno + bit (not s.syned) ≡ limit_of s ex
  unfolding bytes_in_flight
  allowed_lem = ground (arith, v.acked, v.bounded, v.window_ok, v.counted, v.stream_ok.counted)

  allowed_word : allowed s ex < 2 ^ 64
  allowed_word = ground arith

  read_size_le : read_size s ex ≤ allowed s ex
  read_size_le = ground arith

  fin_fits :
      (stream : ByteStream) (n : ℕ)
      → n ≤ allowed s ex
      → n + bit (sends_fin s stream (sub64 (allowed s ex) n)) ≤ allowed s ex
  unfolding sends_fin
  fin_fits stream n h = fin_bound (allowed s ex) n _ _ allowed_word h

  pub turn_lem : (t : Turn) × (turn s ex ≡ ok t) × Turned s ex t
  unfolding turn Buffer.size Buffer.str
  turn_lem =
      let (stream, e, content, reads, writes, _, v', _) =
        read_lem s.stream (read_size s ex) v.stream_ok in
      let bytes = take (read_size s ex) (contents s.stream) in
      let fin = sends_fin s stream (sub64 (allowed s ex) (length bytes)) in
      let fits : s.next_abs_seqno + (length bytes + bit (not s.syned) + bit fin) ≤ limit_of s ex =
        omega (
          arith,
          allowed_lem,
          read_size_le,
          length-take (read_size s ex) (contents s.stream),
          fin_fits stream (length bytes)
              (omega (arith, read_size_le, length-take (read_size s ex) (contents s.stream))),
        ) in
      (
        emit s stream bytes fin,
        rw e,
        emit-Turned s v open_ ex stream bytes fin v' (sym content) reads writes fits,
      )
