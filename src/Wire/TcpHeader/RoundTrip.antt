-- ===== src/Wire/TcpHeader/RoundTrip.antt =====
-- Parsing a serialized TCP header (libsponge/tcp_helpers/tcp_header.cc) gives the header back.
use tcp_lab.Base.{
  ℕ, ◌-◌, ◌*◌, ◌/◌, ◌%◌, ◌≤◌, ◌<◌, ◌≡◌, refl, ◌∙◌, ap, Bool, true, ◌&&◌, List, [], ◌++◌,
  append_assoc, arith, ltb, le→ltb, ltb→lt, length, take_all, drop, drop_exact, replicate,
  length-replicate, length-append, ok, IsU16, IsU32,
}
use tcp_lab.Util.NetParser.{NetParser, no_error, put_u8, put_u16, put_u32}
use tcp_lab.Util.NetParser.RoundTrip.{Shows, u8_reads, u16_reads, u32_reads, remove_prefix_ok}
use tcp_lab.Wire.Flags.{test_bit, same, both, both_sound, same→eq, &&_true}
use tcp_lab.Wire.TcpHeader.{TcpHeader, parse, skip_options, serialize, fixed_part, flags_byte}

-- The fields fit their types, and the header length is one that its four bits can carry.
pub record IsValid (h : TcpHeader) : Type 0 where
  pub sport_ok : IsU16 h.sport
  pub dport_ok : IsU16 h.dport
  pub seqno_ok : IsU32 h.seqno
  pub ackno_ok : IsU32 h.ackno
  pub win_ok : IsU16 h.win
  pub cksum_ok : IsU16 h.cksum
  pub uptr_ok : IsU16 h.uptr
  pub doff_min : 5 ≤ h.doff
  pub doff_max : h.doff < 16

flags_check : Bool → Bool → Bool → Bool → Bool → Bool → Bool
flags_check u a p r s f =
    let b = flags_byte u a p r s f in
    ltb b 256
    && (same (test_bit b 0b0010_0000) u
        && (same (test_bit b 0b0001_0000) a
            && (same (test_bit b 0b0000_1000) p
                && (same (test_bit b 0b0000_0100) r
                    && (same (test_bit b 0b0000_0010) s && same (test_bit b 0b0000_0001) f)))))

flags_table :
    both (λ u. both (λ a. both (λ p. both (λ r. both (λ s. both (λ f. flags_check u a p r s f))))))
    ≡ true
unfolding both flags_check flags_byte
flags_table = refl

flags_all : (u a p r s f : Bool) → flags_check u a p r s f ≡ true
flags_all u a p r s f =
    both_sound _ f (
      both_sound _ s
        (both_sound _ r (both_sound _ p (both_sound _ a (both_sound _ u flags_table)))))

module _ (u a p r s f : Bool) where
  abbrev byte : ℕ
  byte = flags_byte u a p r s f

  flags_read :
      (byte < 256)
      × (test_bit byte 0b0010_0000 ≡ u)
      × (test_bit byte 0b0001_0000 ≡ a)
      × (test_bit byte 0b0000_1000 ≡ p)
      × (test_bit byte 0b0000_0100 ≡ r)
      × (test_bit byte 0b0000_0010 ≡ s)
      × (test_bit byte 0b0000_0001 ≡ f)
  unfolding flags_check
  flags_read =
      let (h0, r0) = &&_true _ _ (flags_all u a p r s f) in
      let (h1, r1) = &&_true _ _ r0 in
      let (h2, r2) = &&_true _ _ r1 in
      let (h3, r3) = &&_true _ _ r2 in
      let (h4, r4) = &&_true _ _ r3 in
      let (h5, h6) = &&_true _ _ r4 in
      (
        ltb→lt byte 256 h0,
        same→eq _ u h1,
        same→eq _ a h2,
        same→eq _ p h3,
        same→eq _ r h4,
        same→eq _ s h5,
        same→eq _ f h6,
      )

pub length-fixed_part : (h : TcpHeader) → length (fixed_part h) ≡ 20
unfolding fixed_part put_u8 put_u16 put_u32
length-fixed_part h = refl

abbrev pub padding : TcpHeader → List ℕ
padding h = replicate (4 * h.doff - 20) 0

pub length-padding : (h : TcpHeader) → length (padding h) ≡ 4 * h.doff - 20
length-padding h = length-replicate (4 * h.doff - 20) 0

pub serialize_ok : (h : TcpHeader) → IsValid h → serialize h ≡ ok (fixed_part h ++ padding h)
unfolding serialize
serialize_ok h v = rw (
  le→ltb h.doff 5 v.doff_min,
  take_all (4 * h.doff) (fixed_part h) (omega (arith, length-fixed_part h)),
  length-fixed_part h,
)

-- The fields one after the other.
layout : TcpHeader → List ℕ → List ℕ
layout h rest =
    put_u16 [] h.sport
    ++ (put_u16 [] h.dport
        ++ (put_u32 [] h.seqno
            ++ (put_u32 [] h.ackno
                ++ (put_u8 [] (h.doff * 16 % 256)
                    ++ (put_u8 [] (flags_byte h.urg h.ack h.psh h.rst h.syn h.fin)
                        ++ (put_u16 [] h.win
                            ++ (put_u16 [] h.cksum ++ (put_u16 [] h.uptr ++ rest))))))))

fixed_part-layout : (h : TcpHeader) (rest : List ℕ) → fixed_part h ++ rest ≡ layout h rest
unfolding fixed_part layout put_u8 put_u16 put_u32
fixed_part-layout h rest = refl

module _ (h : TcpHeader) (v : IsValid h) (rest : List ℕ) where
  skip_options_ok :
      (p : NetParser)
      → Shows p (padding h ++ rest)
      → (q : NetParser) × (skip_options h p ≡ ok ((h, no_error), q)) × Shows q rest
  unfolding skip_options
  skip_options_ok p s =
      let (q, e, t) =
        remove_prefix_ok p (h.doff * 4 - 20)
          (rw s.view (omega (arith, length-append (padding h) rest, length-padding h))) s.sound in
      (
        q,
        ground (arith, e, t.sound, v.doff_min),
        record {
          view =
              t.view
              ∙ ap (drop (h.doff * 4 - 20)) s.view
              ∙ drop_exact (h.doff * 4 - 20) (padding h) rest (omega (arith, length-padding h));
          sound = t.sound;
        },
      )

  fields_read :
      (p : NetParser)
      → Shows p (layout h rest)
      → (q : NetParser) × (parse p ≡ skip_options h q) × Shows q rest
  unfolding parse layout
  fields_read p s =
      let (small, f1, f2, f3, f4, f5, f6) = flags_read h.urg h.ack h.psh h.rst h.syn h.fin in
      let (p1, e1, s1) = u16_reads p h.sport _ v.sport_ok s in
      let (p2, e2, s2) = u16_reads p1 h.dport _ v.dport_ok s1 in
      let (p3, e3, s3) = u32_reads p2 h.seqno _ v.seqno_ok s2 in
      let (p4, e4, s4) = u32_reads p3 h.ackno _ v.ackno_ok s3 in
      let (p5, e5, s5) = u8_reads p4 (h.doff * 16 % 256) _ (omega arith) s4 in
      let (p6, e6, s6) = u8_reads p5 _ _ small s5 in
      let (p7, e7, s7) = u16_reads p6 h.win _ v.win_ok s6 in
      let (p8, e8, s8) = u16_reads p7 h.cksum _ v.cksum_ok s7 in
      let (q, e9, s9) = u16_reads p8 h.uptr rest v.uptr_ok s8 in
      let word : h.doff * 16 % 256 / 16 ≡ h.doff = omega (arith, v.doff_max) in
      (q, ground (arith, e1, e2, e3, e4, e5, e6, e7, e8, e9, word, f1, f2, f3, f4, f5, f6), s9)

-- For a header whose fields fit their types and whose length is 5 to 15 words, `serialize` does
-- not throw, and `parse` of what it wrote, with any bytes behind it, returns the same header
-- without an error and leaves the parser at those bytes.
pub parse-serialize :
    (h : TcpHeader) (rest : List ℕ)
    → IsValid h
    → (bytes : List ℕ) × (serialize h ≡ ok bytes)
      × ((p : NetParser)
          → Shows p (bytes ++ rest)
          → (q : NetParser) × (parse p ≡ ok ((h, no_error), q)) × Shows q rest)
parse-serialize h rest v = (
  fixed_part h ++ padding h,
  serialize_ok h v,
  λ p s.
      let regroup =
        append_assoc (fixed_part h) (padding h) rest ∙ fixed_part-layout h (padding h ++ rest) in
      let (p1, e1, s1) =
        fields_read h v (padding h ++ rest) p
          (record { view = s.view ∙ regroup; sound = s.sound }) in
      let (q, e2, s2) = skip_options_ok h v rest p1 s1 in (q, e1 ∙ e2, s2),
)
