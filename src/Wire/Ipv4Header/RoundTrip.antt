-- ===== src/Wire/Ipv4Header/RoundTrip.antt =====
-- Parsing a serialized IPv4 header (libsponge/tcp_helpers/ipv4_header.cc) gives the header back.
use Prim.Native.Nat.{bit_or}
use tcp_lab.Base.{
  ℕ, ◌+◌, ◌-◌, ◌*◌, ◌%◌, ◌≤◌, ◌<◌, ◌≡◌, refl, ◌∙◌, ap, false, not, ◌==◌, ◌||◌, ltb, if_false, List,
  [], ◌++◌, append_assoc, arith, length, take_all, take, take-append_left, drop, drop_exact,
  replicate, length-replicate, length-append, ok, IsU8, IsU16, IsU32,
}
use tcp_lab.Util.Buffer
use tcp_lab.Util.InternetChecksum
use tcp_lab.Util.NetParser
use tcp_lab.Util.NetParser.{NetParser, no_error, put_u8, put_u16, put_u32}
use tcp_lab.Util.NetParser.RoundTrip.{Shows, u8_reads, u16_reads, u32_reads, remove_prefix_ok}
use tcp_lab.Wire.Ipv4Header.{
  Ipv4Header, header_length, fields, verify, inspect, parse, serialize, fixed_part, flags_word,
}
use tcp_lab.Wire.Ipv4Header.Words.{flags_word_reads, first_byte_reads}

-- The fields fit their types and their bits, the version is 4, and the header has 5 words at least.
pub record IsValid (h : Ipv4Header) : Type 0 where
  pub ver_ok : h.ver ≡ 4
  pub hlen_min : 5 ≤ h.hlen
  pub hlen_max : h.hlen < 16
  pub tos_ok : IsU8 h.tos
  pub len_ok : IsU16 h.len
  pub id_ok : IsU16 h.id
  pub offset_ok : h.offset < 0x2000
  pub ttl_ok : IsU8 h.ttl
  pub proto_ok : IsU8 h.proto
  pub cksum_ok : IsU16 h.cksum
  pub src_ok : IsU32 h.src
  pub dst_ok : IsU32 h.dst

abbrev pub padding : Ipv4Header → List ℕ
padding h = replicate (4 * h.hlen - 20) 0

length-padding : (h : Ipv4Header) → length (padding h) ≡ 4 * h.hlen - 20
length-padding h = length-replicate (4 * h.hlen - 20) 0

pub length-fixed_part : (h : Ipv4Header) → length (fixed_part h) ≡ 20
unfolding fixed_part put_u8 put_u16 put_u32
length-fixed_part h = refl

pub length-text : (h : Ipv4Header) → IsValid h → length (fixed_part h ++ padding h) ≡ 4 * h.hlen
length-text h v = omega (
  arith,
  length-append (fixed_part h) (padding h),
  length-fixed_part h,
  length-padding h,
  v.hlen_min,
)

pub serialize_ok : (h : Ipv4Header) → IsValid h → serialize h ≡ ok (fixed_part h ++ padding h)
unfolding serialize
serialize_ok h v =
    let fine : (not (h.ver == 4) || ltb (4 * h.hlen) header_length) ≡ false =
      ground (arith, v.ver_ok, v.hlen_min) in
    if_false _ _ _ fine
    ∙ rw
        (
          take_all (4 * h.hlen) (fixed_part h) (omega (arith, length-fixed_part h, v.hlen_min)),
          length-fixed_part h,
        )
        refl

-- The fields one after the other.
layout : Ipv4Header → List ℕ → List ℕ
layout h rest =
    put_u8 [] (bit_or (4 * 16) (h.hlen % 16) % 256)
    ++ (put_u8 [] h.tos
        ++ (put_u16 [] h.len
            ++ (put_u16 [] h.id
                ++ (put_u16 [] (flags_word h.df h.mf h.offset)
                    ++ (put_u8 [] h.ttl
                        ++ (put_u8 [] h.proto
                            ++ (put_u16 [] h.cksum
                                ++ (put_u32 [] h.src ++ (put_u32 [] h.dst ++ rest)))))))))

fixed_part-layout :
    (h : Ipv4Header) (rest : List ℕ) → h.ver ≡ 4 → fixed_part h ++ rest ≡ layout h rest
unfolding fixed_part layout put_u8 put_u16 put_u32
fixed_part-layout h rest e = ap (λ v. fixed_part (record h { ver = v }) ++ rest) e

verify_step :
    (original : List ℕ) (h : Ipv4Header) (p q : NetParser)
    → NetParser.remove_prefix (h.hlen * 4 - 20) p ≡ ok (tt, q)
    → q.error ≡ no_error
    → InternetChecksum.value
        (InternetChecksum.add (InternetChecksum.new 0) (take (4 * h.hlen) original))
      ≡ 0
    → verify original h p ≡ ok ((h, no_error), q)
unfolding verify
verify_step original h p q e sound c = ground (arith, e, sound, c)

-- The tests behind the fields are passed.
inspect_step :
    (original : List ℕ) (h : Ipv4Header) (p : NetParser)
    → IsValid h
    → length original ≡ h.len
    → 4 * h.hlen ≤ length original
    → inspect original h p ≡ verify original h p
unfolding inspect Buffer.size Buffer.str
inspect_step original h p v e le = ground (arith, v.ver_ok, v.hlen_min)

parse_step :
    (old h : Ipv4Header) (p q : NetParser)
    → 20 ≤ length (Buffer.str p.buffer)
    → fields p ≡ ok (h, q)
    → parse old p ≡ inspect (Buffer.str p.buffer) h q
unfolding parse Buffer.size
parse_step old h p q le e = ground (arith, e)

module _ (h : Ipv4Header) (v : IsValid h) (rest : List ℕ) where
  fields_read :
      (p : NetParser)
      → Shows p (layout h rest)
      → (q : NetParser) × (fields p ≡ ok (h, q)) × Shows q rest
  unfolding fields layout
  fields_read p s =
      let (fs, f1, f2, f3) = flags_word_reads h.df h.mf h.offset v.offset_ok in
      let (bs, b1, b2) = first_byte_reads h.hlen v.hlen_max in
      let (p1, e1, s1) = u8_reads p _ _ bs s in
      let (p2, e2, s2) = u8_reads p1 h.tos _ v.tos_ok s1 in
      let (p3, e3, s3) = u16_reads p2 h.len _ v.len_ok s2 in
      let (p4, e4, s4) = u16_reads p3 h.id _ v.id_ok s3 in
      let (p5, e5, s5) = u16_reads p4 _ _ fs s4 in
      let (p6, e6, s6) = u8_reads p5 h.ttl _ v.ttl_ok s5 in
      let (p7, e7, s7) = u8_reads p6 h.proto _ v.proto_ok s6 in
      let (p8, e8, s8) = u16_reads p7 h.cksum _ v.cksum_ok s7 in
      let (p9, e9, s9) = u32_reads p8 h.src _ v.src_ok s8 in
      let (q, e10, s10) = u32_reads p9 h.dst rest v.dst_ok s9 in
      (
        q,
        ground (arith, e1, e2, e3, e4, e5, e6, e7, e8, e9, e10, f1, f2, f3, b1, b2, v.ver_ok),
        s10,
      )

module _ (h : Ipv4Header) (v : IsValid h) (rest : List ℕ) where
  -- The header's checksum is the one that its bytes ask for.
  abbrev Checks : Type 0
  Checks =
      InternetChecksum.value
        (InternetChecksum.add (InternetChecksum.new 0) (fixed_part h ++ padding h))
      ≡ 0

  verify_ok :
      Checks
      → (p : NetParser) → Shows p (padding h ++ rest)
      → (q : NetParser) × (verify ((fixed_part h ++ padding h) ++ rest) h p ≡ ok ((h, no_error), q))
        × Shows q rest
  unfolding verify
  verify_ok c p s =
      let (q, e, t) =
        remove_prefix_ok p (h.hlen * 4 - 20)
          (rw s.view (omega (arith, length-append (padding h) rest, length-padding h))) s.sound in
      let head : take (4 * h.hlen) ((fixed_part h ++ padding h) ++ rest)
          ≡ fixed_part h ++ padding h =
        take-append_left (4 * h.hlen) (fixed_part h ++ padding h) rest
          (omega (arith, length-text h v))
        ∙ take_all _ _ (omega (arith, length-text h v)) in
      (
        q,
        verify_step _ h p q e t.sound (
            ap (λ l. InternetChecksum.value (InternetChecksum.add (InternetChecksum.new 0) l)) head
            ∙ c),
        record {
          view =
              t.view
              ∙ ap (drop (h.hlen * 4 - 20)) s.view
              ∙ drop_exact (h.hlen * 4 - 20) (padding h) rest (omega (arith, length-padding h));
          sound = t.sound;
        },
      )

  -- The header, with the bytes of its datagram behind it, is parsed without an error.
  pub parse_ok :
      Checks
      → h.len ≡ 4 * h.hlen + length rest
      → (old : Ipv4Header) (p : NetParser) → Shows p ((fixed_part h ++ padding h) ++ rest)
      → (q : NetParser) × (parse old p ≡ ok ((h, no_error), q)) × Shows q rest
  parse_ok c len old p s =
      let whole = (fixed_part h ++ padding h) ++ rest in
      let size : length whole ≡ h.len =
        omega (arith, length-append (fixed_part h ++ padding h) rest, length-text h v, len) in
      let regroup =
        append_assoc (fixed_part h) (padding h) rest
        ∙ fixed_part-layout h (padding h ++ rest) v.ver_ok in
      let (q, e, t) =
        fields_read h v (padding h ++ rest) p
          (record { view = s.view ∙ regroup; sound = s.sound }) in
      let (r, e', u) = verify_ok c q t in
      (
        r,
        parse_step old h p q (rw s.view (omega (arith, size, len, v.hlen_min))) e
            ∙ ap (λ k. inspect k h q) s.view
            ∙ inspect_step whole h q v size (omega (arith, size, len))
            ∙ e',
        u,
      )
