-- ===== src/Wire/Ipv4Datagram/RoundTrip.antt =====
-- Parsing a serialized IPv4 datagram (libsponge/tcp_helpers/ipv4_datagram.cc) gives it back, with
-- its header's checksum.
use tcp_lab.Base.{
  ℕ, zero, suc, replicate, ◌+◌, ◌-◌, ◌*◌, ◌^◌, ◌<◌, ◌≡◌, refl, sym, ◌∙◌, ap, Bool, true, false, not,
  ◌==◌, if_false, List, [], ◌∷◌, ◌++◌, arith, length, All, ok, IsU8,
}
use tcp_lab.Util.Buffer
use tcp_lab.Util.Buffer.{Buffer}
use tcp_lab.Util.BufferList
use tcp_lab.Util.BufferList.{BufferList}
use tcp_lab.Util.BufferList.View.{size_lem, concatenate-append, concatenate-of_string}
use tcp_lab.Util.InternetChecksum
use tcp_lab.Util.InternetChecksum.Laws.{
  words, flips, words-append, All-append, All-zeros, value-add, value_closes, value-lt,
}
use tcp_lab.Util.NetParser
use tcp_lab.Util.NetParser.{NetParser, no_error, put_u8, put_u16, put_u32}
use tcp_lab.Wire.Ipv4Header
use tcp_lab.Util.NetParser.RoundTrip.{Shows}
use tcp_lab.Wire.Ipv4Header.{Ipv4Header, fixed_part, payload_length}
use tcp_lab.Wire.Ipv4Header.RoundTrip.{IsValid, serialize_ok, padding, parse_ok}
use tcp_lab.Wire.Ipv4Datagram.{Ipv4Datagram, parse, serialize}

-- A header with another checksum.
abbrev pub with_cksum : Ipv4Header → ℕ → Ipv4Header
with_cksum h c = record h { cksum = c }

with_cksum-IsValid : (h : Ipv4Header) (c : ℕ) → IsValid h → c < 2 ^ 16 → IsValid (with_cksum h c)
with_cksum-IsValid h c v k = record {
  ver_ok = v.ver_ok;
  hlen_min = v.hlen_min;
  hlen_max = v.hlen_max;
  tos_ok = v.tos_ok;
  len_ok = v.len_ok;
  id_ok = v.id_ok;
  offset_ok = v.offset_ok;
  ttl_ok = v.ttl_ok;
  proto_ok = v.proto_ok;
  cksum_ok = k;
  src_ok = v.src_ok;
  dst_ok = v.dst_ok;
}

-- The bytes of a header with this checksum.
abbrev text : Ipv4Header → ℕ → List ℕ
text h c = fixed_part (with_cksum h c) ++ padding h

words-fixed_part :
    (h : Ipv4Header) (c : ℕ)
    → c < 2 ^ 16
    → words false (fixed_part (with_cksum h c)) ≡ words false (fixed_part (with_cksum h 0)) + c
unfolding words fixed_part put_u8 put_u16 put_u32
words-fixed_part h c k = omega arith

flips-fixed_part : (h : Ipv4Header) → flips false (fixed_part h) ≡ false
unfolding flips fixed_part put_u8 put_u16 put_u32
flips-fixed_part h = refl

fixed_part-IsU8 : (h : Ipv4Header) → All IsU8 (fixed_part h)
unfolding fixed_part put_u8 put_u16 put_u32
fixed_part-IsU8 h = omega arith

-- Zeros add nothing, and the fixed part's words are few.
words-zeros : (n : ℕ) (p : Bool) → words p (replicate n 0) ≡ 0
unfolding words
words-zeros zero p = refl
words-zeros (suc n) true = omega (arith, words-zeros n false)
words-zeros (suc n) false = omega (arith, words-zeros n true)

words-fixed_part_small : (h : Ipv4Header) → words false (fixed_part h) < 2 ^ 20
unfolding words fixed_part put_u8 put_u16 put_u32
words-fixed_part_small h = omega arith

words-text :
    (h : Ipv4Header) (c : ℕ) → words false (text h c) ≡ words false (fixed_part (with_cksum h c))
words-text h c =
    words-append false (fixed_part (with_cksum h c)) (padding h)
    ∙ omega (arith, words-zeros (4 * h.hlen - 20) (flips false (fixed_part (with_cksum h c))))

text-IsU8 : (h : Ipv4Header) (c : ℕ) → All IsU8 (text h c)
text-IsU8 h c = All-append _ _ (fixed_part-IsU8 (with_cksum h c)) (All-zeros (4 * h.hlen - 20))

module _ (h : Ipv4Header) (v : IsValid h) where
  -- The checksum that `serialize` computes.
  abbrev pub cksum : ℕ
  cksum = InternetChecksum.value (InternetChecksum.add (InternetChecksum.new 0) (text h 0))

  pub cksum_small : cksum < 2 ^ 16
  cksum_small = value-lt _

  cksum_sum : cksum ≡ InternetChecksum.value (InternetChecksum.new (words false (text h 0)))
  cksum_sum =
      value-add 0 (text h 0) (text-IsU8 h 0)
        (omega (arith, words-text h 0, words-fixed_part_small (with_cksum h 0)))
      ∙ ap (λ k. InternetChecksum.value (InternetChecksum.new k)) (omega arith)

  cksum_closes :
      InternetChecksum.value (InternetChecksum.add (InternetChecksum.new 0) (text h cksum)) ≡ 0
  cksum_closes =
      value-add 0 (text h cksum) (text-IsU8 h cksum)
        (omega (arith, words-text h cksum, words-fixed_part_small (with_cksum h cksum)))
      ∙ ap (λ k. InternetChecksum.value (InternetChecksum.new k))
          (omega (
            arith,
            words-text h cksum,
            words-text h 0,
            words-fixed_part h cksum cksum_small,
            cksum_sum,
          ))
      ∙ value_closes (words false (text h 0))
          (omega (arith, words-text h 0, words-fixed_part_small (with_cksum h 0)))

module _ (d : Ipv4Datagram) (v : IsValid d.header)
    (len : d.header.len ≡ 4 * d.header.hlen + BufferList.size d.payload) where
  abbrev h : Ipv4Header
  h = with_cksum d.header (cksum d.header v)

  valid : IsValid h
  valid = with_cksum-IsValid d.header _ v (cksum_small d.header v)

  abbrev out : BufferList
  out =
      BufferList.append
        (BufferList.append [] (BufferList.of_string (text d.header (cksum d.header v)))) d.payload

  fits : not (BufferList.size d.payload == payload_length d.header) ≡ false
  unfolding payload_length
  fits = ground (arith, len, v.len_ok)

  serialize_out : serialize d ≡ ok out
  unfolding serialize
  serialize_out =
      rw
        (
          serialize_ok (with_cksum d.header 0) (with_cksum-IsValid d.header 0 v (omega arith)),
          serialize_ok h valid,
        )
        (if_false _ _ _ fits)

  concatenate-out :
      BufferList.concatenate out
      ≡ text d.header (cksum d.header v) ++ BufferList.concatenate d.payload
  unfolding BufferList.concatenate
  concatenate-out =
      concatenate-append
        (BufferList.append [] (BufferList.of_string (text d.header (cksum d.header v)))) d.payload
      ∙ ap (λ l. l ++ BufferList.concatenate d.payload)
          (concatenate-append [] (BufferList.of_string (text d.header (cksum d.header v)))
            ∙ concatenate-of_string (text d.header (cksum d.header v)))

  parse_step :
      (old : Ipv4Datagram) (b : Buffer) (q : NetParser)
      → Ipv4Header.parse old.header (NetParser.new b) ≡ ok ((h, no_error), q)
      → Shows q (BufferList.concatenate d.payload)
      → parse old b ≡ ok (record { header = h; payload = q.buffer ∷ [] }, no_error)
  unfolding parse payload_length BufferList.size Buffer.size
  parse_step old b q e shows =
      let full : length (Buffer.str q.buffer) ≡ BufferList.size d.payload =
        ap length shows.view ∙ sym (size_lem d.payload) in
      rw (e, parse)
        (ap (λ k. ok (record { header = h; payload = q.buffer ∷ [] }, k))
          (if_false (not (BufferList.size (q.buffer ∷ []) == payload_length h)) _ _
              (ground (arith, full, len, v.len_ok))
            ∙ shows.sound))

  reads_back :
      (old : Ipv4Datagram) (b : Buffer)
      → Buffer.str b ≡ text d.header (cksum d.header v) ++ BufferList.concatenate d.payload
      → (payload : Buffer) × (parse old b
          ≡ ok (record { header = h; payload = payload ∷ [] }, no_error))
        × (Buffer.str payload ≡ BufferList.concatenate d.payload)
  reads_back old b e =
      let (q, r, shows) =
        parse_ok h valid (BufferList.concatenate d.payload) (cksum_closes d.header v)
          (omega (arith, len, size_lem d.payload)) old.header (NetParser.new b)
          (record { view = e; sound = refl }) in
      (q.buffer, parse_step old b q r shows, shows.view)

-- For a header whose fields fit their types and whose length is that of the header and the
-- payload, `serialize` does not throw; `parse` of what it wrote, from any buffer and into any
-- datagram, returns the header, which now carries its checksum, and one buffer with the bytes of
-- the payload, without an error.
pub parse-serialize_datagram :
    (d : Ipv4Datagram)
    → IsValid d.header
    → d.header.len ≡ 4 * d.header.hlen + BufferList.size d.payload
    → (out : BufferList) × (c : ℕ) × (serialize d ≡ ok out)
      × ((old : Ipv4Datagram) (b : Buffer)
          → Buffer.str b ≡ BufferList.concatenate out
          → (payload : Buffer) × (parse old b
              ≡ ok (record { header = with_cksum d.header c; payload = payload ∷ [] }, no_error))
            × (Buffer.str payload ≡ BufferList.concatenate d.payload))
parse-serialize_datagram d v len = (
  out d v len,
  cksum d.header v,
  serialize_out d v len,
  λ old b e. reads_back d v len old b (e ∙ concatenate-out d v len),
)
