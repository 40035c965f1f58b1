-- ===== src/Wire/TcpSegment/RoundTrip.antt =====
-- Parsing a serialized TCP segment (libsponge/tcp_helpers/tcp_segment.cc) gives it back, with its
-- checksum.
use tcp_lab.Base.{
  ℕ, ◌+◌, ◌-◌, ◌*◌, ◌^◌, ◌<◌, ◌≡◌, refl, sym, ◌∙◌, ap, false, not, ◌==◌, if_false, List, [], ◌∷◌,
  ◌++◌, append-nil, append_assoc, arith, All, length, length-append, ok, IsU8,
}
use tcp_lab.Util.Buffer
use tcp_lab.Util.Buffer.{Buffer}
use tcp_lab.Util.BufferList
use tcp_lab.Util.BufferList.{BufferList}
use tcp_lab.Util.InternetChecksum
use tcp_lab.Util.InternetChecksum.Laws.{
  words, flips, words-append, All-append, All-zeros, add-append, value-add, value_closes, value-lt,
}
use tcp_lab.Util.NetParser
use tcp_lab.Util.NetParser.{NetParser, no_error, put_u8, put_u16, put_u32}
use tcp_lab.Wire.TcpHeader.{TcpHeader, fixed_part}
use tcp_lab.Wire.TcpHeader.RoundTrip.{
  IsValid, serialize_ok, padding, parse-serialize, length-fixed_part, length-padding,
}
use tcp_lab.Util.BufferList.View.{size_lem}
use tcp_lab.Wire.TcpSegment.{TcpSegment, parse, serialize}

-- A header with another checksum.
abbrev pub with_cksum : TcpHeader → ℕ → TcpHeader
with_cksum h c = record h { cksum = c }

with_cksum-IsValid : (h : TcpHeader) (c : ℕ) → IsValid h → c < 2 ^ 16 → IsValid (with_cksum h c)
with_cksum-IsValid h c v k = record {
  sport_ok = v.sport_ok;
  dport_ok = v.dport_ok;
  seqno_ok = v.seqno_ok;
  ackno_ok = v.ackno_ok;
  win_ok = v.win_ok;
  cksum_ok = k;
  uptr_ok = v.uptr_ok;
  doff_min = v.doff_min;
  doff_max = v.doff_max;
}

-- The bytes of a segment whose header has this checksum.
abbrev pub text : TcpSegment → ℕ → List ℕ
text s c = (fixed_part (with_cksum s.header c) ++ padding s.header) ++ Buffer.str s.payload

words-fixed_part :
    (h : TcpHeader) (c : ℕ)
    → c < 2 ^ 16
    → words false (fixed_part (with_cksum h c)) ≡ words false (fixed_part (with_cksum h 0)) + c
unfolding words fixed_part put_u8 put_u16 put_u32
words-fixed_part h c k = omega arith

flips-fixed_part : (h : TcpHeader) → flips false (fixed_part h) ≡ false
unfolding flips fixed_part put_u8 put_u16 put_u32
flips-fixed_part h = refl

fixed_part-IsU8 : (h : TcpHeader) → All IsU8 (fixed_part h)
unfolding fixed_part put_u8 put_u16 put_u32
fixed_part-IsU8 h = omega arith

pub length-text :
    (s : TcpSegment) (c : ℕ)
    → IsValid s.header
    → length (text s c) ≡ 4 * s.header.doff + length (Buffer.str s.payload)
length-text s c v =
    let h = with_cksum s.header c in
    omega (
      arith,
      length-append (fixed_part h ++ padding s.header) (Buffer.str s.payload),
      length-append (fixed_part h) (padding s.header),
      length-fixed_part h,
      length-padding s.header,
      v.doff_min,
    )

module _ (s : TcpSegment) (bytes_ok : All IsU8 (Buffer.str s.payload)) where
  abbrev tail : List ℕ
  tail = padding s.header ++ Buffer.str s.payload

  split_words :
      (c : ℕ)
      → words false (text s c) ≡ words false (fixed_part (with_cksum s.header c)) + words false tail
  split_words c =
      let f = fixed_part (with_cksum s.header c) in
      ap (words false) (append_assoc f (padding s.header) (Buffer.str s.payload))
      ∙ words-append false f tail
      ∙ ap (λ p. words false f + words p tail) (flips-fixed_part (with_cksum s.header c))

  -- Setting the checksum adds it to the sum.
  words-text : (c : ℕ) → c < 2 ^ 16 → words false (text s c) ≡ words false (text s 0) + c
  words-text c k = omega (arith, split_words c, split_words 0, words-fixed_part s.header c k)

  pub text-IsU8 : (c : ℕ) → All IsU8 (text s c)
  text-IsU8 c =
      All-append _ _
        (All-append _ _ (fixed_part-IsU8 (with_cksum s.header c))
          (All-zeros (4 * s.header.doff - 20)))
        bytes_ok

module _ (s : TcpSegment) (datagram_cksum : ℕ) (v : IsValid s.header)
    (bytes_ok : All IsU8 (Buffer.str s.payload))
    (fits : datagram_cksum + words false (text s 0) + 0xffff < 2 ^ 32) where
  -- The checksum that `serialize` computes.
  abbrev cksum : ℕ
  cksum = InternetChecksum.value (InternetChecksum.new (datagram_cksum + words false (text s 0)))

  cksum_small : cksum < 2 ^ 16
  cksum_small = value-lt _

  abbrev out : BufferList
  out =
      BufferList.of_string (fixed_part (with_cksum s.header cksum) ++ padding s.header)
      ++ (s.payload ∷ [])

  cksum_computed :
      InternetChecksum.value (
        InternetChecksum.add
          (InternetChecksum.add
            (InternetChecksum.new datagram_cksum)
            (fixed_part (with_cksum s.header 0) ++ padding s.header))
          (Buffer.str s.payload))
      ≡ cksum
  cksum_computed =
      ap InternetChecksum.value (sym (add-append _ _ (Buffer.str s.payload)))
      ∙ value-add datagram_cksum (text s 0) (text-IsU8 s bytes_ok 0) (omega (arith, fits))

  cksum_closes :
      InternetChecksum.value
        (InternetChecksum.add (InternetChecksum.new datagram_cksum) (text s cksum))
      ≡ 0
  cksum_closes =
      value-add datagram_cksum (text s cksum) (text-IsU8 s bytes_ok cksum)
        (omega (arith, fits, words-text s bytes_ok cksum cksum_small, cksum_small))
      ∙ ap (λ k. InternetChecksum.value (InternetChecksum.new k))
          (omega (arith, words-text s bytes_ok cksum cksum_small))
      ∙ value_closes (datagram_cksum + words false (text s 0)) fits

  serialize_out : serialize s datagram_cksum ≡ ok out
  unfolding serialize BufferList.append
  serialize_out =
      rw
        (
          serialize_ok (with_cksum s.header 0) (with_cksum-IsValid s.header 0 v (omega arith)),
          cksum_computed,
          serialize_ok (with_cksum s.header cksum)
              (with_cksum-IsValid s.header cksum v cksum_small),
        )
        refl

  concatenate-out : BufferList.concatenate out ≡ text s cksum
  unfolding BufferList.concatenate Buffer.str
  concatenate-out =
      ap (λ k. (fixed_part (with_cksum s.header cksum) ++ padding s.header) ++ k)
        (append-nil (Buffer.str s.payload))

  reads_back :
      (old : TcpSegment) (b : Buffer)
      → Buffer.str b ≡ text s cksum
      → (s' : TcpSegment) × (parse old b datagram_cksum ≡ ok (s', no_error))
        × (s'.header ≡ with_cksum s.header cksum)
        × (Buffer.str s'.payload ≡ Buffer.str s.payload)
  unfolding parse
  reads_back old b e =
      let h = with_cksum s.header cksum in
      let valid = with_cksum-IsValid s.header cksum v cksum_small in
      let (bytes, k, read) = parse-serialize h (Buffer.str s.payload) valid in
      let same : bytes ≡ fixed_part h ++ padding h = cc (k, serialize_ok h valid) in
      let (q, r, shows) =
        read (NetParser.new b)
          (record { view = e ∙ ap (λ l. l ++ Buffer.str s.payload) (sym same); sound = refl }) in
      let good : not (
            InternetChecksum.value
              (InternetChecksum.add (InternetChecksum.new datagram_cksum) (Buffer.str b))
            == 0)
          ≡ false =
        rw (e, cksum_closes) refl in
      (
        record { header = h; payload = q.buffer },
        if_false _ _ _ good ∙ rw (r, shows.sound) refl,
        refl,
        shows.view,
      )

  size-out : BufferList.size out ≡ 4 * s.header.doff + length (Buffer.str s.payload)
  size-out = size_lem out ∙ ap length concatenate-out ∙ length-text s cksum v

-- For a header whose fields fit their types and whose length is 5 to 15 words, a payload of
-- bytes, and a sum of the segment and the datagram's part that stays below 2 ^ 32 - 65535,
-- `serialize` does not throw, and writes as many bytes as the header says and the payload has;
-- `parse` of what it wrote, from any buffer and into any segment, accepts the checksum and returns
-- the header, which now carries that checksum, and the payload, without an error.
pub parse-serialize_checked :
    (s : TcpSegment) (datagram_cksum : ℕ)
    → IsValid s.header
    → All IsU8 (Buffer.str s.payload)
    → datagram_cksum + words false (text s 0) + 0xffff < 2 ^ 32
    → (out : BufferList) × (c : ℕ) × (serialize s datagram_cksum ≡ ok out)
      × (BufferList.size out ≡ 4 * s.header.doff + length (Buffer.str s.payload))
      × ((old : TcpSegment) (b : Buffer)
          → Buffer.str b ≡ BufferList.concatenate out
          → (s' : TcpSegment) × (parse old b datagram_cksum ≡ ok (s', no_error))
            × (s'.header ≡ with_cksum s.header c)
            × (Buffer.str s'.payload ≡ Buffer.str s.payload))
parse-serialize_checked s k v b f = (
  out s k v b f,
  cksum s k v b f,
  serialize_out s k v b f,
  size-out s k v b f,
  λ old buf e. reads_back s k v b f old buf (e ∙ concatenate-out s k v b f),
)
