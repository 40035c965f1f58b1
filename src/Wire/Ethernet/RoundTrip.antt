-- ===== src/Wire/Ethernet/RoundTrip.antt =====
-- Parsing a serialized Ethernet frame (libsponge/tcp_helpers/ethernet_header.cc and
-- ethernet_frame.cc) gives it back.
use tcp_lab.Base.{
  ℕ, ◌+◌, ◌≤◌, ◌≡◌, refl, sym, ◌∙◌, ap, List, [], ◌∷◌, ◌++◌, append-nil, append_assoc, arith,
  length, length-append, All, ok, IsU8, IsU16,
}
use tcp_lab.Util.Buffer
use tcp_lab.Util.Buffer.{Buffer}
use tcp_lab.Util.BufferList
use tcp_lab.Util.BufferList.{BufferList}
use tcp_lab.Util.BufferList.View.{concatenate-append, concatenate-of_string}
use tcp_lab.Util.NetParser
use tcp_lab.Util.NetParser.{NetParser, ParseResult, no_error, u8, u16, put_u8, put_u16}
use tcp_lab.Util.NetParser.RoundTrip.{Shows, u8_reads, u16_reads, unparse_int-append}
use tcp_lab.Wire.Ethernet.{
  EthernetAddress, EthernetHeader, EthernetFrame, header_length, read_bytes, write_bytes, fields,
  parse_header, serialize_header, parse_frame, serialize_frame,
}

-- Six bytes.
pub record IsAddress (a : EthernetAddress) : Type 0 where
  pub six : length a ≡ 6
  pub bytes_ok : All IsU8 a

-- The fields fit their types.
pub record IsValid (h : EthernetHeader) : Type 0 where
  pub dst_ok : IsAddress h.dst
  pub src_ok : IsAddress h.src
  pub type_ok : IsU16 h.type

pub write_bytes_lem : (s bs : List ℕ) → All IsU8 bs → write_bytes s bs ≡ s ++ bs
unfolding write_bytes put_u8
write_bytes_lem s [] b = sym (append-nil s)
write_bytes_lem s (x ∷ bs) b =
    write_bytes_lem (put_u8 s x) bs b.1
    ∙ append_assoc s (put_u8 [] x) bs
    ∙ ap (λ k. s ++ (k ∷ bs)) (omega (arith, b.0))

read_bytes_lem :
    (p : NetParser) (bs rest : List ℕ)
    → All IsU8 bs
    → Shows p (bs ++ rest)
    → (q : NetParser) × (read_bytes (length bs) p ≡ ok (bs, q)) × Shows q rest
unfolding read_bytes put_u8
read_bytes_lem p [] rest b s = (p, refl, s)
read_bytes_lem p (x ∷ bs) rest b s =
    let (q, e, t) = u8_reads p x (bs ++ rest) (omega (arith, b.0)) (record {
      view = s.view ∙ ap (λ k. k ∷ (bs ++ rest)) (omega (arith, b.0));
      sound = s.sound;
    }) in
    let (r, f, u) = read_bytes_lem q bs rest b.1 t in (r, ground (arith, e, f), u)

pub address_reads :
    (p : NetParser) (a rest : List ℕ)
    → IsAddress a
    → Shows p (a ++ rest)
    → (q : NetParser) × (read_bytes 6 p ≡ ok (a, q)) × Shows q rest
address_reads p a rest v s =
    let (q, e, t) = read_bytes_lem p a rest v.bytes_ok s in
    (q, ap (λ n. read_bytes n p) (sym v.six) ∙ e, t)

length-put_u16 : (n : ℕ) → length (put_u16 [] n) ≡ 2
unfolding put_u16
length-put_u16 n = refl

module _ (h : EthernetHeader) (v : IsValid h) (rest : List ℕ) where
  serialize_header_lem :
      serialize_header h ++ rest ≡ h.dst ++ (h.src ++ (put_u16 [] h.type ++ rest))
  unfolding serialize_header put_u16
  serialize_header_lem =
      rw
        (
          write_bytes_lem [] h.dst v.dst_ok.bytes_ok,
          write_bytes_lem h.dst h.src v.src_ok.bytes_ok,
          unparse_int-append (h.dst ++ h.src) 2 h.type,
        )
        (append_assoc (h.dst ++ h.src) (put_u16 [] h.type) rest
          ∙ append_assoc h.dst h.src (put_u16 [] h.type ++ rest))

  fields_read :
      (p : NetParser)
      → Shows p (h.dst ++ (h.src ++ (put_u16 [] h.type ++ rest)))
      → (q : NetParser) × (fields p ≡ ok ((h, no_error), q)) × Shows q rest
  unfolding fields
  fields_read p s =
      let (p1, e1, s1) = address_reads p h.dst _ v.dst_ok s in
      let (p2, e2, s2) = address_reads p1 h.src _ v.src_ok s1 in
      let (q, e3, s3) = u16_reads p2 h.type rest v.type_ok s2 in
      (q, ground (arith, e1, e2, e3, s3.sound), s3)

  length-serialize_header : length (serialize_header h ++ rest) ≡ header_length + length rest
  length-serialize_header =
      ap length serialize_header_lem
      ∙ omega (
        arith,
        length-append h.dst (h.src ++ (put_u16 [] h.type ++ rest)),
        length-append h.src (put_u16 [] h.type ++ rest),
        length-append (put_u16 [] h.type) rest,
        v.dst_ok.six,
        v.src_ok.six,
        length-put_u16 h.type,
      )

  parse_step :
      (old : EthernetHeader) (p q : NetParser)
      → header_length ≤ length (Buffer.str p.buffer)
      → fields p ≡ ok ((h, no_error), q)
      → parse_header old p ≡ ok ((h, no_error), q)
  unfolding parse_header Buffer.size
  parse_step old p q k e = ground (arith, e)

  pub header_reads :
      (old : EthernetHeader) (p : NetParser)
      → Shows p (serialize_header h ++ rest)
      → (q : NetParser) × (parse_header old p ≡ ok ((h, no_error), q)) × Shows q rest
  header_reads old p s =
      let (q, e, t) =
        fields_read p (record { view = s.view ∙ serialize_header_lem; sound = s.sound }) in
      (q, parse_step old p q (omega (arith, ap length s.view, length-serialize_header)) e, t)

concatenate-serialize_frame :
    (f : EthernetFrame)
    → BufferList.concatenate (serialize_frame f)
      ≡ serialize_header f.header ++ BufferList.concatenate f.payload
unfolding serialize_frame
concatenate-serialize_frame f =
    concatenate-append (BufferList.append [] (BufferList.of_string (serialize_header f.header)))
      f.payload
    ∙ ap (λ l. l ++ BufferList.concatenate f.payload)
        (concatenate-append [] (BufferList.of_string (serialize_header f.header))
          ∙ unfold BufferList.concatenate in concatenate-of_string (serialize_header f.header))

-- For a frame whose addresses have six bytes and whose type fits 16 bits, `parse` of what
-- `serialize` wrote, from any buffer and into any frame, does not throw, and returns the header and
-- one buffer with the bytes of the payload, without an error.
pub parse_frame-serialize_frame :
    (f old : EthernetFrame) (b : Buffer)
    → IsValid f.header
    → Buffer.str b ≡ BufferList.concatenate (serialize_frame f)
    → (payload : Buffer) × (parse_frame old b
        ≡ ok (record { header = f.header; payload = payload ∷ [] }, no_error))
      × (Buffer.str payload ≡ BufferList.concatenate f.payload)
unfolding parse_frame
parse_frame-serialize_frame f old b v e =
    let (q, r, s) =
      header_reads f.header v (BufferList.concatenate f.payload) old.header (NetParser.new b)
        (record { view = e ∙ concatenate-serialize_frame f; sound = refl }) in
    (q.buffer, rw (r, s.sound, parse_frame) refl, s.view)
