-- ===== src/Util/NetParser/RoundTrip.antt =====
-- Reading back what was written, and how many bytes a read takes.
use tcp_lab.Base.{
  ℕ, zero, suc, ◌*◌, ◌/◌, ◌%◌, ◌^◌, ◌≤◌, ◌<◌, ◌≡◌, sym, ◌∙◌, ap, List, [], ◌∷◌, ◌++◌, append_assoc,
  append-nil, arith, length, drop, ok,
}
use tcp_lab.Util.Buffer
use tcp_lab.Util.Buffer.{Buffer}
use tcp_lab.Util.NetParser.{
  NetParser, no_error, check_size, parse_int, read_int, discard, digits_of, u8, u16, u32,
  remove_prefix, put_u8, put_u16, put_u32, unparse_int,
}

-- The parser has met no error, and has these bytes before it.
pub record Shows (p : NetParser) (bytes : List ℕ) : Type 0 where
  pub view : Buffer.str p.buffer ≡ bytes
  pub sound : p.error ≡ no_error

module _ (p : NetParser) (n : ℕ) (fits : n ≤ length (Buffer.str p.buffer))
    (sound : p.error ≡ no_error) where
  check_size_ok : check_size n p ≡ p
  unfolding check_size Buffer.size
  check_size_ok = ground arith

  discard_ok :
      (ret : ℕ)
      → (q : NetParser) × (discard n ret p ≡ ok (ret, q)) × Shows q (drop n (Buffer.str p.buffer))
  unfolding discard Buffer.size
  discard_ok ret =
      let (b, e, v) = Buffer.remove_prefix_ok p.buffer n fits in
      (record p { buffer = b }, rw (e, discard), record { view = v; sound = sound })

  pub remove_prefix_ok :
      (q : NetParser) × (remove_prefix n p ≡ ok (tt, q)) × Shows q (drop n (Buffer.str p.buffer))
  unfolding remove_prefix Buffer.size
  remove_prefix_ok =
      let (b, e, v) = Buffer.remove_prefix_ok p.buffer n fits in
      (
        record p { buffer = b },
        ground (arith, check_size_ok, e, sound),
        record { view = v; sound = sound },
      )

  parse_int_ok :
      (v : ℕ)
      → digits_of (2 ^ (8 * n)) 0 n (Buffer.str p.buffer) ≡ ok v
      → (q : NetParser) × (parse_int n p ≡ ok (v, q)) × Shows q (drop n (Buffer.str p.buffer))
  unfolding parse_int read_int
  parse_int_ok v d =
      let (q, e, s) = discard_ok v in (q, ground (arith, check_size_ok, sound, d, e), s)

module _ (p : NetParser) (v : ℕ) (rest : List ℕ) where
  pub u8_reads :
      v < 2 ^ 8
      → Shows p (put_u8 [] v ++ rest)
      → (q : NetParser) × (u8 p ≡ ok (v, q)) × Shows q rest
  unfolding u8 put_u8
  u8_reads h s =
      let (q, e, t) =
        parse_int_ok p 1 (rw s.view (omega arith)) s.sound v
          (rw s.view (unfold digits_of in ap ok (omega arith))) in
      (q, e, record { view = t.view ∙ ap (drop 1) s.view; sound = t.sound })

  pub u16_reads :
      v < 2 ^ 16
      → Shows p (put_u16 [] v ++ rest)
      → (q : NetParser) × (u16 p ≡ ok (v, q)) × Shows q rest
  unfolding u16 put_u16
  u16_reads h s =
      let (q, e, t) =
        parse_int_ok p 2 (rw s.view (omega arith)) s.sound v
          (rw s.view (unfold digits_of in ap ok (omega arith))) in
      (q, e, record { view = t.view ∙ ap (drop 2) s.view; sound = t.sound })

  pub u32_reads :
      v < 2 ^ 32
      → Shows p (put_u32 [] v ++ rest)
      → (q : NetParser) × (u32 p ≡ ok (v, q)) × Shows q rest
  unfolding u32 put_u32
  u32_reads h s =
      let (q, e, t) =
        parse_int_ok p 4 (rw s.view (omega arith)) s.sound v
          (rw s.view (unfold digits_of in ap ok (omega arith))) in
      (q, e, record { view = t.view ∙ ap (drop 4) s.view; sound = t.sound })

pub unparse_int-append : (s : List ℕ) (n v : ℕ) → unparse_int s n v ≡ s ++ unparse_int [] n v
unfolding unparse_int
unparse_int-append s zero v = sym (append-nil s)
unparse_int-append s (suc n) v =
    let d : List ℕ = v / 2 ^ (n * 8) % 256 ∷ [] in
    unparse_int-append (s ++ d) n v
    ∙ append_assoc s d (unparse_int [] n v)
    ∙ ap (λ k. s ++ k) (sym (unparse_int-append d n v))
