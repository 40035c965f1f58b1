-- ===== src/Util/NetParser/Total.antt =====
-- No read throws: a read past the end only records its error.
use tcp_lab.Base.{
  ℕ, zero, suc, ◌+◌, ◌*◌, ◌%◌, ◌^◌, ◌≤◌, ◌≡◌, refl, Bool, true, false, List, [], ◌∷◌, arith, length,
  ltb, if◌then◌else◌, Bool-cases, inl, inr, ltb→le, ok,
}
use tcp_lab.Util.Buffer
use tcp_lab.Util.Buffer.{Buffer}
use tcp_lab.Util.NetParser.{
  NetParser, Parse, packet_too_short, is_error, ◌>>=◌, return, check_size, parse_int, read_int,
  discard, digits_of, u8, u16, u32, remove_prefix, get_buffer, get_error,
}

-- On every state the parser returns a value and a new state.
abbrev pub NeverThrows : {A : Type 0} → Parse A → Type 0
NeverThrows {A} m = (p : NetParser) → (r : A × NetParser) × (m p ≡ ok r)

pub >>=-NeverThrows :
    {A B : Type 0} (m : Parse A) (f : A → Parse B)
    → NeverThrows m
    → ((a : A) → NeverThrows (f a))
    → NeverThrows (m >>= f)
>>=-NeverThrows m f hm hf p = let (r, e) = hm p in let (s, e') = hf r.0 r.1 in (s, rw (e, ◌>>=◌) e')

pub return-NeverThrows : {A : Type 0} (a : A) → NeverThrows (return a)
return-NeverThrows a p = ((a, p), refl)

pub if-NeverThrows :
    {A : Type 0} (b : Bool) (m n : Parse A)
    → NeverThrows m
    → NeverThrows n
    → NeverThrows (if b then m else n)
if-NeverThrows true m n hm hn = hm
if-NeverThrows false m n hm hn = hn

digits_of_total :
    (m ret n : ℕ) (bytes : List ℕ) → n ≤ length bytes → (v : ℕ) × (digits_of m ret n bytes ≡ ok v)
unfolding digits_of
digits_of_total m ret zero bytes h = (ret, refl)
digits_of_total m ret (suc n) [] h = absurd (omega arith)
digits_of_total m ret (suc n) (b ∷ bytes) h =
    digits_of_total m ((ret * 2 ^ 8 % m + b) % m) n bytes (omega arith)

read_int_total :
    (n : ℕ) (p : NetParser) → n ≤ Buffer.size p.buffer → (r : ℕ × NetParser) × (read_int n p ≡ ok r)
unfolding read_int Buffer.size
read_int_total n p h =
    let (v, e) = digits_of_total (2 ^ (8 * n)) 0 n (Buffer.str p.buffer) h in
    let (b, e', _) = Buffer.remove_prefix_ok p.buffer n h in
    ((v, record p { buffer = b }), rw (e, e', read_int, discard))

module _ (n : ℕ) (p : NetParser) where
  parse_int_total : (r : ℕ × NetParser) × (parse_int n p ≡ ok r)
  unfolding parse_int check_size
  parse_int_total = elim (Bool-cases (ltb (Buffer.size p.buffer) n)) [
    | inl short ↦ ((0, record p { error = packet_too_short }), ground arith)
    | inr enough ↦ elim (Bool-cases (is_error p.error)) [
      | inl bad ↦ ((0, p), ground arith)
      | inr good ↦ let (r, e) = read_int_total n p (ltb→le _ _ enough) in (r, ground (arith, e))
    ]
  ]

  remove_prefix_total : (r : Unit {0} × NetParser) × (remove_prefix n p ≡ ok r)
  unfolding remove_prefix check_size Buffer.size
  remove_prefix_total = elim (Bool-cases (ltb (Buffer.size p.buffer) n)) [
    | inl short ↦ ((tt, record p { error = packet_too_short }), ground arith)
    | inr enough ↦ elim (Bool-cases (is_error p.error)) [
      | inl bad ↦ ((tt, p), ground arith)
      | inr good ↦
          let (b, e, _) = Buffer.remove_prefix_ok p.buffer n (ltb→le _ _ enough) in
          ((tt, record p { buffer = b }), ground (arith, e))
    ]
  ]

pub u8-NeverThrows : NeverThrows u8
unfolding u8
u8-NeverThrows p = parse_int_total 1 p

pub u16-NeverThrows : NeverThrows u16
unfolding u16
u16-NeverThrows p = parse_int_total 2 p

pub u32-NeverThrows : NeverThrows u32
unfolding u32
u32-NeverThrows p = parse_int_total 4 p

pub remove_prefix-NeverThrows : (n : ℕ) → NeverThrows (remove_prefix n)
remove_prefix-NeverThrows n p = remove_prefix_total n p

pub get_error-NeverThrows : NeverThrows get_error
get_error-NeverThrows p = ((p.error, p), refl)

pub get_buffer-NeverThrows : NeverThrows get_buffer
get_buffer-NeverThrows p = ((p.buffer, p), refl)
