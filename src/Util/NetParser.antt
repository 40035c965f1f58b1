-- ===== src/Util/NetParser.antt =====
-- libsponge/util/parser.hh and parser.cc: reading and writing integers in network byte order.
-- A parse is a function of the `NetParser` that may throw and that returns the new `NetParser`.
-- `val >> k` is a division and `& 0xff` a remainder.
pub mod RoundTrip
pub mod Total
use tcp_lab.Base.{
  ℕ, zero, suc, ◌+◌, ◌*◌, ◌/◌, ◌%◌, ◌^◌, ◌≡◌, Bool, true, false, List, [], ◌∷◌, ◌++◌, ltb,
  if◌then◌else◌, Result, ok, throw, out_of_range,
}
use tcp_lab.Util.Buffer
use tcp_lab.Util.Buffer.{Buffer}

pub data ParseResult : Type 0 where
  no_error bad_checksum packet_too_short wrong_ip_version : ParseResult
  header_too_short truncated_packet unsupported : ParseResult

pub record NetParser : Type 0 where
  pub buffer : Buffer
  pub error : ParseResult

-- `NetParser(Buffer buffer)`
abbrev pub new : Buffer → NetParser
new b = record { buffer = b; error = no_error }

abbrev pub Parse : Type 0 → Type 0
Parse A = NetParser → Result (A × NetParser)

infixl 5 ◌>>=◌ ◌>>◌
abbrev pub ◌>>=◌ : {A B : Type 0} → Parse A → (A → Parse B) → Parse B
◌>>=◌ m f p = elim (m p) [ ok (a, q) ↦ f a q | throw e ↦ throw e ]

abbrev pub ◌>>◌ : {B : Type 0} → Parse (Unit {0}) → Parse B → Parse B
m >> k = m >>= λ _. k

abbrev pub return : {A : Type 0} → A → Parse A
return a p = ok (a, p)

-- `buffer()` and `get_error()`
abbrev pub get_buffer : Parse Buffer
get_buffer p = ok (p.buffer, p)

abbrev pub get_error : Parse ParseResult
get_error p = ok (p.error, p)

-- `r != ParseResult::NoError`
abbrev pub is_error : ParseResult → Bool
is_error no_error = false
is_error _ = true

-- `_check_size`
check_size : ℕ → NetParser → NetParser
check_size n p = if ltb (Buffer.size p.buffer) n then record p { error = packet_too_short } else p

-- The loop of `_parse_int` over an integer type of modulus `m`: `at` throws past the end.
digits_of : ℕ → ℕ → ℕ → List ℕ → Result ℕ
digits_of m ret zero bytes = ok ret
digits_of m ret (suc n) [] = throw out_of_range
digits_of m ret (suc n) (b ∷ bytes) = digits_of m ((ret * 2 ^ 8 % m + b) % m) n bytes

discard : ℕ → ℕ → NetParser → Result (ℕ × NetParser)
discard n ret p = elim (Buffer.remove_prefix p.buffer n) [
  | ok b ↦ ok (ret, record p { buffer = b })
  | throw e ↦ throw e
]

read_int : ℕ → NetParser → Result (ℕ × NetParser)
unfolding digits_of discard
read_int n p = elim (digits_of (2 ^ (8 * n)) 0 n (Buffer.str p.buffer)) [
  | ok ret ↦ discard n ret p
  | throw e ↦ throw e
]

-- `_parse_int<T>` for a type of `n` bytes.
unfoldable pub parse_int : ℕ → Parse ℕ
unfolding check_size read_int
parse_int n p = let q = check_size n p in if is_error q.error then ok (0, q) else read_int n q

unfoldable pub u32 : Parse ℕ
unfolding parse_int
u32 = parse_int 4

unfoldable pub u16 : Parse ℕ
unfolding parse_int
u16 = parse_int 2

unfoldable pub u8 : Parse ℕ
unfolding parse_int
u8 = parse_int 1

unfoldable pub remove_prefix : ℕ → Parse (Unit {0})
unfolding check_size
remove_prefix n p =
    let q = check_size n p in
    if is_error q.error then ok (tt, q) else elim (Buffer.remove_prefix q.buffer n) [
      | ok b ↦ ok (tt, record q { buffer = b })
      | throw e ↦ throw e
    ]

-- `_unparse_int<T>`: `n` is the number of bytes still to be written.
unfoldable pub unparse_int : List ℕ → ℕ → ℕ → List ℕ
unparse_int s zero val = s
unparse_int s (suc n) val = unparse_int (s ++ (val / 2 ^ (n * 8) % 256 ∷ [])) n val

unfoldable pub put_u32 : List ℕ → ℕ → List ℕ
unfolding unparse_int
put_u32 s val = unparse_int s 4 val

unfoldable pub put_u16 : List ℕ → ℕ → List ℕ
unfolding unparse_int
put_u16 s val = unparse_int s 2 val

unfoldable pub put_u8 : List ℕ → ℕ → List ℕ
unfolding unparse_int
put_u8 s val = unparse_int s 1 val
