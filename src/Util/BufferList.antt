-- ===== src/Util/BufferList.antt =====
-- libsponge/util/buffer.hh and buffer.cc: `BufferList`, a queue of buffers read as one string.
pub mod View
use tcp_lab.Base.{
  ℕ, ◌+◌, ◌-◌, ◌≤◌, ◌<◌, ◌≡◌, refl, sym, ◌∙◌, ap, Bool, true, false, ◌⊎◌, inl, inr, List, [], ◌∷◌,
  ◌++◌, append_assoc, arith, ltb, ◌==◌, if◌then◌else◌, Bool-cases, length, drop, length-append,
  length-drop, drop-append_left, drop-append_right, Result, ok, throw, ◌>>=◌, out_of_range,
  runtime_error,
}
use tcp_lab.Util.Buffer
use tcp_lab.Util.Buffer.{Buffer}

abbrev pub BufferList : Type 0
BufferList = List Buffer

-- `BufferList(std::string &&str)`
abbrev pub of_string : List ℕ → BufferList
of_string s = Buffer.of_string s ∷ []

unfoldable pub append : BufferList → BufferList → BufferList
append bs other = bs ++ other

unfoldable pub concatenate : BufferList → List ℕ
concatenate [] = []
concatenate (b ∷ bs) = Buffer.str b ++ concatenate bs

unfoldable pub size : BufferList → ℕ
size [] = 0
size (b ∷ bs) = Buffer.size b + size bs

-- `while (n > 0)`; an empty list before `n` bytes are gone throws.
unfoldable pub remove_prefix : BufferList → ℕ → Result BufferList
remove_prefix [] n = if n == 0 then ok [] else throw out_of_range
remove_prefix (b ∷ bs) n =
    let rest = remove_prefix bs (n - Buffer.size b) in
    if n == 0
    then ok (b ∷ bs)
    else if ltb n (Buffer.size b)
    then Buffer.remove_prefix b n >>= (λ b'. ok (b' ∷ bs))
    else rest

-- `operator Buffer()`
unfoldable pub to_buffer : BufferList → Result Buffer
to_buffer [] = ok Buffer.empty
to_buffer (b ∷ []) = ok b
to_buffer (b ∷ c ∷ bs) = throw runtime_error
