-- ===== src/Util/Buffer.antt =====
-- libsponge/util/buffer.hh and buffer.cc: `Buffer`, a string that discards bytes from its front.
-- `_storage` is a `shared_ptr` to a string that nothing writes to after its construction, so the
-- model has a value for it, `none` for the null pointer. A string is the list of its bytes.
use tcp_lab.Base.{
  ℕ, ◌+◌, ◌≤◌, ◌<◌, ◌≡◌, refl, sym, ◌∙◌, Option, none, some, List, [], arith, ltb, ◌==◌,
  if◌then◌else◌, length, drop, drop-drop, drop-nil, drop_all, Result, ok, throw, out_of_range,
}

pub record Buffer : Type 0 where
  pub storage : Option (List ℕ)
  pub starting_offset : ℕ

abbrev pub empty : Buffer
empty = record { storage = none; starting_offset = 0 }

-- `Buffer(std::string &&str)`
abbrev pub of_string : List ℕ → Buffer
of_string s = record { storage = some s; starting_offset = 0 }

view : Option (List ℕ) → ℕ → List ℕ
view none n = []
view (some s) n = drop n s

-- `str()`, and `copy()`
unfoldable pub str : Buffer → List ℕ
unfolding view
str b = view b.storage b.starting_offset

unfoldable pub size : Buffer → ℕ
unfolding str
size b = length (str b)

-- `_storage and _starting_offset == _storage->size()`: reset the pointer once all is discarded.
release : Option (List ℕ) → ℕ → Option (List ℕ)
release none n = none
release (some s) n = if n == length s then none else some s

unfoldable pub remove_prefix : Buffer → ℕ → Result Buffer
unfolding size release
remove_prefix b n =
    if ltb (size b) n
    then throw out_of_range
    else let offset = b.starting_offset + n in
      ok (record { storage = release b.storage offset; starting_offset = offset })

view-release : (s : Option (List ℕ)) (n : ℕ) → view (release s n) n ≡ view s n
unfolding view release
view-release none n = refl
view-release (some s) n = ground (arith, drop_all n s)

view-drop : (s : Option (List ℕ)) (m n : ℕ) → view s (n + m) ≡ drop m (view s n)
unfolding view
view-drop none m n = sym (drop-nil m)
view-drop (some s) m n = sym (drop-drop m n s)

-- A prefix that fits is dropped from the view; a longer one throws.
pub remove_prefix_ok :
    (b : Buffer) (n : ℕ)
    → n ≤ size b
    → (b' : Buffer) × (remove_prefix b n ≡ ok b') × (str b' ≡ drop n (str b))
unfolding remove_prefix str
remove_prefix_ok b n h = (
  record {
    storage = release b.storage (b.starting_offset + n);
    starting_offset = b.starting_offset + n;
  },
  ground arith,
  view-release b.storage (b.starting_offset + n) ∙ view-drop b.storage n b.starting_offset,
)

pub remove_prefix_throws :
    (b : Buffer) (n : ℕ) → size b < n → remove_prefix b n ≡ throw out_of_range
unfolding remove_prefix
remove_prefix_throws b n h = ground arith
