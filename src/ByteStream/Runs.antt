-- ===== src/ByteStream/Runs.antt =====
-- Sequences of calls on a `ByteStream`: what goes in comes out, in order.
use tcp_lab.Base.{
  ℕ, ◌+◌, ◌≤◌, ◌≡◌, refl, sym, ◌∙◌, ap, List, [], ◌∷◌, ◌++◌, append_assoc, arith, length, take,
  length-take, length-append, Result, ok, ◌>>=◌, IsU64,
}
use tcp_lab.ByteStream.{ByteStream, new, write, read, end_input, bytes_written, bytes_read}
use tcp_lab.Util.BufferList
use tcp_lab.ByteStream.Laws.{contents, IsValid, write_lem, read_lem}

-- A client's calls.
pub data Call : Type 0 where
  put : List ℕ → Call
  get : ℕ → Call
  close : Call

-- The bytes that `read` returned, the bytes that `write` accepted, and the stream.
pub record Trace : Type 0 where
  pub out : List ℕ
  pub inn : List ℕ
  pub stream : ByteStream

abbrev step : Trace → Call → Result Trace
step t (put bytes) =
    let r = write t.stream bytes in
    ok (record { out = t.out; inn = t.inn ++ take r.1 bytes; stream = r.0 })
step t (get n) = do
  (bytes, s) ← read t.stream n
  ok (record { out = t.out ++ bytes; inn = t.inn; stream = s })
step t close = ok (record t { stream = end_input t.stream })

unfoldable pub run : Trace → List Call → Result Trace
run t [] = ok t
run t (c ∷ cs) = step t c >>= λ u. run u cs

abbrev pub started : ℕ → Trace
started cap = record { out = []; inn = []; stream = new cap }

-- How many bytes the calls offer.
abbrev pub offer : Call → ℕ
offer (put bytes) = length bytes
offer (get n) = 0
offer close = 0

abbrev pub offered : List Call → ℕ
offered [] = 0
offered (c ∷ cs) = offer c + offered cs

-- What went in is what came out and what waits; the counters count both.
pub record IsFifo (cap : ℕ) (t : Trace) : Type 0 where
  pub in_order : t.inn ≡ t.out ++ contents t.stream
  pub written : t.stream.write_count ≡ length t.inn
  pub was_read : t.stream.read_count ≡ length t.out
  pub room : t.stream.capacity ≡ cap
  pub valid : IsValid t.stream

step_lem :
    (cap : ℕ) (t : Trace) (c : Call)
    → IsFifo cap t
    → IsU64 (t.stream.write_count + offer c)
    → (u : Trace) × (step t c ≡ ok u)
      × IsFifo cap u
      × (u.stream.write_count ≤ t.stream.write_count + offer c)
step_lem cap t (put bytes) f b =
    let r = write t.stream bytes in
    let (n, c, w, v) = write_lem t.stream bytes f.valid b in
    (
      record { out = t.out; inn = t.inn ++ take r.1 bytes; stream = r.0 },
      refl,
      record {
        in_order = rw (c, f.in_order) (append_assoc t.out (contents t.stream) (take r.1 bytes));
        written =
            w
            ∙ omega
                (arith, f.written, n, length-append t.inn (take r.1 bytes), length-take r.1 bytes);
        was_read = unfold write in f.was_read;
        room = unfold write in f.room;
        valid = v;
      },
      omega (arith, n, w),
    )
step_lem cap t (get n) f b =
    let (s, e, c, r, w, k, v, _) = read_lem t.stream n f.valid in
    let got = take n (contents t.stream) in
    (
      record { out = t.out ++ got; inn = t.inn; stream = s },
      rw e,
      record {
        in_order = f.in_order ∙ ap (λ k. t.out ++ k) c ∙ sym (append_assoc t.out got (contents s));
        written = w ∙ f.written;
        was_read = omega (arith, r, f.was_read, length-append t.out got);
        room = k ∙ f.room;
        valid = v;
      },
      omega (arith, w),
    )
step_lem cap t close f b = (
  record t { stream = end_input t.stream },
  refl,
  unfold end_input in
      (record {
        in_order = f.in_order;
        written = f.written;
        was_read = f.was_read;
        room = f.room;
        valid = record {
          fits = f.valid.fits;
          counted = f.valid.counted;
          bounded = f.valid.bounded;
          capacity_bounded = f.valid.capacity_bounded;
        };
      }),
  unfold end_input in omega arith,
)

started-IsFifo : (cap : ℕ) → IsU64 cap → IsFifo cap (started cap)
unfolding new BufferList.concatenate
started-IsFifo cap h = record {
  in_order = refl;
  written = refl;
  was_read = refl;
  room = refl;
  valid = record {
    fits = omega arith;
    counted = refl;
    bounded = omega arith;
    capacity_bounded = h;
  };
}

run_lem :
    (cap : ℕ) (t : Trace) (cs : List Call)
    → IsFifo cap t
    → IsU64 (t.stream.write_count + offered cs)
    → (u : Trace) × (run t cs ≡ ok u) × IsFifo cap u
unfolding run
run_lem cap t [] f b = (t, refl, f)
run_lem cap t (c ∷ cs) f b =
    let (u, e, g, le) = step_lem cap t c f (omega arith) in
    let (w, e', k) = run_lem cap u cs g (omega arith) in (w, rw e e', k)

-- A fresh stream of a 64-bit capacity serves any sequence of calls of `write`, `read` and
-- `end_input` that offers fewer than 2 ^ 64 bytes without throwing. At the end the bytes that
-- `write` accepted are those that `read` returned, in order, and then those that wait;
-- `bytes_written` and `bytes_read` count them, and no more bytes wait than the capacity.
pub run-fifo :
    (cap : ℕ) (cs : List Call)
    → IsU64 cap
    → IsU64 (offered cs)
    → (t : Trace) × (run (started cap) cs ≡ ok t)
      × (t.inn ≡ t.out ++ contents t.stream)
      × (bytes_written t.stream ≡ length t.inn)
      × (bytes_read t.stream ≡ length t.out)
      × (length (contents t.stream) ≤ cap)
unfolding bytes_written bytes_read
run-fifo cap cs h b =
    let (t, e, f) =
      run_lem cap (started cap) cs (started-IsFifo cap h) (unfold new in omega arith) in
    (t, e, f.in_order, f.written, f.was_read, omega (arith, f.valid.fits, f.room))
