-- ===== src/Receiver/Runs.antt =====
-- Whatever a network delivers to a receiver (libsponge/tcp_receiver.cc) of what a sound sender sent,
-- the receiver puts a prefix of the sender's stream together.
use tcp_lab.Base.{
  ℕ, ◌+◌, ◌^◌, ◌<◌, ◌≡◌, refl, sym, ◌∙◌, ap, ap₂, inl, List, [], ◌∷◌, ◌++◌, All, arith, length,
  drop, ok,
}
use tcp_lab.Reassembler.{EndKey}
use tcp_lab.Reassembler.Behind.{Misses}
use mathlib.Core.Bool.{true≢false}
use tcp_lab.Seqno.{WrappingInt32}
use tcp_lab.ByteStream
use tcp_lab.ByteStream.Laws.{contents}
use tcp_lab.Reassembler
use tcp_lab.Reassembler.{StreamReassembler}
use tcp_lab.Reassembler.Stream.{slice, slice-append}
use tcp_lab.Reassembler.Window.{new-Inv}
use tcp_lab.Receiver.{new}
use tcp_lab.Receiver.Pieces.{byte_at, prefix_of}
use tcp_lab.Receiver.Events.{Event, Trace, run, started, IsSent}
use tcp_lab.Receiver.Following.{Following, first_ok, inv}
use tcp_lab.Receiver.Segments.{event_step}

module _ (isn : WrappingInt32) (acc : List ℕ) (capacity : ℕ) (short : length acc + 1 < 2 ^ 31)
    (word : length acc + capacity < 2 ^ 63) (end_key : EndKey) (past : Misses end_key) where
  run_lem :
      (t : Trace) (xs : List Event)
      → Following isn acc capacity short word end_key past t
      → All (IsSent isn acc) xs
      → (u : Trace) × (run end_key t xs ≡ ok u)
        × Following isn acc capacity short word end_key past u
  unfolding run
  run_lem t [] f a = (t, refl, f)
  run_lem t (x ∷ xs) f (p, a) =
      let (u, e, k) = event_step isn acc capacity short word end_key past t f x p in
      let (z, e', k') = run_lem u xs k a in (z, rw e e', k')

  pub started-Following : Following isn acc capacity short word end_key past (started capacity)
  unfolding new Reassembler.new ByteStream.new slice
  started-Following =
      let (inv, none_held) = new-Inv (byte_at acc) capacity (omega arith) in
      record {
        size = refl;
        out_ok = refl;
        small = λ i h. absurd (true≢false (sym h ∙ none_held i));
        stage = inl (record {
          unsynced = refl;
          isn_zero = refl;
          no_ackno = refl;
          no_fin = refl;
          at_zero = refl;
          inv = inv;
          limit_ok = omega arith;
          nothing = refl;
          no_eof = refl;
          running = refl;
        });
      }

-- What was read, and then what waits, is the beginning of the stream.
pub Following-prefix :
    (isn : WrappingInt32) (acc : List ℕ) (capacity : ℕ) (short : length acc + 1 < 2 ^ 31)
    (word : length acc + capacity < 2 ^ 63) (end_key : EndKey) (past : Misses end_key) (t : Trace)
    → Following isn acc capacity short word end_key past t
    → (rest : List ℕ) × ((t.out ++ contents t.receiver.reassembler.output) ++ rest ≡ acc)
Following-prefix isn acc capacity short word end_key past t f =
    let o = t.receiver.reassembler.output in
    let first = t.receiver.reassembler.first_index in
    let k = (inv isn acc capacity short word end_key past t f).output_ok in
    let from_zero : o.read_count ≡ 0 + o.read_count = omega arith in
    let count : o.read_count + length (contents o) ≡ first =
      omega (arith, k.wrote, k.valid.counted) in
    (
      drop first acc,
      ap (λ b. b ++ drop first acc)
            (ap₂ ◌++◌ f.out_ok
                (k.content ∙ ap (λ j. slice (byte_at acc) j (length (contents o))) from_zero)
              ∙ slice-append (byte_at acc) 0 o.read_count (length (contents o))
              ∙ ap (slice (byte_at acc) 0) count)
          ∙ prefix_of acc first
              (first_ok isn acc capacity short word end_key past t.receiver.reassembler f.small),
    )

-- So it is after any run.
pub run_prefix :
    (isn : WrappingInt32) (acc : List ℕ) (capacity : ℕ) (end_key : EndKey) (xs : List Event)
    → length acc + 1 < 2 ^ 31
    → length acc + capacity < 2 ^ 63
    → Misses end_key
    → All (IsSent isn acc) xs
    → (t : Trace) × (rest : List ℕ) × (run end_key (started capacity) xs ≡ ok t)
      × ((t.out ++ contents t.receiver.reassembler.output) ++ rest ≡ acc)
run_prefix isn acc capacity end_key xs short word past sent =
    let (t, e, f) =
      run_lem isn acc capacity short word end_key past (started capacity) xs
        (started-Following isn acc capacity short word end_key past) sent in
    let (rest, k) = Following-prefix isn acc capacity short word end_key past t f in (t, rest, e, k)
