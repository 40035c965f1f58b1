-- ===== src/Sender/Chain.antt =====
-- How the segments that the sender keeps (libsponge/tcp_sender.cc) lie in the sequence space and
-- in the stream.
use tcp_lab.Base.{
  ℕ, suc, ◌+◌, ◌≤◌, ◌<◌, ◌≡◌, refl, sym, ◌∙◌, ap, true, false, ◌⊎◌, inl, inr, List, [], ◌∷◌, ◌++◌,
  append_assoc, arith, leb, leb→le, Bool-cases, length, length-append, length-drop, drop, drop-drop,
  drop_exact, drop-append_left,
}
use tcp_lab.Seqno.{WrappingInt32, wrap}
use tcp_lab.Util.Buffer
use tcp_lab.Wire.TcpSegment.{TcpSegment, length_in_sequence_space}
use tcp_lab.Sender.{Sent, drop_acked}

-- The bytes that segments carry.
unfoldable pub payloads : List TcpSegment → List ℕ
payloads [] = []
payloads (x ∷ xs) = Buffer.str x.payload ++ payloads xs

pub payloads-append : (xs ys : List TcpSegment) → payloads (xs ++ ys) ≡ payloads xs ++ payloads ys
unfolding payloads
payloads-append [] ys = refl
payloads-append (x ∷ xs) ys =
    ap (λ k. Buffer.str x.payload ++ k) (payloads-append xs ys)
    ∙ sym (append_assoc (Buffer.str x.payload) (payloads xs) (payloads ys))

-- The segments that are kept for retransmission.
unfoldable pub kept : List Sent → List TcpSegment
kept [] = []
kept (x ∷ xs) = x.seg ∷ kept xs

pub kept-append : (xs ys : List Sent) → kept (xs ++ ys) ≡ kept xs ++ kept ys
unfolding kept
kept-append [] ys = refl
kept-append (x ∷ xs) ys = ap (λ k. x.seg ∷ k) (kept-append xs ys)

-- The segments stand in the order of the numbers that acknowledge them, all above `lo`.
abbrev pub Ordered : ℕ → List Sent → Type 0
Ordered lo [] = Unit {0}
Ordered lo (x ∷ xs) = (lo < x.expected_ack) × Ordered x.expected_ack xs

-- A segment that starts at the absolute number `from` and at the index `k` of the stream: number 0
-- is that of the SYN, and the byte at index `k` has the number `k + 1`.
abbrev pub Place : WrappingInt32 → ℕ → ℕ → TcpSegment → Type 0
Place isn from k seg =
    (seg.header.seqno ≡ wrap from isn)
    × (((seg.header.syn ≡ true) × (from ≡ 0) × (k ≡ 0))
        ⊎ ((seg.header.syn ≡ false) × (from ≡ suc k)))

-- The kept segments follow each other without a gap, up to the number `to` and the index `kto`.
abbrev pub Chain : WrappingInt32 → ℕ → ℕ → List Sent → ℕ → ℕ → Type 0
Chain isn from k [] to kto = (from ≡ to) × (k ≡ kto)
Chain isn from k (x ∷ xs) to kto =
    Place isn from k x.seg
    × (from < x.expected_ack)
    × (x.expected_ack ≡ from + length_in_sequence_space x.seg)
    × Chain isn x.expected_ack (k + length (Buffer.str x.seg.payload)) xs to kto

-- A segment that carries, at its number, bytes of the stream `acc`; or one that carries nothing.
abbrev pub Carries : WrappingInt32 → List ℕ → TcpSegment → Type 0
Carries isn acc seg =
    ((from : ℕ) × (k : ℕ) × (rest : List ℕ) × Place isn from k seg
      × (k ≤ length acc)
      × (Buffer.str seg.payload ++ rest ≡ drop k acc))
    ⊎ ((Buffer.str seg.payload ≡ []) × (seg.header.syn ≡ false) × (seg.header.fin ≡ false))

-- The bytes of the kept segments, and then those that wait, are the stream's from `k` on.
abbrev pub Tail : List ℕ → ℕ → List Sent → List ℕ → Type 0
Tail acc k xs rest = (k ≤ length acc) × (payloads (kept xs) ++ rest ≡ drop k acc)

module _ (isn : WrappingInt32) where
  pub Chain-le : (from k : ℕ) (xs : List Sent) (to kto : ℕ) → Chain isn from k xs to kto → from ≤ to
  Chain-le from k [] to kto c = omega arith
  Chain-le from k (x ∷ xs) to kto (p, lt, e, c) =
      omega (arith, Chain-le x.expected_ack (k + length (Buffer.str x.seg.payload)) xs to kto c)

  pub Chain-length :
      (from k : ℕ) (xs : List Sent) (to kto : ℕ)
      → Chain isn from k xs to kto
      → k + length (payloads (kept xs)) ≡ kto
  unfolding kept payloads
  Chain-length from k [] to kto c = omega arith
  Chain-length from k (x ∷ xs) to kto (p, lt, e, c) = omega (
    arith,
    Chain-length x.expected_ack (k + length (Buffer.str x.seg.payload)) xs to kto c,
    length-append (Buffer.str x.seg.payload) (payloads (kept xs)),
  )

  pub Chain-snoc :
      (from k : ℕ) (xs : List Sent) (to kto : ℕ) (y : Sent)
      → Chain isn from k xs to kto
      → Place isn to kto y.seg
      → to < y.expected_ack
      → y.expected_ack ≡ to + length_in_sequence_space y.seg
      → Chain isn from k (xs ++ (y ∷ [])) y.expected_ack (kto + length (Buffer.str y.seg.payload))
  Chain-snoc from k [] to kto y (e1, e2) p lt e = rw (e1, e2) (p, lt, e, (refl, refl))
  Chain-snoc from k (x ∷ xs) to kto y (q, lt', e', c) p lt e = (
    q,
    lt',
    e',
    Chain-snoc x.expected_ack (k + length (Buffer.str x.seg.payload)) xs to kto y c p lt e,
  )

  pub Ordered-snoc :
      (lo from k : ℕ) (xs : List Sent) (to kto : ℕ) (y : Sent)
      → Chain isn from k xs to kto
      → Ordered lo xs
      → lo ≤ to
      → to < y.expected_ack
      → Ordered lo (xs ++ (y ∷ []))
  Ordered-snoc lo from k [] to kto y c o le lt = (omega arith, tt)
  Ordered-snoc lo from k (x ∷ xs) to kto y (p, lt', e, c) (o1, o2) le lt = (
    o1,
    Ordered-snoc x.expected_ack x.expected_ack (k + length (Buffer.str x.seg.payload)) xs to kto y c
        o2 (Chain-le x.expected_ack (k + length (Buffer.str x.seg.payload)) xs to kto c) lt,
  )

-- What waits is the stream from its index on.
pub Tail-waits :
    (acc : List ℕ) (k : ℕ) (xs : List Sent) (rest : List ℕ)
    → Tail acc k xs rest
    → drop (k + length (payloads (kept xs))) acc ≡ rest
Tail-waits acc k xs rest (le, e) =
    sym (drop-drop (length (payloads (kept xs))) k acc)
    ∙ ap (drop (length (payloads (kept xs)))) (sym e)
    ∙ drop_exact _ (payloads (kept xs)) rest refl

-- Leaving the first segment.
pub Tail-next :
    (acc : List ℕ) (k : ℕ) (x : Sent) (xs : List Sent) (rest : List ℕ)
    → Tail acc k (x ∷ xs) rest
    → Tail acc (k + length (Buffer.str x.seg.payload)) xs rest
unfolding kept payloads
Tail-next acc k x xs rest (le, e) =
    let p = Buffer.str x.seg.payload in
    let q = payloads (kept xs) ++ rest in
    let e' : p ++ q ≡ drop k acc = sym (append_assoc p (payloads (kept xs)) rest) ∙ e in
    (
      omega (arith, ap length e', length-append p q, length-drop k acc, le),
      sym (drop_exact _ p q refl) ∙ ap (drop (length p)) e' ∙ drop-drop (length p) k acc,
    )

-- The segments that an acknowledgment leaves are a chain again.
pub Chain-drop_acked :
    (isn : WrappingInt32) (acc rest : List ℕ) (m from k : ℕ) (xs : List Sent) (to kto : ℕ)
    → Chain isn from k xs to kto
    → Tail acc k xs rest
    → from ≤ m
    → (from' : ℕ) × (k' : ℕ) × Chain isn from' k' (drop_acked m xs) to kto
      × Tail acc k' (drop_acked m xs) rest
      × (from' ≤ m)
unfolding drop_acked
Chain-drop_acked isn acc rest m from k [] to kto c t le = (from, k, c, t, le)
Chain-drop_acked isn acc rest m from k (x ∷ xs) to kto (p, lt, e, c) t le =
    elim (Bool-cases (leb x.expected_ack m)) [
      | inl goes ↦ rw goes (
          Chain-drop_acked isn acc rest m x.expected_ack (k + length (Buffer.str x.seg.payload)) xs
            to kto c (Tail-next acc k x xs rest t) (leb→le _ _ goes))
      | inr stays ↦ rw stays (from, k, (p, lt, e, c), t, le)
    ]

-- The first of the kept segments carries the stream's bytes.
pub Chain-Carries :
    (isn : WrappingInt32) (acc rest : List ℕ) (from k : ℕ) (x : Sent) (xs : List Sent) (to kto : ℕ)
    → Chain isn from k (x ∷ xs) to kto
    → Tail acc k (x ∷ xs) rest
    → Carries isn acc x.seg
unfolding kept payloads
Chain-Carries isn acc rest from k x xs to kto (p, lt, e, c) (le, t) = inl (
  from,
  k,
  payloads (kept xs) ++ rest,
  p,
  le,
  sym (append_assoc (Buffer.str x.seg.payload) (payloads (kept xs)) rest) ∙ t,
)

-- A stream that grew still holds what the segments carry.
pub Carries-grow :
    (isn : WrappingInt32) (acc more : List ℕ) (seg : TcpSegment)
    → Carries isn acc seg
    → Carries isn (acc ++ more) seg
Carries-grow isn acc more seg (inr blank) = inr blank
Carries-grow isn acc more seg (inl (from, k, rest, p, le, e)) = inl (
  from,
  k,
  rest ++ more,
  p,
  omega (arith, length-append acc more, le),
  sym (append_assoc (Buffer.str seg.payload) rest more)
      ∙ ap (λ b. b ++ more) e
      ∙ sym (drop-append_left k acc more le),
)
