-- ===== src/Dialogue/Prefix.antt =====
-- libsponge/tcp_connection.cc: what each of two connections reads.
use tcp_lab.Base.{
  ℕ, ◌+◌, ◌^◌, ◌≤◌, ◌<◌, ◌≡◌, refl, List, [], ◌∷◌, ◌++◌, All, arith, Total, Total-bind, ok, IsU64,
}
use tcp_lab.Reassembler.{EndKey}
use tcp_lab.Reassembler.Behind.{Misses}
use tcp_lab.Seqno.{WrappingInt32}
use tcp_lab.ByteStream.Laws.{contents}
use tcp_lab.Connection.{TcpConfig}
use tcp_lab.Connection.Sane.{IsOut}
use tcp_lab.Connection.Events
use tcp_lab.Connection.Events.{Trace, Grows}
use tcp_lab.Connection.Runs.{Living-prefix}
use tcp_lab.Dialogue.{
  Act, Turn, at_left, at_right, Dialogue, act, take_turn, run, started, written, left_offer,
  right_offer,
}
use tcp_lab.Dialogue.Histories.{isn_of, History, other_grows, alive, act_lem}

-- `a` bytes are written on the left, and `b` on the right.
module _ (end_key : EndKey) (past : Misses end_key) (left : TcpConfig) (random_left : ℕ)
    (right : TcpConfig) (random_right : ℕ) (word_left : IsU64 left.send_capacity)
    (word_right : IsU64 right.send_capacity) (a b : ℕ) (short_left : a + 1 < 2 ^ 31)
    (short_right : b + 1 < 2 ^ 31) (room_left : b + left.recv_capacity < 2 ^ 63)
    (room_right : a + right.recv_capacity < 2 ^ 63) where
  abbrev left_isn : WrappingInt32
  left_isn = isn_of left random_left

  abbrev right_isn : WrappingInt32
  right_isn = isn_of right random_right

  record Both (n m : ℕ) (d : Dialogue) : Type 0 where
    on_left : History end_key left random_left right_isn n d.right d.left
    on_right : History end_key right random_right left_isn m d.left d.right

  left_sent :
      (n m : ℕ) (d : Dialogue)
      → Both n m d
      → n ≤ a
      → m ≤ b
      → All (IsOut left_isn d.left.accepted) d.left.sent
  left_sent n m d h le le' =
      (alive end_key past left random_left right_isn word_left n b d.right d.left h.on_left
        (omega (arith, h.on_right.grown)) short_right room_left (omega arith)).taken

  right_sent :
      (n m : ℕ) (d : Dialogue)
      → Both n m d
      → n ≤ a
      → m ≤ b
      → All (IsOut right_isn d.right.accepted) d.right.sent
  right_sent n m d h le le' =
      (alive end_key past right random_right left_isn word_right m a d.left d.right h.on_right
        (omega (arith, h.on_left.grown)) short_left room_right (omega arith)).taken

  left_turn :
      (n m : ℕ) (d : Dialogue) (x : Act)
      → Both n m d
      → n + written x ≤ a
      → m ≤ b
      → Total (Both (n + written x) m) (take_turn end_key d (at_left x))
  left_turn n m d x h le le' =
      Total-bind
        (λ t. History end_key left random_left right_isn (n + written x) d.right t × Grows d.left t)
        (Both (n + written x) m) (act end_key d.left d.right x) _
        (act_lem end_key past left random_left right_isn word_left n b d.right d.left x h.on_left
          (right_sent n m d h (omega arith) le') (omega (arith, h.on_right.grown)) short_right
          room_left (omega arith))
        (λ t (k, g). (
          _,
          refl,
          record {
            on_left = k;
            on_right =
                other_grows end_key past right random_right left_isn word_right m d.left t d.right g
                  h.on_right;
          },
        ))

  right_turn :
      (n m : ℕ) (d : Dialogue) (x : Act)
      → Both n m d
      → n ≤ a
      → m + written x ≤ b
      → Total (Both n (m + written x)) (take_turn end_key d (at_right x))
  right_turn n m d x h le le' =
      Total-bind
        (λ t.
          History end_key right random_right left_isn (m + written x) d.left t × Grows d.right t)
        (Both n (m + written x)) (act end_key d.right d.left x) _
        (act_lem end_key past right random_right left_isn word_right m a d.left d.right x h.on_right
          (left_sent n m d h le (omega arith)) (omega (arith, h.on_left.grown)) short_left
          room_right (omega arith))
        (λ t (k, g). (
          _,
          refl,
          record {
            on_left =
                other_grows end_key past left random_left right_isn word_left n d.right t d.left g
                  h.on_left;
            on_right = k;
          },
        ))

  run_lem :
      (n m : ℕ) (d : Dialogue) (xs : List Turn)
      → Both n m d
      → n + left_offer xs ≤ a
      → m + right_offer xs ≤ b
      → Total (λ e. (i j : ℕ) × Both i j e × (i ≤ a) × (j ≤ b)) (run end_key d xs)
  unfolding run
  run_lem n m d [] h le le' = (d, refl, (n, m, h, omega arith, omega arith))
  run_lem n m d (at_left x ∷ xs) h le le' =
      Total-bind (Both (n + written x) m) _ (take_turn end_key d (at_left x)) _
        (left_turn n m d x h (omega arith) (omega arith))
        (λ e k. run_lem (n + written x) m e xs k (omega arith) (omega arith))
  run_lem n m d (at_right x ∷ xs) h le le' =
      Total-bind (Both n (m + written x)) _ (take_turn end_key d (at_right x)) _
        (right_turn n m d x h (omega arith) (omega arith))
        (λ e k. run_lem n (m + written x) e xs k (omega arith) (omega arith))

  started-Both : Both 0 0 (started left random_left right random_right)
  unfolding Events.run
  started-Both = record {
    on_left = record {
      happened = [];
      ran = refl;
      peers = tt;
      offers = omega arith;
      grown = omega arith;
    };
    on_right = record {
      happened = [];
      ran = refl;
      peers = tt;
      offers = omega arith;
      grown = omega arith;
    };
  }

  reads_prefix :
      (n m : ℕ) (d : Dialogue)
      → Both n m d
      → n ≤ a
      → m ≤ b
      → (rest_left rest_right : List ℕ) × ((d.left.out
              ++ contents d.left.connection.receiver.reassembler.output)
            ++ rest_left
          ≡ d.right.accepted)
        × ((d.right.out ++ contents d.right.connection.receiver.reassembler.output) ++ rest_right
            ≡ d.left.accepted)
  reads_prefix n m d h le le' =
      let (rest_left, e) = Living-prefix _ _ d.left (
        alive end_key past left random_left right_isn word_left n b d.right d.left h.on_left
          (omega (arith, h.on_right.grown)) short_right room_left (omega arith)) in
      let (rest_right, e') = Living-prefix _ _ d.right (
        alive end_key past right random_right left_isn word_right m a d.left d.right h.on_right
          (omega (arith, h.on_left.grown)) short_left room_right (omega arith)) in
      (rest_left, rest_right, e, e')

-- Two fresh connections, whose send capacities have 64 bits, whatever initial numbers they draw, take
-- turns: one is called (`connect`, `write`, `end_input_stream`, `tick`, a read of its inbound stream,
-- or its queued segments are taken), or gets any segment that the other had taken from its queue,
-- also again, late, out of order, or never. Each side is to write fewer than 2 ^ 31 - 1 bytes in all,
-- which fit, with the receive capacity of the other side, below 2 ^ 63. Where an index above the number
-- of stored entries is looked up, a read behind the end of the map does not yield this index: that
-- of libstdc++, which yields the number of entries, does not.
-- Then no turn throws an exception, and on both sides,
-- what was read, and then what waits to be read, is the beginning of what the other side's stream
-- accepted.
pub dialogue_prefix :
    (left : TcpConfig) (random_left : ℕ) (right : TcpConfig) (random_right : ℕ) (end_key : EndKey)
    (turns : List Turn)
    → IsU64 left.send_capacity
    → IsU64 right.send_capacity
    → left_offer turns + 1 < 2 ^ 31
    → right_offer turns + 1 < 2 ^ 31
    → right_offer turns + left.recv_capacity < 2 ^ 63
    → left_offer turns + right.recv_capacity < 2 ^ 63
    → Misses end_key
    → (d : Dialogue) × (rest_left : List ℕ) × (rest_right : List ℕ) × (run end_key
          (started left random_left right random_right)
          turns
        ≡ ok d)
      × ((d.left.out ++ contents d.left.connection.receiver.reassembler.output) ++ rest_left
          ≡ d.right.accepted)
      × ((d.right.out ++ contents d.right.connection.receiver.reassembler.output) ++ rest_right
          ≡ d.left.accepted)
dialogue_prefix left random_left right random_right end_key turns word_left word_right short_left
      short_right room_left room_right past =
    let (d, e, (n, m, h, le, le')) =
      run_lem end_key past left random_left right random_right word_left word_right
        (left_offer turns) (right_offer turns) short_left short_right room_left room_right 0 0 _
        turns
        (started-Both end_key past left random_left right random_right word_left word_right
          (left_offer turns) (right_offer turns) short_left short_right room_left room_right)
        (omega arith) (omega arith) in
    let (rest_left, rest_right, q, q') =
      reads_prefix end_key past left random_left right random_right word_left word_right
        (left_offer turns) (right_offer turns) short_left short_right room_left room_right n m d h
        le le' in
    (d, rest_left, rest_right, e, q, q')
