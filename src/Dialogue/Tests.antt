-- ===== src/Dialogue/Tests.antt =====
-- Two connections that talk to each other: a run, and the witness of the theorem.
use tcp_lab.Base.{length, ℕ, ◌≡◌, none, List, [], ◌∷◌, ◌++◌, arith, ok}
use tcp_lab.Reassembler.Behind.{length-Misses}
use tcp_lab.ByteStream.Laws.{contents}
use tcp_lab.Connection.{TcpConfig}
use tcp_lab.Connection.Events.{connect_, put, finish, wait_, get, collect}
use tcp_lab.Dialogue.{Turn, at_left, at_right, does, gets, Dialogue, run, started}
use tcp_lab.Dialogue.Prefix.{dialogue_prefix}

abbrev config : TcpConfig
config = record { rt_timeout = 1000; recv_capacity = 100; send_capacity = 100; fixed_isn = none }

-- The left side connects and writes; a segment comes twice, another is lost and sent again; the right
-- side writes too, and ends its stream, and then the left side does.
abbrev exchange : List Turn
exchange =
    at_left (does connect_)
    ∷ at_left (does collect)
    ∷ at_right (gets 0)
    ∷ at_right (gets 0)
    ∷ at_right (does collect)
    ∷ at_left (gets 0)
    ∷ at_left (does (put (65 ∷ 66 ∷ [])))
    ∷ at_left (does (wait_ 1000))
    ∷ at_left (does collect)
    ∷ at_right (gets 3)
    ∷ at_right (gets 1)
    ∷ at_right (does (get 1))
    ∷ at_right (does (put (67 ∷ [])))
    ∷ at_right (does finish)
    ∷ at_right (does collect)
    ∷ at_left (gets 4)
    ∷ at_left (gets 3)
    ∷ at_left (does (get 5))
    ∷ at_left (does finish)
    ∷ at_left (does collect)
    ∷ at_right (gets 4)
    ∷ at_right (gets 5)
    ∷ at_right (gets 6)
    ∷ at_right (does (get 5))
    ∷ at_right (does collect)
    ∷ at_left (gets 5)
    ∷ at_left (does (wait_ 10000))
    ∷ at_right (does (wait_ 10000))
    ∷ []

dialogue_prefix_example :
    (d : Dialogue) × (rest_left : List ℕ) × (rest_right : List ℕ) × (run
        (λ es. length es)
        (started config 7 config 1000)
        exchange
      ≡ ok d)
    × ((d.left.out ++ contents d.left.connection.receiver.reassembler.output) ++ rest_left
        ≡ d.right.accepted)
    × ((d.right.out ++ contents d.right.connection.receiver.reassembler.output) ++ rest_right
        ≡ d.left.accepted)
dialogue_prefix_example =
    dialogue_prefix config 7 config 1000 (λ es. length es) exchange (omega arith) (omega arith)
      (omega arith) (omega arith) (omega arith) (omega arith) length-Misses
