-- ===== src/Transfer/Tests.antt =====
-- The witness of the theorem on transfers.
use tcp_lab.Base.{length, ℕ, ◌≡◌, some, List, [], ◌∷◌, ◌++◌, arith, ok}
use tcp_lab.Reassembler.Behind.{length-Misses}
use tcp_lab.Seqno.{wrap}
use tcp_lab.ByteStream.Laws.{contents}
use tcp_lab.Sender.Runs
use tcp_lab.Sender.Runs.{Call}
use tcp_lab.Receiver.Events
use tcp_lab.Transfer.{Choice, pick, read, events, transfer_prefix}

-- A SYN, two bytes, and their retransmission.
abbrev session : List Call
session =
    Call.fill
    ∷ Call.put (65 ∷ 66 ∷ [])
    ∷ Call.acknowledge (wrap 1 7) 5
    ∷ Call.fill
    ∷ Call.wait_ 1000
    ∷ []

-- The bytes come before the SYN, and again after it; what was never sent does not come.
abbrev network : List Choice
network = pick 1 ∷ pick 0 ∷ pick 2 ∷ read 1 ∷ pick 1 ∷ pick 9 ∷ pick 0 ∷ []

transfer_prefix_example :
    (s : Runs.Trace) × (t : Events.Trace) × (rest : List ℕ) × (Runs.run
        (Runs.started 10 1000 (some 7) 0)
        session
      ≡ ok s)
    × (Events.run (λ es. length es) (Events.started 10) (events s.sender.segments_out network)
        ≡ ok t)
    × ((t.out ++ contents t.receiver.reassembler.output) ++ rest ≡ s.accepted)
transfer_prefix_example =
    transfer_prefix 10 1000 (some 7) 0 session 10 (λ es. length es) network (omega arith)
      (omega arith) (omega arith) (omega arith) length-Misses
