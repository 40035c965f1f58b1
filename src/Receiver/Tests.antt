-- ===== src/Receiver/Tests.antt =====
-- The witness of the theorem on the receiver.
use tcp_lab.Base.{length, ℕ, ◌≡◌, refl, true, some, [], ◌∷◌, arith, ok}
use tcp_lab.Seqno.{wrap}
use tcp_lab.Util.Buffer
use tcp_lab.ByteStream
use tcp_lab.Reassembler
use tcp_lab.Reassembler.Stream.{slice}
use tcp_lab.Reassembler.Window.{Extended, new-Inv}
use tcp_lab.Wire.TcpHeader
use tcp_lab.Wire.TcpSegment.{TcpSegment}
use tcp_lab.Receiver.{TcpReceiver, new, segment_received, ackno}
use tcp_lab.Reassembler.Behind.{length-Misses, Inv-Misses}
use tcp_lab.Receiver.Synced.{IsSynced}
use tcp_lab.Receiver.Ackno.{expected, ackno-segment_received}

-- A receiver with a window of eight bytes that has seen a SYN with the number 7.
abbrev listener : TcpReceiver
listener = record (new 8) { syn = true; isn = 7; ackno_field = some (wrap 1 7) }

-- The stream whose byte at each index is the index, and the segment of its first two bytes.
abbrev stream : ℕ → ℕ
stream i = i

abbrev first_two : TcpSegment
first_two = record {
  header = record TcpHeader.default { seqno = wrap 1 7; fin = true };
  payload = Buffer.of_string (0 ∷ 1 ∷ []);
}

listener-IsSynced : IsSynced stream listener
unfolding new Reassembler.new ByteStream.new
listener-IsSynced = record {
  synced = refl;
  isn_ok = omega arith;
  inv = (new-Inv stream 8 (omega arith)).0;
  limit_ok = omega arith;
  position = refl;
  number = refl;
  stage = refl;
}

ackno-segment_received_example :
    (r' : TcpReceiver) × (segment_received (λ es. length es) listener first_two ≡ ok r')
    × IsSynced stream r'
    × Extended stream (Buffer.str first_two.payload) 0 listener.reassembler r'.reassembler
    × (ackno r' ≡ ok (some (wrap (expected r') listener.isn)))
unfolding new Reassembler.new ByteStream.new slice Buffer.str
ackno-segment_received_example =
    ackno-segment_received stream (λ es. length es) listener first_two 0 listener-IsSynced refl refl
      refl (omega arith) (omega arith) refl
      (Inv-Misses stream (λ es. length es) listener.reassembler _ length-Misses
        listener-IsSynced.inv)
