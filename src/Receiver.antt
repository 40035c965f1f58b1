-- ===== src/Receiver.antt =====
-- libsponge/tcp_receiver.hh and tcp_receiver.cc.
-- `_capacity` and `_full_fined` are not read after the construction. `end_key` is the parameter of
-- the reassembler's `push_substring`.
pub mod Synced
pub mod Ackno
pub mod Pieces
pub mod First
pub mod Ended
pub mod Events
pub mod Following
pub mod Segments
pub mod Runs
mod Tests
use tcp_lab.Base.{
  ℕ, Bool, true, false, not, ◌&&◌, ◌||◌, Option, none, some, leb, ◌==◌, if◌then◌else◌, add64, sub64,
  Result, ok, throw, ◌>>=◌, runtime_error,
}
use tcp_lab.Reassembler.{EndKey}
use tcp_lab.Seqno.{WrappingInt32, plus, minus, wrap, unwrap}
use tcp_lab.Util.Buffer
use tcp_lab.ByteStream
use tcp_lab.ByteStream.{ByteStream}
use tcp_lab.Reassembler
use tcp_lab.Reassembler.{StreamReassembler}
use tcp_lab.Wire.TcpHeader.{TcpHeader}
use tcp_lab.Wire.TcpSegment.{TcpSegment}

pub record TcpReceiver : Type 0 where
  pub reassembler : StreamReassembler
  pub syn : Bool
  pub fin : ℕ
  pub isn : WrappingInt32
  pub last_abseqno : ℕ
  pub ackno_field : Option WrappingInt32

unfoldable pub new : ℕ → TcpReceiver
new capacity = record {
  reassembler = Reassembler.new capacity;
  syn = false;
  fin = 0;
  isn = 0;
  last_abseqno = 0;
  ackno_field = none;
}

-- `full_fined()` and `fined()`
abbrev pub full_fined : TcpReceiver → Bool
full_fined r = leb 2 r.fin

abbrev pub fined : TcpReceiver → Bool
fined r = r.fin == 1

abbrev pub stream_out : TcpReceiver → ByteStream
stream_out r = r.reassembler.output

abbrev pub unassembled_bytes : TcpReceiver → ℕ
unassembled_bytes r = r.reassembler.unassembled_bytes

-- `ackno()`; `value()` of an empty optional throws bad_optional_access, counted as runtime_error.
unfoldable pub ackno : TcpReceiver → Result (Option WrappingInt32)
ackno r =
    if r.fin == 2
    then elim r.ackno_field [ none ↦ throw runtime_error | some a ↦ ok (some (plus a 1)) ]
    else ok r.ackno_field

unfoldable pub window_size : TcpReceiver → ℕ
window_size r = ByteStream.remaining_capacity (stream_out r)

-- The segments that are dropped at once: a second SYN, or one before the first SYN.
unfoldable pub out_of_order_syn : TcpReceiver → TcpHeader → Bool
out_of_order_syn r h = (not h.syn && not r.syn) || (h.syn && r.syn)

-- `if (_reassembler.first_unassembled() != 0)`
unfoldable pub note_assembled : TcpReceiver → TcpReceiver
note_assembled r =
    let last = sub64 r.reassembler.first_index 1 in
    let a = plus (wrap (add64 last 1) r.isn) 1 in
    if not (r.reassembler.first_index == 0)
    then record r { last_abseqno = last; ackno_field = some (if not r.syn then minus a 1 else a) }
    else r

-- `if (hder.syn)`
unfoldable pub note_syn : TcpReceiver → TcpHeader → TcpReceiver
note_syn r h =
    let a : WrappingInt32 = elim r.ackno_field [
      | none ↦ plus h.seqno 1
      | some raw ↦ plus (plus h.seqno 1) raw
    ] in
    if h.syn then record r { syn = true; isn = h.seqno; ackno_field = some a } else r

-- `if (hder.fin)`, and the end of the stream.
unfoldable pub note_fin : TcpReceiver → TcpHeader → TcpReceiver
note_fin r h =
    let fin = if h.fin then 1 else r.fin in
    if fin == 1 && r.reassembler.eofed
    then record r {
      reassembler = record r.reassembler { output = ByteStream.end_input r.reassembler.output };
      fin = 2;
    }
    else record r { fin = fin }

unfoldable pub segment_received : EndKey → TcpReceiver → TcpSegment → Result TcpReceiver
segment_received end_key r seg =
    let h = seg.header in
    let stream_index = if r.syn then unwrap (minus h.seqno 1) r.isn r.last_abseqno else 0 in
    if out_of_order_syn r h
    then ok r
    else if r.syn && unwrap h.seqno r.isn r.last_abseqno == 0
    then ok r
    else do
      reassembler' ←
          Reassembler.push_substring end_key r.reassembler (Buffer.str seg.payload) stream_index
            h.fin
      ok (note_fin (note_syn (note_assembled (record r { reassembler = reassembler' })) h) h)
