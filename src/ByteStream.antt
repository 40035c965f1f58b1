-- ===== src/ByteStream.antt =====
-- libsponge/byte_stream.hh and byte_stream.cc: a bounded in-order stream of bytes.
-- Counters of type `size_t` wrap at 2 ^ 64.
pub mod Laws
pub mod Runs
mod Tests
use tcp_lab.Base.{
  ℕ, Bool, true, false, ◌&&◌, List, [], arith, ◌==◌, if◌then◌else◌, min, length, take, add64, sub64,
  Result, ok, ◌>>=◌,
}
use tcp_lab.Util.BufferList
use tcp_lab.Util.BufferList.{BufferList}

pub record ByteStream : Type 0 where
  pub error : Bool
  pub buffer : BufferList
  pub capacity : ℕ
  pub input_ended_flag : Bool
  pub write_count : ℕ
  pub read_count : ℕ

-- `ByteStream(const size_t capacity)`
unfoldable pub new : ℕ → ByteStream
new cap = record {
  error = false;
  buffer = [];
  capacity = cap;
  input_ended_flag = false;
  write_count = 0;
  read_count = 0;
}

unfoldable pub buffer_size : ByteStream → ℕ
buffer_size s = BufferList.size s.buffer

unfoldable pub buffer_empty : ByteStream → Bool
buffer_empty s = BufferList.size s.buffer == 0

unfoldable pub remaining_capacity : ByteStream → ℕ
remaining_capacity s = sub64 s.capacity (BufferList.size s.buffer)

-- The stream with what the call wrote, and the number of bytes written.
unfoldable pub write : ByteStream → List ℕ → ByteStream × ℕ
unfolding remaining_capacity
write s bytes =
    let len = min (length bytes) (remaining_capacity s) in
    let buffer' =
      if length bytes == 0
      then s.buffer
      else BufferList.append s.buffer (BufferList.of_string (take len bytes)) in
    (record s { buffer = buffer'; write_count = add64 s.write_count len }, len)

unfoldable pub set_error : ByteStream → ByteStream
set_error s = record s { error = true }

unfoldable pub peek_output : ByteStream → ℕ → List ℕ
peek_output s len = take len (BufferList.concatenate s.buffer)

unfoldable pub pop_output : ByteStream → ℕ → Result ByteStream
pop_output s len =
    let n = min (BufferList.size s.buffer) len in
    do
      buffer' ← BufferList.remove_prefix s.buffer n
      ok (record s { buffer = buffer'; read_count = add64 s.read_count n })

unfoldable pub read : ByteStream → ℕ → Result (List ℕ × ByteStream)
unfolding peek_output pop_output
read s len = let ret = peek_output s len in do s' ← pop_output s len; ok (ret, s')

unfoldable pub end_input : ByteStream → ByteStream
end_input s = record s { input_ended_flag = true }

unfoldable pub input_ended : ByteStream → Bool
input_ended s = s.input_ended_flag

unfoldable pub eof : ByteStream → Bool
unfolding buffer_empty input_ended
eof s = input_ended s && buffer_empty s

unfoldable pub bytes_written : ByteStream → ℕ
bytes_written s = s.write_count

unfoldable pub bytes_read : ByteStream → ℕ
bytes_read s = s.read_count
