-- ===== src/Util/FileDescriptor.antt =====
-- libsponge/util/file_descriptor.hh and file_descriptor.cc: `FDWrapper` and `FileDescriptor`. The
-- system calls are parameters: what they return, `none` for an error, which `SystemCall` throws as
-- a kind of runtime_error. The wrapper's number is one that the kernel gave; `set_blocking` only
-- calls the kernel. Handles share the wrapper, so that `duplicate` is the same value.
pub mod Writes
mod Tests
use tcp_lab.Base.{
  ℕ, zero, suc, ◌*◌, Bool, true, false, not, ◌&&◌, Option, none, some, List, [], ◌++◌, ltb, ◌==◌,
  if◌then◌else◌, min, length, take, add32, add64, Result, ok, throw, runtime_error, out_of_fuel,
  ◌>>=◌,
}
use tcp_lab.Util.BufferViewList
use tcp_lab.Util.BufferViewList.{BufferViewList, flatten}

pub record FileDescriptor : Type 0 where
  pub fd_num : ℕ
  pub eof : Bool
  pub closed : Bool
  pub read_count : ℕ
  pub write_count : ℕ

-- `FDWrapper(const int fd)`, for the number that a system call returned: `none` is below 0.
unfoldable pub new : Option ℕ → Result FileDescriptor
new none = throw runtime_error
new (some fd) =
    ok (record { fd_num = fd; eof = false; closed = false; read_count = 0; write_count = 0 })

-- `close()`, where the system call fails or does not.
unfoldable pub close : Bool → FileDescriptor → Result FileDescriptor
close fails f = if fails then throw runtime_error else ok (record f { eof = true; closed = true })

-- The destructor of the wrapper swallows what `close` throws.
unfoldable pub destroy : Bool → FileDescriptor → FileDescriptor
unfolding close
destroy fails f = if f.closed then f else elim (close fails f) [ ok f' ↦ f' | throw e ↦ f ]

-- `register_read` and `register_write`
abbrev pub register_read : FileDescriptor → FileDescriptor
register_read f = record f { read_count = add32 f.read_count 1 }

abbrev pub register_write : FileDescriptor → FileDescriptor
register_write f = record f { write_count = add32 f.write_count 1 }

-- `read(str, limit)`; `kernel` is what read(2) stores for a size.
unfoldable pub read : (ℕ → Option (List ℕ)) → FileDescriptor → ℕ → Result (FileDescriptor × List ℕ)
read kernel f limit =
    let size_to_read = min (1024 * 1024) limit in
    elim (kernel size_to_read) [
      | none ↦ throw runtime_error
      | some bytes ↦
          let f' = if ltb 0 limit && length bytes == 0 then record f { eof = true } else f in
          if ltb size_to_read (length bytes)
          then throw runtime_error
          else ok (register_read f', bytes)
    ]

-- What one turn of `write` leaves, where writev(2) took `bytes_written`: the descriptor, the views
-- that are left, the total, and the bytes that the kernel has taken so far.
pub record Written : Type 0 where
  pub file : FileDescriptor
  pub buffer : BufferViewList
  pub total : ℕ
  pub taken : List ℕ

unfoldable pub write_once : Written → ℕ → Result Written
write_once w bytes_written =
    let size = BufferViewList.size w.buffer in
    if bytes_written == 0 && not (size == 0)
    then throw runtime_error
    else if ltb size bytes_written
    then throw runtime_error
    else (BufferViewList.remove_prefix w.buffer bytes_written >>= (λ left. ok (record {
      file = register_write w.file;
      buffer = left;
      total = add64 w.total bytes_written;
      taken = w.taken ++ take bytes_written (flatten w.buffer);
    })))

-- The loop of `write`, on fuel. `writev` is the kernel's answer to the views, at the n-th write.
unfoldable pub write_loop : (ℕ → BufferViewList → Option ℕ) → Bool → ℕ → Written → Result Written
unfolding write_once
write_loop writev write_all zero w = throw out_of_fuel
write_loop writev write_all (suc fuel) w = do
  n ← elim (writev w.file.write_count w.buffer) [ none ↦ throw runtime_error | some k ↦ ok k ]
  w' ← write_once w n
  let rest = write_loop writev write_all fuel w'
  if write_all && not (BufferViewList.size w'.buffer == 0) then rest else ok w'

-- `write(buffer, write_all)`: a turn that does not throw takes a byte, unless there is none left.
unfoldable pub write :
    (ℕ → BufferViewList → Option ℕ) → FileDescriptor → BufferViewList → Bool → Result Written
unfolding write_loop
write writev f buffer write_all =
    write_loop writev write_all (suc (BufferViewList.size buffer))
      (record { file = f; buffer = buffer; total = 0; taken = [] })
