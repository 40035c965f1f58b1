-- ===== src/Socket/Tests.antt =====
-- The witnesses of the theorems on the socket. The first writes from five bytes, of which the kernel takes three.
use tcp_lab.Base.{
  ℕ, ◌≡◌, ◌≤◌, ◌++◌, refl, [], ◌∷◌, List, false, none, some, Option, arith, length, min, ok,
}
use tcp_lab.Util.Buffer
use tcp_lab.Util.BufferList
use tcp_lab.Util.BufferViewList.{BufferViewList, flatten}
use tcp_lab.Util.FileDescriptor.Writes.{Accepts}
use tcp_lab.ByteStream
use tcp_lab.ByteStream.Laws.{IsValid, contents}
use tcp_lab.Connection
use tcp_lab.Adapter.Lossy.{FdAdapter}
use tcp_lab.Socket.{SpongeSocket, inbound_stream, with_inbound, write_inbound}
use tcp_lab.Socket.Inbound.{write_inbound_lem}
use tcp_lab.Connection.{TcpConfig, TcpConnection}

abbrev silent_adapter : FdAdapter ℕ ℕ
silent_adapter = record {
  read = λ a d. ok (a, none);
  write = λ a seg. ok (a, seg);
  tick = λ a ms. ok a;
  set_listening = λ a l. a;
}

abbrev three : ℕ → BufferViewList → Option ℕ
three count views = some (min 3 (length (flatten views)))

three-Accepts : Accepts three
three-Accepts count views = (min 3 (length (flatten views)), refl, omega arith, omega arith)

abbrev pipe : SpongeSocket ℕ
pipe = record {
  tcp =
      with_inbound
        (Connection.new
          (record { rt_timeout = 1000; recv_capacity = 10; send_capacity = 10; fixed_isn = none })
          5)
        (ByteStream.write (ByteStream.new 10) (1 ∷ 2 ∷ 3 ∷ 4 ∷ 5 ∷ [])).0;
  datagram_adapter = 0;
  thread_data = record { fd_num = 4; eof = false; closed = false; read_count = 0; write_count = 0 };
  inbound_shutdown = false;
  outbound_shutdown = false;
  fully_acked = false;
}

pipe-IsValid : IsValid (inbound_stream pipe.tcp)
unfolding with_inbound ByteStream.new ByteStream.write BufferList.concatenate BufferList.append
    Buffer.str BufferList.size
pipe-IsValid = record {
  fits = omega arith;
  counted = refl;
  bounded = omega arith;
  capacity_bounded = omega arith;
}

write_inbound_lem_example :
    (s' : SpongeSocket ℕ) × (taken : List ℕ) × (write_inbound silent_adapter three (λ f. ok f) pipe
      ≡ ok (s', taken))
    × (taken ++ contents (inbound_stream s'.tcp) ≡ contents (inbound_stream pipe.tcp))
    × (min 1 (length (contents (inbound_stream pipe.tcp))) ≤ length taken)
    × (length taken ≤ 65536)
    × IsValid (inbound_stream s'.tcp)
write_inbound_lem_example =
    write_inbound_lem silent_adapter pipe three (λ f. ok f) three-Accepts (λ f. (f, refl))
      pipe-IsValid
