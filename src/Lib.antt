-- ===== src/Lib.antt =====
-- The TCP library of this repository (libsponge/) as functions, with the theorems that make it
-- correct.
--
-- The program. A TCPConnection (libsponge/tcp_connection.cc) owns a TCPReceiver and a TCPSender.
-- The receiver hands each segment's payload to a StreamReassembler, which writes what is in order
-- to a ByteStream; the sender reads another ByteStream and cuts it into segments. Sequence numbers
-- travel as WrappingInt32. Segments are parsed from and serialized to buffers, in IPv4 datagrams
-- (TCPOverIPv4Adapter) and Ethernet frames (NetworkInterface, with ARP), which a Router forwards.
-- A TCPSpongeSocket joins a connection to an adapter and to the application by callbacks that an
-- EventLoop runs.
--
-- The files.
--   Base            shared names, tests, lists, machine words, results
--   Seqno           libsponge/wrapping_integers.cc: wrap, unwrap
--   Util            libsponge/util/: Buffer and BufferList (buffer.cc), NetParser (parser.cc),
--                   InternetChecksum (util.cc), FileDescriptor (file_descriptor.cc), EventLoop
--                   (eventloop.cc)
--   ByteStream      libsponge/byte_stream.cc
--   Reassembler     libsponge/stream_reassembler.cc
--   Wire            libsponge/tcp_helpers/: TcpHeader, TcpSegment, Ipv4Header, Ipv4Datagram,
--                   Ethernet (header and frame), ArpMessage
--   Receiver        libsponge/tcp_receiver.cc
--   Sender          libsponge/tcp_sender.cc
--   Connection      libsponge/tcp_connection.cc
--   State           libsponge/tcp_helpers/tcp_state.cc
--   Adapter         libsponge/tcp_helpers/tcp_over_ip.cc; Udp (fd_adapter.cc), Tun and Tap
--                   (tuntap_adapter.hh and .cc), Lossy (lossy_fd_adapter.hh)
--   Socket          libsponge/tcp_helpers/tcp_sponge_socket.cc: the callbacks, the loop that runs
--                   them, connect and listen_and_accept
--   Copy            apps/bidirectional_stream_copy.cc, over the event loop
--   Transfer        a sender and a receiver, joined by a network that loses, repeats and reorders
--   Dialogue        two connections, joined by such a network
--   Interface       libsponge/network_interface.cc
--   Router          libsponge/router.hh and router.cc
-- A class is a record of its fields, without the underscore; a method is a function of the same
-- name on it that returns the new record. A method that may throw returns a Result; what C++
-- leaves undefined, and a loop out of fuel, are exceptions of their own. Two places are not: the read
-- through cend() (below), and the step of an iterator whose element ack_received has just removed,
-- which leads to the next element here. Integers are natural
-- numbers with the wrap-around written out. A std::map is a list in the order of its keys.
--
-- Fuel. fill_window has window_size + 2 turns, one more than its loop can take, since each turn
-- that goes on puts a number in flight. InternetChecksum.value has two turns, enough to bring a
-- 32-bit number to 16 bits. FileDescriptor.write has a turn for each byte and one more: a turn that
-- does not throw takes a byte. The router's loops have a turn or two for each route; they follow
-- stored iterators, and where the source does not end, the model runs out of fuel.
--
-- Parameters. end_key gives, for the entries of the map, the value that push_substring reads through
-- cend(), which C++ leaves undefined; libstdc++ yields their number. random_isn is drawn from
-- std::random_device; ln is the C library's log cut to an integer. What a system call answers is a
-- parameter of the function that makes it.
--
-- Not modelled: everything that only prints, the sockets and devices of libsponge/util, the construction
-- and the threads of libsponge/tcp_helpers/tcp_sponge_socket.cc, and the other programs
-- of apps/. An Address is the number
-- that ipv4_numeric returns, with its port.
pub mod Base
pub mod Seqno
pub mod Util
pub mod ByteStream
pub mod Reassembler
pub mod Wire
pub mod Receiver
pub mod Sender
pub mod Connection
pub mod Interface
pub mod Router
pub mod Adapter
pub mod Copy
pub mod Dialogue
pub mod Socket
pub mod State
pub mod Transfer
