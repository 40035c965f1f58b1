-- ===== src/State/Opening.antt =====
-- The first step of a connection (libsponge/tcp_connection.cc, `connect`) as a change of its state
-- (libsponge/tcp_helpers/tcp_state.cc).
use tcp_lab.Base.{ℕ, ◌≡◌, refl, true, false, [], ◌∷◌, ok, none}
use tcp_lab.Seqno.{wrap}
use tcp_lab.Util.Buffer
use tcp_lab.Util.BufferList
use tcp_lab.ByteStream
use tcp_lab.Wire.TcpSegment
use tcp_lab.Wire.TcpSegment.{TcpSegment}
use tcp_lab.Reassembler
use tcp_lab.Receiver
use tcp_lab.Sender
use tcp_lab.Sender.{TcpSender, segment_of}
use tcp_lab.Connection.{TcpConfig, TcpConnection, new, connect, active, judge_do, stamp, stamp_all}
use tcp_lab.State.{of_state, state, listen, syn_sent}

-- What `connect` puts in the queue.
pub record IsSyn (isn : ℕ) (seg : TcpSegment) : Type 0 where
  pub syn : seg.header.syn ≡ true
  pub ack : seg.header.ack ≡ false
  pub rst : seg.header.rst ≡ false
  pub fin : seg.header.fin ≡ false
  pub seqno : seg.header.seqno ≡ wrap 0 isn
  pub no_data : Buffer.str seg.payload ≡ []

module _ (cfg : TcpConfig) (random_isn : ℕ) where
  abbrev fresh : TcpSender
  fresh = (new cfg random_isn).sender

  abbrev syn_segment : TcpSegment
  syn_segment = segment_of fresh [] false

  -- The sender that has sent its SYN.
  abbrev sent_syn : TcpSender
  sent_syn = record fresh {
    segments_out = syn_segment ∷ [];
    next_abs_seqno = 1;
    sent = record { expected_ack = 1; seg = syn_segment } ∷ [];
    syned = true;
  }

  abbrev outgoing : TcpSegment
  outgoing = stamp false none (Receiver.window_size (new cfg random_isn).receiver) syn_segment

  abbrev connected : TcpConnection
  connected = record (new cfg random_isn) {
    sender = record sent_syn { segments_out = [] };
    segments_out = outgoing ∷ [];
  }

  fill_fresh : Sender.fill_window fresh ≡ ok sent_syn
  unfolding new Sender.new Sender.fill_window Sender.bytes_in_flight segment_of ByteStream.new
      ByteStream.read BufferList.size BufferList.concatenate BufferList.remove_prefix Buffer.size
      Buffer.str ByteStream.input_ended ByteStream.buffer_empty TcpSegment.length_in_sequence_space
  fill_fresh = refl

  judge_sent : judge_do (record (new cfg random_isn) { sender = sent_syn }) ≡ ok connected
  unfolding new Sender.new judge_do segment_of Receiver.new Receiver.ackno Sender.full_fined
      stamp_all
  judge_sent = refl

  connect_fresh : connect (new cfg random_isn) ≡ ok connected
  unfolding connect
  connect_fresh = rw (fill_fresh, connect) judge_sent

  outgoing-IsSyn : IsSyn connected.sender.isn outgoing
  unfolding stamp segment_of new Sender.new Buffer.str
  outgoing-IsSyn = record {
    syn = refl;
    ack = refl;
    rst = refl;
    fin = refl;
    seqno = refl;
    no_data = refl;
  }

  state-new : state (new cfg random_isn) ≡ ok (of_state listen)
  unfolding new state of_state Receiver.new Receiver.ackno Sender.new ByteStream.new Reassembler.new
  state-new = refl

  state-connected : state connected ≡ ok (of_state syn_sent)
  unfolding new state of_state Receiver.new Receiver.ackno Sender.new ByteStream.new Reassembler.new
      Sender.bytes_in_flight
  state-connected = refl

-- Whatever the configuration, a new connection is in the state LISTEN. `connect` does not throw,
-- leaves it active, and takes it to SYN_SENT; one segment goes out: a SYN without ACK, RST, FIN or
-- data, with the initial sequence number.
pub connect_lem :
    (cfg : TcpConfig) (random_isn : ℕ)
    → (c : TcpConnection) × (seg : TcpSegment) × (state (new cfg random_isn) ≡ ok (of_state listen))
      × (connect (new cfg random_isn) ≡ ok c)
      × (state c ≡ ok (of_state syn_sent))
      × (c.segments_out ≡ seg ∷ [])
      × IsSyn c.sender.isn seg
      × (active c ≡ true)
unfolding new
connect_lem cfg random_isn = (
  connected cfg random_isn,
  outgoing cfg random_isn,
  state-new cfg random_isn,
  connect_fresh cfg random_isn,
  state-connected cfg random_isn,
  refl,
  outgoing-IsSyn cfg random_isn,
  refl,
)
