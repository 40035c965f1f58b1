-- ===== src/Connection/Failed.antt =====
-- What holds of a connection (libsponge/tcp_connection.cc) whose streams got an error, or whose queue was
-- emptied.
use tcp_lab.Base.{ℕ, inl, inr, List, []}
use tcp_lab.Seqno.{WrappingInt32}
use tcp_lab.ByteStream
use tcp_lab.Reassembler.{StreamReassembler}
use tcp_lab.Reassembler.Flush.{Inv}
use tcp_lab.Sender.{TcpSender}
use tcp_lab.Receiver.{TcpReceiver}
use tcp_lab.Connection.Sane.{SenderOk, Peer, Follows}

-- An error on the streams changes nothing else.
abbrev pub failed_receiver : TcpReceiver → TcpReceiver
failed_receiver r = record r {
  reassembler = record r.reassembler { output = ByteStream.set_error r.reassembler.output };
}

set_error-Inv :
    (stream : ℕ → ℕ) (r : StreamReassembler)
    → Inv stream r
    → Inv stream (record r { output = ByteStream.set_error r.output })
unfolding ByteStream.set_error
set_error-Inv stream r v = record {
  output_ok = record {
    valid = record {
      fits = v.output_ok.valid.fits;
      counted = v.output_ok.valid.counted;
      bounded = v.output_ok.valid.bounded;
      capacity_bounded = v.output_ok.valid.capacity_bounded;
    };
    wrote = v.output_ok.wrote;
    content = v.output_ok.content;
  };
  entries_ok = v.entries_ok;
  counted = v.counted;
  ended = v.ended;
}

pub failed-Follows :
    (p : Peer) (out : List ℕ) (r : TcpReceiver)
    → Follows p out r
    → Follows p out (failed_receiver r)
unfolding ByteStream.set_error
failed-Follows p out r f = record {
  size = f.size;
  out_ok = f.out_ok;
  small = f.small;
  stage = elim f.stage [
    | inl w ↦ inl (record {
      unsynced = w.unsynced;
      isn_zero = w.isn_zero;
      no_ackno = w.no_ackno;
      no_fin = w.no_fin;
      at_zero = w.at_zero;
      inv = set_error-Inv _ r.reassembler w.inv;
      limit_ok = w.limit_ok;
      nothing = w.nothing;
      no_eof = w.no_eof;
      running = w.running;
    })
    | inr (v, same) ↦ inr (
      record {
        synced = v.synced;
        isn_ok = v.isn_ok;
        inv = set_error-Inv _ r.reassembler v.inv;
        limit_ok = v.limit_ok;
        position = v.position;
        number = v.number;
        stage = v.stage;
      },
      same,
    )
  ];
}

pub failed-SenderOk :
    (mine : WrappingInt32) (acc : List ℕ) (s : TcpSender)
    → SenderOk mine acc s
    → SenderOk mine acc (record s { stream = ByteStream.set_error s.stream })
unfolding ByteStream.set_error
failed-SenderOk mine acc s o =
    let v = o.good.valid in
    let u = o.good.sound in
    record {
      good = record {
        valid = record {
          stream_ok = record {
            fits = v.stream_ok.fits;
            counted = v.stream_ok.counted;
            bounded = v.stream_ok.bounded;
            capacity_bounded = v.stream_ok.capacity_bounded;
          };
          counted = v.counted;
          acked = v.acked;
          bounded = v.bounded;
          window_ok = v.window_ok;
        };
        sound = record {
          start = u.start;
          index = u.index;
          chain = u.chain;
          behind = u.behind;
          ordered = u.ordered;
          tail = u.tail;
          begun = u.begun;
          carries = u.carries;
        };
      };
      isn_kept = o.isn_kept;
      small = o.small;
    }

-- The queue of the sender was emptied.
pub drained-SenderOk :
    (mine : WrappingInt32) (acc : List ℕ) (s : TcpSender)
    → SenderOk mine acc s
    → SenderOk mine acc (record s { segments_out = [] })
drained-SenderOk mine acc s o =
    let v = o.good.valid in
    let u = o.good.sound in
    record {
      good = record {
        valid = record {
          stream_ok = v.stream_ok;
          counted = v.counted;
          acked = v.acked;
          bounded = v.bounded;
          window_ok = v.window_ok;
        };
        sound = record {
          start = u.start;
          index = u.index;
          chain = u.chain;
          behind = u.behind;
          ordered = u.ordered;
          tail = u.tail;
          begun = u.begun;
          carries = tt;
        };
      };
      isn_kept = o.isn_kept;
      small = (tt, o.small.1);
    }
