-- ===== src/Adapter/Tap/EndToEnd.antt =====
-- A segment on its way through all layers (libsponge/tcp_helpers/tuntap_adapter.cc, with
-- tcp_over_ip.cc, network_interface.cc and the formats): from one adapter's `write` to the `read` of
-- the neighbour.
use tcp_lab.Base.{
  ℕ, ◌+◌, ◌*◌, ◌^◌, ◌<◌, ◌≡◌, refl, sym, ◌∙◌, ap, subst, true, some, List, [], ◌∷◌, ◌++◌, arith,
  ==_self, All, ok, IsU8,
}
use tcp_lab.Util.Buffer
use tcp_lab.Util.Buffer.{Buffer}
use tcp_lab.Util.BufferList
use tcp_lab.Util.BufferList.{BufferList}
use tcp_lab.Util.NetParser.{no_error}
use tcp_lab.Wire.TcpHeader.RoundTrip as SegmentTrip
use tcp_lab.Wire.TcpSegment.{TcpSegment}
use tcp_lab.Wire.TcpSegment.RoundTrip.{with_cksum}
use tcp_lab.Wire.Ipv4Datagram
use tcp_lab.Wire.Ipv4Datagram.{Ipv4Datagram}
use tcp_lab.Wire.Ethernet.{EthernetAddress, EthernetFrame, type_ipv4, serialize_frame, parse_frame}
use tcp_lab.Wire.Ethernet.RoundTrip.{IsValid, parse_frame-serialize_frame}
use tcp_lab.Wire.Ethernet.RoundTrip as FrameTrip
use tcp_lab.Interface.{
  NetworkInterface, known_address, send_dgram, send_datagram, same_address, package_type,
  recv_frame,
}
use tcp_lab.Adapter.{TcpOverIpv4Adapter, unwrap_tcp_in_ip, wrap_tcp_in_ip}
use tcp_lab.Adapter.RoundTrip.{IsAddress, Peer, outgoing, unwrap_tcp_in_ip-wrap_tcp_in_ip}
use tcp_lab.Adapter.Tap.{
  TcpOverIpv4OverEthernetAdapter, default_frame, serialize_all, send_pending, receive, read, write,
}

-- The frame around a datagram's bytes.
abbrev pub frame_to : NetworkInterface → EthernetAddress → BufferList → EthernetFrame
frame_to i address bytes = record {
  header = record { dst = address; src = i.ethernet_address; type = type_ipv4 };
  payload = bytes;
}

same_address_refl : (a : EthernetAddress) → same_address a a ≡ true
unfolding same_address
same_address_refl [] = refl
same_address_refl (x ∷ a) = rw (==_self x) (same_address_refl a)

-- A datagram for a neighbour whose address is known goes out at once.
send_known :
    (i : NetworkInterface) (d : Ipv4Datagram) (ip : ℕ) (address : EthernetAddress)
    (out : BufferList)
    → known_address i ip ≡ some address
    → Ipv4Datagram.serialize d ≡ ok out
    → send_datagram i d ip
      ≡ ok (record i { frames_out = i.frames_out ++ (frame_to i address out ∷ []) })
unfolding send_datagram send_dgram
send_known i d ip address out e s = rw (e, s, send_datagram) refl

-- A frame with a datagram for this interface.
recv_datagram :
    (i : NetworkInterface) (src : EthernetAddress) (p : Buffer) (d : Ipv4Datagram)
    → Ipv4Datagram.parse Ipv4Datagram.default p ≡ ok (d, no_error)
    → recv_frame i (record {
      header = record { dst = i.ethernet_address; src = src; type = type_ipv4 };
      payload = p ∷ [];
    })
      ≡ ok (i, some d)
unfolding recv_frame package_type BufferList.to_buffer
recv_datagram i src p d e = ground (arith, e, same_address_refl i.ethernet_address)

serialize_all-append :
    (xs ys : List EthernetFrame) → serialize_all (xs ++ ys) ≡ serialize_all xs ++ serialize_all ys
unfolding serialize_all
serialize_all-append [] ys = refl
serialize_all-append (x ∷ xs) ys = ap (λ k. serialize_frame x ∷ k) (serialize_all-append xs ys)

-- What the neighbour makes of the segment `s` that the adapter `t` wrote.
abbrev pub Takes :
    TcpOverIpv4OverEthernetAdapter → TcpOverIpv4OverEthernetAdapter → TcpSegment → Buffer → Type 0
Takes t u s bytes =
    (u' : TcpOverIpv4OverEthernetAdapter) × (s' : TcpSegment) × (c : ℕ) × (read u bytes
      ≡ ok (u', some s'))
    × (s'.header ≡ with_cksum (outgoing t.base s).header c)
    × (Buffer.str s'.payload ≡ Buffer.str s.payload)
    × (u'.base.destination ≡ t.base.source)

write_step :
    (t : TcpOverIpv4OverEthernetAdapter) (s : TcpSegment) (d : Ipv4Datagram) (out : BufferList)
    (address : EthernetAddress)
    → wrap_tcp_in_ip t.base s ≡ ok (outgoing t.base s, d)
    → Ipv4Datagram.serialize d ≡ ok out
    → known_address t.interface t.next_hop.ipv4_numeric ≡ some address
    → (t' : TcpOverIpv4OverEthernetAdapter) × (write t s ≡ ok (t', outgoing t.base s))
      × (t'.tap
          ≡ t.tap
            ++ (serialize_all t.interface.frames_out
                ++ (serialize_frame (frame_to t.interface address out) ∷ [])))
      × (t'.interface.frames_out ≡ [])
unfolding write send_pending serialize_all
write_step t s d out address e1 e2 e3 =
    let i = t.interface in
    let i' = record i { frames_out = i.frames_out ++ (frame_to i address out ∷ []) } in
    (
      send_pending (record t { interface = i' }),
      rw (e1, send_known i d t.next_hop.ipv4_numeric address out e3 e2, write) refl,
      ap (λ k. t.tap ++ k) (serialize_all-append i.frames_out (frame_to i address out ∷ [])),
      refl,
    )

read_step :
    (u : TcpOverIpv4OverEthernetAdapter) (bytes p : Buffer) (src : EthernetAddress)
    (d : Ipv4Datagram) (b : TcpOverIpv4Adapter) (s' : TcpSegment)
    → parse_frame default_frame bytes
      ≡ ok (
        record {
          header = record { dst = u.interface.ethernet_address; src = src; type = type_ipv4 };
          payload = p ∷ [];
        },
        no_error,
      )
    → Ipv4Datagram.parse Ipv4Datagram.default p ≡ ok (d, no_error)
    → unwrap_tcp_in_ip u.base d ≡ ok (b, some s')
    → (u' : TcpOverIpv4OverEthernetAdapter) × (read u bytes ≡ ok (u', some s')) × (u'.base ≡ b)
unfolding read receive send_pending
read_step u bytes p src d b s' e1 e2 e3 = (
  record (send_pending u) { base = b },
  rw (e1, recv_datagram u.interface src p d e2, e3, read) refl,
  refl,
)

-- Let the adapter's addresses fit their types, the segment's header fit its types, with a length of
-- 5 to 15 words, its payload be bytes, and the segment fit in a datagram; and let the Ethernet
-- address of the next hop be known, and it and the adapter's own have six bytes. Then `write` does
-- not throw, and gives the device the frames that waited and one more. An adapter with the
-- address of the next hop that reads this frame's bytes, and that listens, where the segment is a
-- SYN without RST, or is connected to the first, returns the segment: its header, with the ports and
-- a checksum filled in, and its payload; it is then connected to the first.
pub read-write_frame :
    (t : TcpOverIpv4OverEthernetAdapter) (s : TcpSegment) (address : EthernetAddress)
    → IsAddress t.base.source
    → IsAddress t.base.destination
    → SegmentTrip.IsValid s.header
    → All IsU8 (Buffer.str s.payload)
    → 20 + 4 * s.header.doff + Buffer.size s.payload < 2 ^ 16
    → known_address t.interface t.next_hop.ipv4_numeric ≡ some address
    → FrameTrip.IsAddress address
    → FrameTrip.IsAddress t.interface.ethernet_address
    → (t' : TcpOverIpv4OverEthernetAdapter) × (frame : BufferList) × (write t s
        ≡ ok (t', outgoing t.base s))
      × (t'.tap ≡ t.tap ++ (serialize_all t.interface.frames_out ++ (frame ∷ [])))
      × (t'.interface.frames_out ≡ [])
      × ((u : TcpOverIpv4OverEthernetAdapter) (bytes : Buffer)
          → u.interface.ethernet_address ≡ address
          → Peer t.base u.base s.header
          → Buffer.str bytes ≡ BufferList.concatenate frame
          → Takes t u s bytes)
read-write_frame t s address k1 k2 v b small known six own =
    let (d, out, e1, e2, back) = unwrap_tcp_in_ip-wrap_tcp_in_ip t.base s k1 k2 v b small in
    let (t', e, tap, empty) = write_step t s d out address e1 e2 known in
    let f = frame_to t.interface address out in
    let valid : IsValid f.header = record { dst_ok = six; src_ok = own; type_ok = omega arith } in
    (
      t',
      serialize_frame f,
      e,
      tap,
      empty,
      λ u bytes here peer whole.
          let (p, parsed, same) = parse_frame-serialize_frame f default_frame bytes valid whole in
          let (d', datagram, (b', s', c, taken, header, content, _, to, _)) =
            back u.base Ipv4Datagram.default p peer same in
          let (u', r, base) =
            read_step u bytes p t.interface.ethernet_address d' b' s'
              (subst
                (λ a.
                  parse_frame default_frame bytes
                  ≡ ok (
                    record {
                      header = record {
                        dst = a;
                        src = t.interface.ethernet_address;
                        type = type_ipv4;
                      };
                      payload = p ∷ [];
                    },
                    no_error,
                  ))
                (sym here) parsed)
              datagram taken in
          (u', s', c, r, header, content, ap (λ k. k.destination) base ∙ to),
    )
