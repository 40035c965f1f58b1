-- ===== src/Adapter/RoundTrip.antt =====
-- What one adapter wraps, the other one unwraps (libsponge/tcp_helpers/tcp_over_ip.cc), by way of
-- the bytes of the datagram.
use tcp_lab.Base.{
  ℕ, ◌+◌, ◌*◌, ◌%◌, ◌^◌, ◌<◌, ◌≡◌, refl, ◌∙◌, ap, ap₂, true, false, ◌⊎◌, inl, inr, some, [], ◌∷◌,
  arith, length, All, ok, IsU8, IsU16, IsU32,
}
use tcp_lab.Util.Buffer
use tcp_lab.Util.Buffer.{Buffer}
use tcp_lab.Util.BufferList
use tcp_lab.Util.BufferList.{BufferList}
use tcp_lab.Util.InternetChecksum.Laws.{words, words-length}
use tcp_lab.Util.NetParser.{no_error}
use tcp_lab.Wire.TcpHeader.{TcpHeader}
use tcp_lab.Wire.TcpHeader.RoundTrip
use tcp_lab.Wire.TcpSegment
use tcp_lab.Wire.TcpSegment.{TcpSegment}
use tcp_lab.Wire.TcpSegment.RoundTrip.{
  with_cksum, text, text-IsU8, length-text, parse-serialize_checked,
}
use tcp_lab.Wire.Ipv4Header
use tcp_lab.Wire.Ipv4Header.{Ipv4Header, proto_tcp}
use tcp_lab.Wire.Ipv4Header.RoundTrip.{IsValid}
use tcp_lab.Wire.Ipv4Datagram
use tcp_lab.Wire.Ipv4Datagram.{Ipv4Datagram}
use tcp_lab.Wire.Ipv4Datagram.RoundTrip.{parse-serialize_datagram}
use tcp_lab.Adapter.{Address, TcpOverIpv4Adapter, for_us, accept, unwrap_tcp_in_ip, wrap_tcp_in_ip}

-- The address fits its types.
pub record IsAddress (a : Address) : Type 0 where
  pub ip_ok : IsU32 a.ipv4_numeric
  pub port_ok : IsU16 a.port

-- The segment that goes out.
abbrev pub outgoing : TcpOverIpv4Adapter → TcpSegment → TcpSegment
outgoing a s = record s {
  header = record s.header { sport = a.source.port; dport = a.destination.port };
}

-- The other adapter listens at the port of a's destination, and the segment starts a connection;
-- or it is connected to a.
abbrev pub Peer : TcpOverIpv4Adapter → TcpOverIpv4Adapter → TcpHeader → Type 0
Peer a b h =
    (b.source.port ≡ a.destination.port)
    × (((b.listening ≡ true) × (h.syn ≡ true) × (h.rst ≡ false))
        ⊎ ((b.listening ≡ false)
            × (b.source.ipv4_numeric ≡ a.destination.ipv4_numeric)
            × (b.destination ≡ a.source)))

-- The header of the datagram.
abbrev ip_header : TcpOverIpv4Adapter → TcpSegment → Ipv4Header
ip_header a s = record Ipv4Header.default {
  src = a.source.ipv4_numeric;
  dst = a.destination.ipv4_numeric;
  len = (Ipv4Header.default.hlen * 4 + s.header.doff * 4 + Buffer.size s.payload) % 2 ^ 16;
}

module _ (a : TcpOverIpv4Adapter) (s : TcpSegment) (source_ok : IsAddress a.source)
    (destination_ok : IsAddress a.destination) where
  ip_header-IsValid : IsValid (ip_header a s)
  ip_header-IsValid = omega (arith, source_ok.ip_ok, destination_ok.ip_ok)

  pseudo_small : Ipv4Header.pseudo_cksum (ip_header a s) < 2 ^ 20
  unfolding Ipv4Header.pseudo_cksum Ipv4Header.payload_length
  pseudo_small = omega arith

  pub out_valid : RoundTrip.IsValid s.header → RoundTrip.IsValid (outgoing a s).header
  out_valid v = record {
    sport_ok = source_ok.port_ok;
    dport_ok = destination_ok.port_ok;
    seqno_ok = v.seqno_ok;
    ackno_ok = v.ackno_ok;
    win_ok = v.win_ok;
    cksum_ok = v.cksum_ok;
    uptr_ok = v.uptr_ok;
    doff_min = v.doff_min;
    doff_max = v.doff_max;
  }

  -- The checksum's 32-bit sum does not wrap.
  fits :
      RoundTrip.IsValid s.header
      → All IsU8 (Buffer.str s.payload)
      → 20 + 4 * s.header.doff + Buffer.size s.payload < 2 ^ 16
      → Ipv4Header.pseudo_cksum (ip_header a s) + words false (text (outgoing a s) 0) + 0xffff
        < 2 ^ 32
  unfolding Buffer.size
  fits v b k = omega (
    arith,
    pseudo_small,
    length-text (outgoing a s) 0 (out_valid v),
    words-length false (text (outgoing a s) 0) (text-IsU8 (outgoing a s) b 0),
    k,
  )

-- What the adapter b takes from the datagram, if the segment in it is fit for it.
accept-Peer :
    (a b : TcpOverIpv4Adapter) (ip : Ipv4Header) (s s' : TcpSegment)
    → ip.src ≡ a.source.ipv4_numeric
    → ip.dst ≡ a.destination.ipv4_numeric
    → s'.header.sport ≡ a.source.port
    → s'.header.dport ≡ a.destination.port
    → s'.header.syn ≡ s.header.syn
    → s'.header.rst ≡ s.header.rst
    → Peer a b s.header
    → (b' : TcpOverIpv4Adapter) × (accept b ip s' ≡ (b', some s'))
      × (b'.source ≡ a.destination)
      × (b'.destination ≡ a.source)
      × (b'.listening ≡ false)
unfolding accept
accept-Peer a b ip s s' e1 e2 e3 e4 e5 e6 (port, inl (l, sy, rs)) = (
  record b {
    source = record { ipv4_numeric = ip.dst; port = b.source.port };
    destination = record { ipv4_numeric = ip.src; port = s'.header.sport };
    listening = false;
  },
  ground (arith, e4, port, l, e5, e6, sy, rs),
  ap₂ (λ i p. record { ipv4_numeric = i; port = p }) e2 port,
  ap₂ (λ i p. record { ipv4_numeric = i; port = p }) e1 e3,
  refl,
)
accept-Peer a b ip s s' e1 e2 e3 e4 e5 e6 (port, inr (l, i, d)) = (
  b,
  ground (arith, e3, e4, port, l, ap (λ k. k.port) d),
  ap₂ (λ i p. record { ipv4_numeric = i; port = p }) i port,
  d,
  l,
)

for_us-Peer :
    (a b : TcpOverIpv4Adapter) (ip : Ipv4Header) (h : TcpHeader)
    → ip.src ≡ a.source.ipv4_numeric
    → ip.dst ≡ a.destination.ipv4_numeric
    → ip.proto ≡ proto_tcp
    → Peer a b h
    → for_us b ip ≡ true
unfolding for_us
for_us-Peer a b ip h e1 e2 e3 (port, inl (l, sy, rs)) = ground (arith, l, e3)
for_us-Peer a b ip h e1 e2 e3 (port, inr (l, i, d)) =
    ground (arith, l, i, e1, e2, e3, ap (λ k. k.ipv4_numeric) d)

-- The adapter b, its segment taken, is connected to a.
abbrev pub Unwraps : TcpOverIpv4Adapter → TcpOverIpv4Adapter → TcpSegment → Ipv4Datagram → Type 0
Unwraps a b s d =
    (b' : TcpOverIpv4Adapter) × (s' : TcpSegment) × (c : ℕ) × (unwrap_tcp_in_ip b d
      ≡ ok (b', some s'))
    × (s'.header ≡ with_cksum (outgoing a s).header c)
    × (Buffer.str s'.payload ≡ Buffer.str s.payload)
    × (b'.source ≡ a.destination)
    × (b'.destination ≡ a.source)
    × (b'.listening ≡ false)

unwrap_step :
    (b b' : TcpOverIpv4Adapter) (ip : Ipv4Header) (p : Buffer) (s' : TcpSegment)
    → for_us b ip ≡ true
    → TcpSegment.parse TcpSegment.default p (Ipv4Header.pseudo_cksum ip) ≡ ok (s', no_error)
    → accept b ip s' ≡ (b', some s')
    → unwrap_tcp_in_ip b (record { header = ip; payload = p ∷ [] }) ≡ ok (b', some s')
unfolding unwrap_tcp_in_ip BufferList.to_buffer
unwrap_step b b' ip p s' f e t = ground (arith, f, e, t)

wrap_step :
    (a : TcpOverIpv4Adapter) (s : TcpSegment) (out : BufferList)
    → TcpSegment.serialize (outgoing a s) (Ipv4Header.pseudo_cksum (ip_header a s)) ≡ ok out
    → wrap_tcp_in_ip a s ≡ ok (outgoing a s, record { header = ip_header a s; payload = out })
unfolding wrap_tcp_in_ip
wrap_step a s out e = rw (e, wrap_tcp_in_ip) refl

pseudo_cksum-cksum :
    (h : Ipv4Header) (c : ℕ)
    → Ipv4Header.pseudo_cksum (record h { cksum = c }) ≡ Ipv4Header.pseudo_cksum h
unfolding Ipv4Header.pseudo_cksum Ipv4Header.payload_length
pseudo_cksum-cksum h c = refl

datagram_len :
    (a : TcpOverIpv4Adapter) (s : TcpSegment) (payload : BufferList)
    → BufferList.size payload ≡ 4 * s.header.doff + length (Buffer.str s.payload)
    → 20 + 4 * s.header.doff + Buffer.size s.payload < 2 ^ 16
    → (ip_header a s).len ≡ 20 + BufferList.size payload
unfolding Buffer.size
datagram_len a s payload size small = omega (arith, size, small)

-- A segment that the datagram's bytes hold is taken.
unwraps :
    (a b : TcpOverIpv4Adapter) (s s' : TcpSegment) (p : Buffer) (c c' : ℕ)
    → Peer a b s.header
    → TcpSegment.parse TcpSegment.default p (Ipv4Header.pseudo_cksum (ip_header a s))
      ≡ ok (s', no_error)
    → s'.header ≡ with_cksum (outgoing a s).header c
    → Buffer.str s'.payload ≡ Buffer.str s.payload
    → Unwraps a b s (record { header = record (ip_header a s) { cksum = c' }; payload = p ∷ [] })
unwraps a b s s' p c c' peer taken header content =
    let h = record (ip_header a s) { cksum = c' } in
    let (b', t, t1, t2, t3) =
      accept-Peer a b h s s' refl refl (ap (λ k. k.sport) header) (ap (λ k. k.dport) header)
        (ap (λ k. k.syn) header) (ap (λ k. k.rst) header) peer in
    let sum =
      ap (λ k. TcpSegment.parse TcpSegment.default p k) (pseudo_cksum-cksum (ip_header a s) c') in
    (
      b',
      s',
      c,
      unwrap_step b b' h p s' (for_us-Peer a b h s.header refl refl refl peer) (sum ∙ taken) t,
      header,
      content,
      t1,
      t2,
      t3,
    )

-- For an adapter whose addresses fit their types, and a segment whose header fits its types, with a
-- length of 5 to 15 words, whose payload is bytes, and which fits in a datagram: `wrap_tcp_in_ip`
-- and `serialize` do not throw. Where the bytes reach an adapter at the destination's port that
-- listens, and the segment is a SYN without RST, or that is connected to the first, the datagram is
-- parsed without an error, and `unwrap_tcp_in_ip` returns the segment: its header, with the ports
-- and a checksum filled in, and its payload. That adapter is then connected to the first.
pub unwrap_tcp_in_ip-wrap_tcp_in_ip :
    (a : TcpOverIpv4Adapter) (s : TcpSegment)
    → IsAddress a.source
    → IsAddress a.destination
    → RoundTrip.IsValid s.header
    → All IsU8 (Buffer.str s.payload)
    → 20 + 4 * s.header.doff + Buffer.size s.payload < 2 ^ 16
    → (d : Ipv4Datagram) × (out : BufferList) × (wrap_tcp_in_ip a s ≡ ok (outgoing a s, d))
      × (Ipv4Datagram.serialize d ≡ ok out)
      × ((b : TcpOverIpv4Adapter) (old : Ipv4Datagram) (bytes : Buffer)
          → Peer a b s.header
          → Buffer.str bytes ≡ BufferList.concatenate out
          → (d' : Ipv4Datagram) × (Ipv4Datagram.parse old bytes ≡ ok (d', no_error))
            × Unwraps a b s d')
unwrap_tcp_in_ip-wrap_tcp_in_ip a s source_ok destination_ok v bytes_ok small =
    let h = ip_header a s in
    let (payload, c, e, size, back) =
      parse-serialize_checked (outgoing a s) (Ipv4Header.pseudo_cksum h)
        (out_valid a s source_ok destination_ok v) bytes_ok
        (fits a s source_ok destination_ok v bytes_ok small) in
    let (out, c', e', back') =
      parse-serialize_datagram (record { header = h; payload = payload })
        (ip_header-IsValid a s source_ok destination_ok) (datagram_len a s payload size small) in
    (
      record { header = h; payload = payload },
      out,
      wrap_step a s payload e,
      e',
      λ b old bytes peer whole.
          let (p, parsed, same) = back' old bytes whole in
          let (s', taken, header, content) = back TcpSegment.default p same in
          (
            record { header = record h { cksum = c' }; payload = p ∷ [] },
            parsed,
            unwraps a b s s' p c c' peer taken header content,
          ),
    )
