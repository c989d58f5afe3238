-- ===== src/FakeTcp/Transfer/Writing.antt =====
-- What `WriteTo` writes, and the numbers that it leaves.
use ikago.Base.{
  ℕ, ◌≡◌, sym, ap, ◌∙◌, inl, inr, Bytes, List, ◌++◌, length, true, false, some, Option-cases, ok,
  bind-ok, add16, add32, to_u16, to_u32,
}
use ikago.Addr.{Ip, Addr, string}
use ikago.Gopacket.{Layer, Tcp, Ipv4, SumsKeep}
use ikago.Layers.{create_layers}
use ikago.Fragment.Create.{create_fragment_packets}
use ikago.Crypt.{encrypt}
use ikago.FakeTcp.{
  World, ClientIndicator, FakeTcpConn, reading, find_client, set_client, write_packets, Target,
}
use ikago.FakeTcp.Segments.{Headed, Flagged, create_layers-Headed}
use ikago.FakeTcp.Runs.{and_then-ok, find_client-put, pushed, write_packets-ok}
use ikago.FakeTcp.Transfer.{destination, packets_for, count_up, write_for, write_to}

-- The address and the port that a write is for: it takes TCP and UDP addresses.
pub data Addressed : Addr → Ip → ℕ → Type 0 where
  to_tcp : {ip : Ip} {port : ℕ} → Addressed (Addr.tcp_addr ip port) ip (to_u16 port)
  to_udp : {ip : Ip} {port : ℕ} → Addressed (Addr.udp_addr ip port) ip (to_u16 port)

destination-Addressed :
    (to : Addr) (ip : Ip) (port : ℕ) → destination to ≡ ok (ip, port) → Addressed to ip port
unfolding destination
destination-Addressed (Addr.tcp_addr i p) ip port h =
    let at : i ≡ ip = cc in
    let through : to_u16 p ≡ port = cc in rw (← at, ← through) Addressed.to_tcp
destination-Addressed (Addr.udp_addr i p) ip port h =
    let at : i ≡ ip = cc in
    let through : to_u16 p ≡ port = cc in rw (← at, ← through) Addressed.to_udp
destination-Addressed _ ip port h = cc

-- The target of a write's packets.
abbrev pub written_to : FakeTcpConn → Ip → ℕ → Target
written_to c ip port = record {
  src_port = c.src_port;
  dst_port = port;
  dst_ip = ip;
  hop = 128;
  mac = c.conn.dst_dev.hardware_addr;
}

-- What a write that ended well has done: the data was encrypted for a client that is known; the
-- packets were written behind those sent before, and are those that the encrypted data is cut into
-- under headers with the client's numbers, PSH and ACK, for the address; the client's sequence number
-- moved on by the encrypted length, and the identification by the number of the packets.
pub record Written (w : World) (body : Bytes) (to : Addr) (c d : FakeTcpConn) : Type 0 where
  pub client : ClientIndicator
  pub known : find_client (string to) c.clients ≡ some client
  pub contents : Bytes
  pub sealed : encrypt w.random client.crypt body ≡ ok contents
  pub dst_ip : Ip
  pub dst_port : ℕ
  pub addressed : Addressed to dst_ip dst_port
  pub tcp : Tcp
  pub ip : Ipv4
  pub link : Layer
  pub headed : Headed c.conn (written_to c dst_ip dst_port) c.id client.seq client.ack tcp ip link
  pub flagged : Flagged tcp false true true
  pub packets : List Bytes
  pub made :
      create_fragment_packets w.gopacket
        (some link)
        (Layer.ipv4 ip)
        (some (Layer.tcp tcp))
        contents
        c.mtu
      ≡ ok packets
  pub sent : d.sent ≡ c.sent ++ packets
  pub id : d.id ≡ add16 c.id (to_u16 (length packets))
  pub seq :
      find_client (string to) d.clients
      ≡ some (record client { seq = add32 client.seq (to_u32 (length contents)) })

-- The packets for some data: the encrypted data, cut up under headers for the address.
packets_for-Headed :
    (w : World) (c : FakeTcpConn) (client : ClientIndicator) (ip : Ip) (port : ℕ) (body : Bytes)
    (contents : Bytes) (packets : List Bytes)
    → SumsKeep w.gopacket
    → packets_for w c client ip port body ≡ ok (contents, packets)
    → (encrypt w.random client.crypt body ≡ ok contents)
      × (tcp : Tcp) × (header : Ipv4) × (link : Layer) × Headed c.conn
          (written_to c ip port)
          c.id
          client.seq
          client.ack
          tcp
          header
          link
      × Flagged tcp false true true
      × (create_fragment_packets w.gopacket
            (some link)
            (Layer.ipv4 header)
            (some (Layer.tcp tcp))
            contents
            c.mtu
          ≡ ok packets)
unfolding packets_for
packets_for-Headed w c client ip port body contents packets keep h =
    let ((transport, header, link), h1, h2) =
      bind-ok
        (create_layers w.gopacket c.src_port port client.seq client.ack c.conn ip c.id 128
          c.conn.dst_dev.hardware_addr)
        _ h in
    let (e, h3, h4) = bind-ok (encrypt w.random client.crypt body) _ h2 in
    let (ps, h5, h6) =
      bind-ok
        (create_fragment_packets w.gopacket (some link) (Layer.ipv4 header) (some transport) e
          c.mtu)
        _ h4 in
    let (tcp, layer, headed, flagged) =
      create_layers-Headed w.gopacket c.conn (written_to c ip port) c.id client.seq client.ack
        transport header link keep h1 in
    let same : e ≡ contents = cc in
    let same_packets : ps ≡ packets = cc in
    (
      h3 ∙ ap ok same,
      tcp,
      header,
      link,
      headed,
      flagged,
      cut w link header (sym layer) (sym same) ∙ h5 ∙ ap ok same_packets,
    )
  where
    cut :
        {t t' : Layer} {e e' : Bytes} (w : World) (link : Layer) (header : Ipv4)
        → t ≡ t'
        → e ≡ e'
        → create_fragment_packets w.gopacket (some link) (Layer.ipv4 header) (some t) e c.mtu
          ≡ create_fragment_packets w.gopacket (some link) (Layer.ipv4 header) (some t') e' c.mtu
    cut w link header p q = rw (p, q)

write_for-Written :
    (w : World) (body : Bytes) (to : Addr) (ip : Ip) (port : ℕ) (client : ClientIndicator)
    (c d : FakeTcpConn) (n : ℕ)
    → SumsKeep w.gopacket
    → Addressed to ip port
    → find_client (string to) c.clients ≡ some client
    → write_for w (string to) body ip port client c ≡ (ok n, d)
    → (n ≡ length body) × Written w body to c d
unfolding write_for count_up set_client
write_for-Written w body to ip port client c d n keep at hk h =
    let key = string to in
    let ((contents, packets), m1, h1, h2) =
      and_then-ok (reading (packets_for w c client ip port body) c) _ h in
    let (v, m2, h3, h4) = and_then-ok (write_packets w packets m1) _ h2 in
    let made : packets_for w c client ip port body ≡ ok (contents, packets) = cc in
    let start : c ≡ m1 = cc in
    let wrote : m2 ≡ pushed packets c =
      write_packets-ok w packets m1 m2 v h3 ∙ ap (pushed packets) (sym start) in
    let counted : count_up key client contents packets m2 ≡ d = cc in
    let end : d ≡ count_up key client contents packets (pushed packets c) =
      sym counted ∙ ap (count_up key client contents packets) wrote in
    let same : n ≡ length body = cc in
    let (sealed, tcp, header, link, headed, flagged, cut) =
      packets_for-Headed w c client ip port body contents packets keep made in
    (
      same,
      record {
        client = client;
        known = hk;
        contents = contents;
        sealed = sealed;
        dst_ip = ip;
        dst_port = port;
        addressed = at;
        tcp = tcp;
        ip = header;
        link = link;
        headed = headed;
        flagged = flagged;
        packets = packets;
        made = cut;
        sent = ap (λ x. x.sent) end;
        id = ap (λ x. x.id) end;
        seq = ap (λ x. find_client key x.clients) end ∙ find_client-put key _ c.clients;
      },
    )

-- A `WriteTo` that ends well returns the length of its data, and has written it for the address: the
-- data was encrypted for a client that is known; the packets were written behind those sent before,
-- and are those that the encrypted data is cut into under headers with the connection's and the
-- address's ports and addresses, the client's numbers, PSH and ACK; the client's sequence number moved
-- on by the encrypted length, and the identification by the number of the packets. For a gopacket
-- whose SetNetworkLayerForChecksum only records the network layer.
pub write_to-Written :
    (w : World) (body : Bytes) (to : Addr) (c d : FakeTcpConn) (n : ℕ)
    → SumsKeep w.gopacket
    → write_to w body to c ≡ (ok n, d)
    → (n ≡ length body) × Written w body to c d
unfolding write_to
write_to-Written w body to c d n keep h =
    let ((ip, port), m, h1, h2) = and_then-ok (reading (destination to) c) _ h in
    let start : c ≡ m = cc in
    let named : destination to ≡ ok (ip, port) = cc in
    elim (Option-cases (find_client (string to) m.clients)) [
      | inl e ↦ let stuck = rw e at h2 in cc
      | inr (client, e) ↦
          let known = ap (λ x. find_client (string to) x.clients) start ∙ e in
          let wrote = rw e at h2 in
          write_for-Written w body to ip port client c d n keep
            (destination-Addressed to ip port named) known
            (ap (write_for w (string to) body ip port client) start ∙ wrote)
    ]
