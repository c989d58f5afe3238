-- ===== src/FakeTcp/Handshake/Numbers.antt =====
-- What the handshakes send, and the numbers that they leave.
use ikago.Base.{
  ℕ, ◌≡◌, sym, ap, ◌∙◌, Bool, true, false, Bytes, [], ◌∷◌, ◌++◌, some, ok, bind-ok, add16, add32,
  arith,
}
use ikago.Addr.{Ip, Addr, string}
use ikago.Gopacket.{Layer, Tcp, Ipv4, SumsKeep}
use ikago.Packet.{PacketIndicator, tcp_layer, src_ip, src_port, dst_port, src_hardware_addr}
use ikago.Packet.Nat.{src}
use ikago.Layers.{create_layers, flag_tcp_layer, serialize}
use ikago.FakeTcp.{
  World, ClientIndicator, FakeTcpConn, and_then, find_client, set_client, client_or_new, flag_layer,
  Target, handshake_packet, shake,
}
use ikago.FakeTcp.Runs.{and_then-ok, find_client-put, shake-ok}
use ikago.FakeTcp.Segments.{
  Headed, Flagged, create_layers-Headed, flag_tcp_layer-Headed, flag_tcp_layer-Flagged,
}
use ikago.FakeTcp.Handshake.{source_key, segment_of, synack_to, handshake_synack, answer_target}

-- A handshake from `c` to `d`: one packet was sent, with the flags, the client's numbers, and the
-- ports and addresses of the target in its headers; the identification moved on by one, and the map
-- has the client with the next sequence number.
pub record Shaken (w : World) (key : Bytes) (target : Target) (client : ClientIndicator)
    (syn ack : Bool) (c d : FakeTcpConn) : Type 0 where
  pub tcp : Tcp
  pub ip : Ipv4
  pub link : Layer
  pub headed : Headed c.conn target c.id client.seq client.ack tcp ip link
  pub flagged : Flagged tcp syn false ack
  pub packet : Bytes
  pub made :
      w.gopacket.serialize_layers true (link ∷ Layer.ipv4 ip ∷ Layer.tcp tcp ∷ []) ≡ ok packet
  pub sent : d.sent ≡ c.sent ++ packet ∷ []
  pub id : d.id ≡ add16 c.id 1
  pub known : find_client key d.clients ≡ some (record client { seq = add32 client.seq 1 })

-- The headers of a handshake's packet.
handshake_packet-Headed :
    (w : World) (c : FakeTcpConn) (t : Target) (client : ClientIndicator) (syn ack : Bool)
    (packet : Bytes)
    → SumsKeep w.gopacket
    → handshake_packet w c t client syn ack ≡ ok packet
    → (tcp : Tcp) × (ip : Ipv4) × (link : Layer) × Headed c.conn t c.id client.seq client.ack tcp ip
        link
      × Flagged tcp syn false ack
      × (w.gopacket.serialize_layers true (link ∷ Layer.ipv4 ip ∷ Layer.tcp tcp ∷ []) ≡ ok packet)
unfolding handshake_packet flag_layer serialize
handshake_packet-Headed w c t client syn ack packet keep h =
    let ((transport, ip, link), h1, h2) =
      bind-ok
        (create_layers w.gopacket t.src_port t.dst_port client.seq client.ack c.conn t.dst_ip c.id
          t.hop t.mac)
        _ h in
    let (tcp, same, headed, flagged) =
      create_layers-Headed w.gopacket c.conn t c.id client.seq client.ack transport ip link keep
        h1 in
    (
      flag_tcp_layer tcp syn false ack,
      ip,
      link,
      flag_tcp_layer-Headed tcp syn ack headed,
      flag_tcp_layer-Flagged tcp syn ack flagged,
      rw same at h2,
    )

shaken :
    (w : World) (key : Bytes) (client : ClientIndicator) (syn ack : Bool) (target : Target)
    (c d : FakeTcpConn) (v : Unit {0})
    → SumsKeep w.gopacket
    → and_then
        (shake w target client syn ack (set_client key client c))
        (λ done e. (ok tt, set_client key (record client { seq = add32 client.seq 1 }) e))
      ≡ (ok v, d)
    → Shaken w key target client syn ack c d
unfolding set_client
shaken w key client syn ack target c d v keep h =
    let start = set_client key client c in
    let (u, m, h1, h2) = and_then-ok (shake w target client syn ack start) _ h in
    let (packet, made, e) = shake-ok w target client syn ack start m u h1 in
    let (tcp, ip, link, headed, flagged, bytes) =
      handshake_packet-Headed w start target client syn ack packet keep made in
    let moved : set_client key (record client { seq = add32 client.seq 1 }) m ≡ d = cc in
    let end = sym moved ∙ ap (set_client key (record client { seq = add32 client.seq 1 })) e in
    record {
      tcp = tcp;
      ip = ip;
      link = link;
      headed = headed;
      flagged = flagged;
      packet = packet;
      made = bytes;
      sent = ap (λ x. x.sent) end;
      id = ap (λ x. x.id) end;
      known = ap (λ x. find_client key x.clients) end ∙ find_client-put key _ _;
    }

-- Where the SYN of a connection goes.
abbrev pub dialed : FakeTcpConn → Ip → ℕ → Target
dialed c ip port = record {
  src_port = c.src_port;
  dst_port = port;
  dst_ip = ip;
  hop = 128;
  mac = c.conn.dst_dev.hardware_addr;
}

-- Where the answer to a segment goes: back to where it came from, from the port that it came to.
abbrev pub back_to : Tcp → Ip → Bytes → Target
back_to t ip mac = record {
  src_port = t.dst_port;
  dst_port = t.src_port;
  dst_ip = ip;
  hop = 64;
  mac = mac;
}

segment_of-tcp :
    (ind : PacketIndicator) (t : Tcp) (ip : Ip) (mac : Bytes)
    → ind.transport_layer ≡ some (Layer.tcp t)
    → src_ip ind ≡ ok ip
    → src_hardware_addr ind ≡ ok mac
    → segment_of ind 64 ≡ ok (string (Addr.tcp_addr ip t.src_port), t, back_to t ip mac)
unfolding segment_of source_key answer_target src tcp_layer src_port dst_port
segment_of-tcp ind t ip mac ht hi hm = ground arith

-- A `handshakeSYNACK` of a TCP segment that ends well has sent SYN and ACK back to where the segment
-- came from, from the port that it came to, with the client's sequence number and an acknowledgement
-- one behind the segment's sequence number; the map has the client with the next sequence number, and
-- the identification moved on by one. For a gopacket whose SetNetworkLayerForChecksum only records the
-- network layer.
pub handshake_synack-Shaken :
    (w : World) (ind : PacketIndicator) (c d : FakeTcpConn) (t : Tcp) (ip : Ip) (mac : Bytes)
    (v : Unit {0})
    → SumsKeep w.gopacket
    → ind.transport_layer ≡ some (Layer.tcp t)
    → src_ip ind ≡ ok ip
    → src_hardware_addr ind ≡ ok mac
    → handshake_synack w ind c ≡ (ok v, d)
    → Shaken w
        (string (Addr.tcp_addr ip t.src_port))
        (back_to t ip mac)
        (record (client_or_new (string (Addr.tcp_addr ip t.src_port)) c) { ack = add32 t.seq 1 })
        true
        true
        c
        d
unfolding handshake_synack synack_to
handshake_synack-Shaken w ind c d t ip mac v keep ht hi hm h =
    let h1 = rw (segment_of-tcp ind t ip mac ht hi hm) at h in
    let key = string (Addr.tcp_addr ip t.src_port) in
    shaken w key (record (client_or_new key c) { ack = add32 t.seq 1 }) true true (back_to t ip mac)
      c d v keep h1
