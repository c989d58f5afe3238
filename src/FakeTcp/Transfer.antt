-- ===== src/FakeTcp/Transfer.antt =====
-- `ReadFrom` behind its channel, for a packet that was received and put together, and `WriteTo`.
-- The deadlines race with the network and are left out: these are the calls without one.
pub mod Counters
pub mod Writing
use ikago.Base.{
  ℕ, ◌+◌, ◌-◌, ◌<◌, ◌%◌, Bool, true, false, ◌||◌, Bytes, List, [], ◌∷◌, length, Option, none, some,
  Result, ok, err, panic, ◌>>=◌, deref, add16, add32, to_u16, to_u32, u32_mod, ltb, unauthorized,
  unrecognized, transport_layer_type, addr_type, if◌then◌else◌,
}
use ikago.Addr.{Ip, Addr, string}
use ikago.Gopacket.{Gopacket, Layer, Tcp}
use ikago.Packet.{PacketIndicator, src_ip, src_port, is_rst, is_syn, is_ack}
use ikago.Packet.Nat.{src, payload}
use ikago.Layers.{create_layers}
use ikago.Fragment.Create.{create_fragment_packets}
use ikago.Crypt.{encrypt, decrypt}
use ikago.FakeTcp.{
  World, ClientIndicator, FakeTcpConn, Run, and_then, reading, find_client, set_client,
  write_packets,
}
use ikago.FakeTcp.Handshake.{handshake_synack, handshake_ack, reconnect}

-- The address that is returned. KCP wants UDP addresses, so TCP is shown as UDP.
addr_of : PacketIndicator → Option Layer → Result Addr
unfolding src_ip src_port src
addr_of ind none = do ip ← src_ip ind; ok (Addr.ip_addr ip)
addr_of ind (some (Layer.tcp t)) = do ip ← src_ip ind; p ← src_port ind; ok (Addr.udp_addr ip p)
addr_of ind (some (Layer.udp u)) = src ind
addr_of ind (some _) = err transport_layer_type

-- The acknowledgement: the number behind the payload, where it is larger or has wrapped round.
unfoldable pub next_ack : ℕ → ℕ → ℕ → ℕ
next_ack seq size ack =
    let expected = add32 seq (to_u32 size) in
    if ltb ack expected || ltb (u32_mod - 1 - seq) (to_u32 size) then expected else ack

-- What `client.ack` becomes for a packet with this transport layer and payload.
ack_for : Option Layer → Bytes → ℕ → ℕ
unfolding next_ack
ack_for (some (Layer.tcp t)) body ack = next_ack t.seq (length body) ack
ack_for _ body ack = ack

-- A payload: it has to come from a known client.
accept : PacketIndicator → Addr → Bytes → FakeTcpConn → Run (Bytes × Addr)
unfolding find_client set_client ack_for decrypt
accept ind from body c = elim (find_client (string from) c.clients) [
  | none ↦ (err unauthorized, c)
  | some client ↦
      let acked = record client { ack = ack_for ind.transport_layer body client.ack } in
      (
        do contents ← decrypt client.crypt body; ok (contents, from),
        set_client (string from) acked c,
      )
]

-- A packet that is no SYN.
unfoldable pub receive : World → PacketIndicator → Addr → FakeTcpConn → Run (Bytes × Addr)
unfolding payload accept
receive w ind from c = elim (payload w.gopacket ind) [
  | none ↦ (ok ([], from), c)
  | some body ↦ accept ind from body c
]

-- SYN and ACK: the connection is up.
answer : World → PacketIndicator → Bool → FakeTcpConn → Run (Unit {0})
unfolding handshake_ack handshake_synack
answer w ind true c = handshake_ack w ind (record c { is_connected = true; is_reconnected = true })
answer w ind false c = handshake_synack w ind c

syn_or_data : World → PacketIndicator → Addr → Tcp → FakeTcpConn → Run (Bytes × Addr)
unfolding answer receive
syn_or_data w ind from t c =
    if t.syn_flag
    then and_then (answer w ind t.ack_flag c) (λ done d. (ok ([], from), d))
    else receive w ind from c

-- RST makes the connection reconnect, and then SYN is answered.
by_flags : World → PacketIndicator → Addr → Option Layer → FakeTcpConn → Run (Bytes × Addr)
unfolding reconnect syn_or_data
by_flags w ind from (some (Layer.tcp t)) c =
    if t.rst_flag
    then and_then (reconnect w c) (λ done d. syn_or_data w ind from t d)
    else syn_or_data w ind from t c
by_flags w ind from _ c = receive w ind from c

-- The part of `ReadFrom` that handles a packet: the data and the address, and the connection.
unfoldable pub read_from : World → PacketIndicator → FakeTcpConn → Run (Bytes × Addr)
unfolding addr_of by_flags
read_from w ind c =
    and_then (reading (addr_of ind ind.transport_layer) c)
      (λ from d. by_flags w ind from ind.transport_layer d)

-- `addr.(type)`: the address and the port, as a uint16.
destination : Addr → Result (Ip × ℕ)
destination (Addr.tcp_addr ip port) = ok (ip, to_u16 port)
destination (Addr.udp_addr ip port) = ok (ip, to_u16 port)
destination _ = err addr_type

-- The packets for some data.
packets_for : World → FakeTcpConn → ClientIndicator → Ip → ℕ → Bytes → Result (Bytes × List Bytes)
unfolding create_layers create_fragment_packets encrypt
packets_for w c client ip port body = do
  (transport, network, link) ←
      create_layers w.gopacket c.src_port port client.seq client.ack c.conn ip c.id 128
        c.conn.dst_dev.hardware_addr
  contents ← encrypt w.random client.crypt body
  packets ←
      create_fragment_packets w.gopacket (some link) (Layer.ipv4 network) (some transport) contents
        c.mtu
  ok (contents, packets)

-- The numbers move on: the sequence number by the data, the identification by the packets.
count_up : Bytes → ClientIndicator → Bytes → List Bytes → FakeTcpConn → FakeTcpConn
unfolding set_client
count_up key client contents packets c =
    set_client key (record client { seq = add32 client.seq (to_u32 (length contents)) })
      (record c { id = add16 c.id (to_u16 (length packets)) })

write_for : World → Bytes → Bytes → Ip → ℕ → ClientIndicator → FakeTcpConn → Run ℕ
unfolding packets_for write_packets count_up
write_for w key body ip port client c =
    and_then (reading (packets_for w c client ip port body) c) (λ (contents, packets) d.
      and_then (write_packets w packets d)
        (λ done e. (ok (length body), count_up key client contents packets e)))

-- `WriteTo`.
unfoldable pub write_to : World → Bytes → Addr → FakeTcpConn → Run ℕ
unfolding destination find_client write_for
write_to w body to c = and_then (reading (destination to) c) (λ (ip, port) d.
    elim (find_client (string to) d.clients) [
      | none ↦ (err unrecognized, d)
      | some client ↦ write_for w (string to) body ip port client d
    ])
