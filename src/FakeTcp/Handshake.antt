-- ===== src/FakeTcp/Handshake.antt =====
-- The three handshakes of a FakeTCP connection, and `Reconnect`.
pub mod Numbers
use ikago.Base.{
  ℕ, Bool, true, false, Bytes, Option, none, some, Result, ok, err, panic, ◌>>=◌, deref, add32,
  unauthorized,
}
use ikago.Addr.{Ip, Addr, string}
use ikago.Gopacket.{Tcp}
use ikago.Packet.{PacketIndicator, tcp_layer, src_ip, src_port, dst_port, src_hardware_addr}
use ikago.Packet.Nat.{src}
use ikago.FakeTcp.{
  World, ClientIndicator, FakeTcpConn, Run, and_then, reading, find_client, set_client,
  client_or_new, Target, shake,
}

-- `handshakeSYN`, with the remote address at hand: SYN, and the sequence number moves on.
syn_to : World → Ip → ℕ → FakeTcpConn → Run (Unit {0})
unfolding shake set_client client_or_new
syn_to w ip port c =
    let key = string (Addr.tcp_addr ip port) in
    let client = client_or_new key c in
    let target : Target = record {
      src_port = c.src_port;
      dst_port = port;
      dst_ip = ip;
      hop = 128;
      mac = c.conn.dst_dev.hardware_addr;
    } in
    and_then (shake w target client true false (set_client key client c))
      (λ done d. (ok tt, set_client key (record client { seq = add32 client.seq 1 }) d))

-- `handshakeSYN`. A connection without a remote address panics.
unfoldable pub handshake_syn : World → FakeTcpConn → Run (Unit {0})
unfolding syn_to
handshake_syn w c = elim c.dst_addr [ none ↦ (panic, c) | some (ip, port) ↦ syn_to w ip port c ]

-- The answer to a packet goes back to its source.
answer_target : PacketIndicator → ℕ → Result Target
unfolding dst_port src_port src_ip src_hardware_addr
answer_target ind hop = do
  from ← dst_port ind
  to ← src_port ind
  ip ← src_ip ind
  mac ← src_hardware_addr ind
  ok (record { src_port = from; dst_port = to; dst_ip = ip; hop = hop; mac = mac })

-- The text of the packet's source.
source_key : PacketIndicator → Result Bytes
unfolding src
source_key ind = do a ← src ind; ok (string a)

-- What is read of the packet before anything changes.
segment_of : PacketIndicator → ℕ → Result (Bytes × Tcp × Target)
unfolding source_key tcp_layer answer_target
segment_of ind hop = do
  key ← source_key ind
  found ← tcp_layer ind
  t ← deref found
  target ← answer_target ind hop
  ok (key, t, target)

-- `handshakeSYNACK`: the packet's sequence number is acknowledged with SYN and ACK.
synack_to : World → Bytes → Tcp → Target → FakeTcpConn → Run (Unit {0})
unfolding shake set_client client_or_new
synack_to w key t target c =
    let client = record (client_or_new key c) { ack = add32 t.seq 1 } in
    and_then (shake w target client true true (set_client key client c))
      (λ done d. (ok tt, set_client key (record client { seq = add32 client.seq 1 }) d))

unfoldable pub handshake_synack : World → PacketIndicator → FakeTcpConn → Run (Unit {0})
unfolding segment_of synack_to
handshake_synack w ind c =
    and_then (reading (segment_of ind 64) c) (λ (key, t, target) d. synack_to w key t target d)

-- `handshakeACK`: only a client that is known is answered.
ack_to : World → PacketIndicator → Bytes → FakeTcpConn → Run (Unit {0})
unfolding shake set_client find_client segment_of
ack_to w ind key c = elim (find_client key c.clients) [
  | none ↦ (err unauthorized, c)
  | some known ↦ and_then (reading (segment_of ind 128) c) (λ (same, t, target) d.
      let client = record known { ack = add32 t.seq 1 } in
      shake w target client false true (set_client key client d))
]

unfoldable pub handshake_ack : World → PacketIndicator → FakeTcpConn → Run (Unit {0})
unfolding source_key ack_to
handshake_ack w ind c = and_then (reading (source_key ind) c) (λ key d. ack_to w ind key d)

-- `Reconnect`.
unfoldable pub reconnect : World → FakeTcpConn → Run (Unit {0})
unfolding handshake_syn
reconnect w c = handshake_syn w (record c { is_reconnected = false })
