-- ===== src/Server/Inbound.antt =====
-- What `handleUpstream` of cmd/ikago-server/main.go makes of each packet from the upstream: the
-- bytes for the client. A type assertion of the source's address panics at another type.
pub mod Destination
use ikago.Base.{
  ℕ, Bytes, List, [], ◌∷◌, Option, none, some, Result, ok, err, panic, deref, ◌>>=◌,
  network_layer_type, transport_layer_type, if◌then◌else◌,
}
use ikago.Addr.{Addr}
use ikago.Gopacket.{Gopacket, Layer, Ipv4}
use ikago.Icmp4.{Icmpv4Indicator, is_query, is_emb_query, new_pure_icmpv4_layer}
use ikago.Packet.{PacketIndicator}
use ikago.Layers.{serialize}
use ikago.Server.State.{NatIndicator, emb_src_ip}
use ikago.Server.Outbound.{sum_under, payload_bytes}

-- `ni.embSrc.(*net.TCPAddr).Port`, and the other two.
unfoldable pub tcp_port : Addr → Result ℕ
tcp_port (Addr.tcp_addr ip port) = ok port
tcp_port _ = panic

unfoldable pub udp_port : Addr → Result ℕ
udp_port (Addr.udp_addr ip port) = ok port
udp_port _ = panic

unfoldable pub query_id : Addr → Result ℕ
query_id (Addr.icmp_query_addr ip id) = ok id
query_id _ = panic

-- The transport layer that an ICMPv4 error embeds, with the client's source for its own.
emb_transport : Gopacket → NatIndicator → Icmpv4Indicator → Ipv4 → Layer → Result Layer
unfolding is_emb_query tcp_port udp_port query_id
emb_transport g ni i ip (Layer.tcp t) = do
  port ← tcp_port ni.emb_src
  summed ← g.tcp_checksum ip (record t { src_port = port })
  ok (Layer.tcp summed)
emb_transport g ni i ip (Layer.udp u) = do
  port ← udp_port ni.emb_src
  summed ← g.udp_checksum ip (record u { src_port = port })
  ok (Layer.udp summed)
emb_transport g ni i ip (Layer.icmpv4 m) = do
  query ← is_emb_query i
  if query
      then (do id ← query_id ni.emb_src; ok (Layer.icmpv4 (record m { id = id })))
      else ok (Layer.icmpv4 m)
emb_transport g ni i ip _ = err transport_layer_type

-- An ICMPv4 error that embeds the packet as the client has sent it.
unfoldable pub client_error : Gopacket → NatIndicator → Icmpv4Indicator → Result Layer
unfolding emb_transport emb_src_ip new_pure_icmpv4_layer serialize
client_error g ni i = do
  emb ← deref i.emb_ipv4
  t ← deref i.emb_transport
  let ip = record emb { src_ip = emb_src_ip ni }
  new ← emb_transport g ni i ip t
  body ← serialize g (Layer.ipv4 ip ∷ new ∷ [])
  ok (Layer.icmpv4 (record (new_pure_icmpv4_layer i) { payload = body }))

-- The embedded transport layer.
client_transport : Gopacket → NatIndicator → PacketIndicator → Layer → Result Layer
unfolding is_query tcp_port udp_port query_id client_error
client_transport g ni frag (Layer.tcp t) = do
  port ← tcp_port ni.emb_src
  ok (Layer.tcp (record t { dst_port = port }))
client_transport g ni frag (Layer.udp u) = do
  port ← udp_port ni.emb_src
  ok (Layer.udp (record u { dst_port = port }))
client_transport g ni frag (Layer.icmpv4 l) = do
  i ← deref frag.icmpv4_indicator
  query ← is_query i
  if query
      then (do id ← query_id ni.emb_src; ok (Layer.icmpv4 (record i.layer { id = id })))
      else client_error g ni i
client_transport g ni frag _ = err transport_layer_type

-- The embedded network layer.
unfoldable pub client_network : NatIndicator → PacketIndicator → Result Ipv4
unfolding emb_src_ip
client_network ni frag = elim frag.network_layer [
  | none ↦ panic
  | some (Layer.ipv4 ip) ↦ ok (record ip { dst_ip = emb_src_ip ni })
  | some _ ↦ err network_layer_type
]

-- The layers that are serialized for the client.
unfoldable pub client_layers :
    Gopacket → NatIndicator → PacketIndicator → Option Layer → Result (List Layer)
unfolding client_transport client_network sum_under payload_bytes
client_layers g ni frag none = do
  ip ← client_network ni frag
  ok (Layer.ipv4 ip ∷ Layer.payload (payload_bytes g frag) ∷ [])
client_layers g ni frag (some l) = do
  new ← client_transport g ni frag l
  ip ← client_network ni frag
  summed ← sum_under g ip new
  ok (Layer.ipv4 ip ∷ summed ∷ Layer.payload (payload_bytes g frag) ∷ [])

-- The bytes that are written to the client.
unfoldable pub inbound : Gopacket → NatIndicator → PacketIndicator → Result Bytes
unfolding client_layers serialize
inbound g ni frag = do ls ← client_layers g ni frag frag.transport_layer; serialize g ls
