-- ===== src/Server/Identity.antt =====
-- How the two handlers of cmd/ikago-server/main.go name a packet: the key of `patMap`, the guides
-- of `nat`, and the entry of `nat`; and the accessors that their log lines call.
use ikago.Base.{
  ℕ, suc, Bool, false, not, Bytes, length, Option, none, some, Result, ok, err, deref, ◌>>=◌, ◌>>◌,
  transport_layer_type, ◌==◌, if◌then◌else◌,
}
use ikago.Addr.{Ip, Addr, string}
use ikago.Gopacket.{LayerType, Layer, layer_type}
use ikago.Icmp4.{is_query}
use ikago.Packet.{PacketIndicator, transport_protocol, dst_port}
use ikago.Packet.Nat.{nat_src, nat_dst, nat_protocol, src, dst, size}
use ikago.Server.State.{Quintuple, NatGuide, NatIndicator, Conn}

unfoldable pub quintuple_of : PacketIndicator → Conn → Result Quintuple
unfolding nat_src nat_protocol string
quintuple_of ind conn = do
  source ← nat_src ind
  protocol ← nat_protocol ind
  ok (record { src = string source; dst = string conn.remote_addr; protocol = protocol })

-- Whether a packet is an ICMPv4 error.
unfoldable pub is_error_of : PacketIndicator → Layer → Result Bool
unfolding is_query
is_error_of ind (Layer.icmpv4 l) = do
  i ← deref ind.icmpv4_indicator
  query ← is_query i
  ok (not query)
is_error_of ind _ = ok false

-- The guide by which an answer finds its way back; an ICMPv4 error has none.
unfoldable pub guide_of : Ip → ℕ → PacketIndicator → Layer → Result (Option NatGuide)
unfolding is_query string
guide_of ip value ind (Layer.tcp t) =
    ok (some (record { src = string (Addr.tcp_addr ip value); protocol = LayerType.tcp }))
guide_of ip value ind (Layer.udp u) =
    ok (some (record { src = string (Addr.udp_addr ip value); protocol = LayerType.udp }))
guide_of ip value ind (Layer.icmpv4 l) = do
  i ← deref ind.icmpv4_indicator
  query ← is_query i
  if query
      then ok (
          some
            (record { src = string (Addr.icmp_query_addr ip value); protocol = LayerType.icmpv4 }))
      else ok none
guide_of ip value ind _ = err transport_layer_type

unfoldable pub nat_entry : PacketIndicator → Conn → Result NatIndicator
unfolding nat_src
nat_entry ind conn = do
  source ← nat_src ind
  ok (record { src = conn.remote_addr; emb_src = source; conn = conn })

-- The guide of a packet from the upstream: by the type of its own transport layer.
unfoldable pub upstream_guide : PacketIndicator → Result NatGuide
unfolding nat_dst string layer_type
upstream_guide ind = do
  destination ← nat_dst ind
  l ← deref ind.transport_layer
  ok (record { src = string destination; protocol = layer_type l })

-- What a packet from the upstream keeps alive, by `NATProtocol`.
unfoldable pub alive_value : PacketIndicator → LayerType → Result ℕ
unfolding dst_port
alive_value ind LayerType.tcp = dst_port ind
alive_value ind LayerType.udp = dst_port ind
alive_value ind LayerType.icmpv4 = do i ← deref ind.icmpv4_indicator; ok i.layer.id
alive_value ind _ = err transport_layer_type

-- The log lines behind a written packet. The one with the size is taken where the index of the
-- packet is the packet's own length less 1.
unfoldable pub log_outbound : ℕ → Bytes → PacketIndicator → Result (Unit {0})
unfolding transport_protocol src dst size
log_outbound i packet ind = do
  transport_protocol ind
  src ind
  dst ind
  if suc i == length packet then (do size ind; ok tt) else ok tt

unfoldable pub log_inbound : PacketIndicator → Result (Unit {0})
unfolding transport_protocol src
log_inbound frag = do transport_protocol frag; src frag; ok tt
