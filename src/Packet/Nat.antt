-- ===== src/Packet/Nat.antt =====
-- `NATSrc`, `NATDst`, `NATProtocol`, `Src` and `Dst` of internal/pcap/packet.go, and the payloads.
pub mod Ends
use ikago.Base.{
  ℕ, ◌+◌, Bytes, [], length, Option, none, some, Result, ok, panic, deref, ◌>>=◌, if◌then◌else◌,
}
use ikago.Addr.{Addr}
use ikago.Gopacket.{Gopacket, LayerType, Layer, layer_type}
use ikago.Icmp4.{is_query, emb_src, emb_dst}
use ikago.Packet.{PacketIndicator, src_ip, dst_ip, src_port, dst_port}

-- An ICMPv4 query, or what the caller does with an error.
icmpv4_end : PacketIndicator → Result Addr → Result Addr → Result Addr
icmpv4_end ind query error = do
  i ← deref ind.icmpv4_indicator
  q ← is_query i
  if q then query else error

nat_src_of : PacketIndicator → Layer → Result Addr
unfolding src_ip src_port icmpv4_end is_query emb_src
nat_src_of ind (Layer.tcp t) = do a ← src_ip ind; p ← src_port ind; ok (Addr.tcp_addr a p)
nat_src_of ind (Layer.udp u) = do a ← src_ip ind; p ← src_port ind; ok (Addr.udp_addr a p)
nat_src_of ind (Layer.icmpv4 l) =
    icmpv4_end ind
      (do a ← src_ip ind; i ← deref ind.icmpv4_indicator; ok (Addr.icmp_query_addr a i.layer.id))
      (do i ← deref ind.icmpv4_indicator; emb_src i)
nat_src_of ind _ = panic

unfoldable pub nat_src : PacketIndicator → Result Addr
unfolding nat_src_of
nat_src ind = do l ← deref ind.transport_layer; nat_src_of ind l

nat_dst_of : PacketIndicator → Layer → Result Addr
unfolding dst_ip dst_port icmpv4_end is_query emb_dst
nat_dst_of ind (Layer.tcp t) = do a ← dst_ip ind; p ← dst_port ind; ok (Addr.tcp_addr a p)
nat_dst_of ind (Layer.udp u) = do a ← dst_ip ind; p ← dst_port ind; ok (Addr.udp_addr a p)
nat_dst_of ind (Layer.icmpv4 l) =
    icmpv4_end ind
      (do a ← dst_ip ind; i ← deref ind.icmpv4_indicator; ok (Addr.icmp_query_addr a i.layer.id))
      (do i ← deref ind.icmpv4_indicator; emb_dst i)
nat_dst_of ind _ = panic

unfoldable pub nat_dst : PacketIndicator → Result Addr
unfolding nat_dst_of
nat_dst ind = do l ← deref ind.transport_layer; nat_dst_of ind l

nat_protocol_of : PacketIndicator → Layer → Result LayerType
unfolding is_query layer_type
nat_protocol_of ind (Layer.tcp t) = ok LayerType.tcp
nat_protocol_of ind (Layer.udp u) = ok LayerType.udp
nat_protocol_of ind (Layer.icmpv4 l) = do
  i ← deref ind.icmpv4_indicator
  q ← is_query i
  if q then ok LayerType.icmpv4 else (do t ← deref i.emb_transport; ok (layer_type t))
nat_protocol_of ind _ = panic

unfoldable pub nat_protocol : PacketIndicator → Result LayerType
unfolding nat_protocol_of
nat_protocol ind = do l ← deref ind.transport_layer; nat_protocol_of ind l

src_of : PacketIndicator → Layer → Result Addr
unfolding src_ip src_port icmpv4_end is_query
src_of ind (Layer.tcp t) = do a ← src_ip ind; p ← src_port ind; ok (Addr.tcp_addr a p)
src_of ind (Layer.udp u) = do a ← src_ip ind; p ← src_port ind; ok (Addr.udp_addr a p)
src_of ind (Layer.icmpv4 l) =
    icmpv4_end ind
      (do a ← src_ip ind; i ← deref ind.icmpv4_indicator; ok (Addr.icmp_query_addr a i.layer.id))
      (do a ← src_ip ind; ok (Addr.ip_addr a))
src_of ind _ = panic

-- A packet with no transport layer has the address alone.
unfoldable pub src : PacketIndicator → Result Addr
unfolding src_of src_ip
src ind = elim ind.transport_layer [
  | none ↦ do a ← src_ip ind; ok (Addr.ip_addr a)
  | some l ↦ src_of ind l
]

dst_of : PacketIndicator → Layer → Result Addr
unfolding dst_ip dst_port icmpv4_end is_query
dst_of ind (Layer.tcp t) = do a ← dst_ip ind; p ← dst_port ind; ok (Addr.tcp_addr a p)
dst_of ind (Layer.udp u) = do a ← dst_ip ind; p ← dst_port ind; ok (Addr.udp_addr a p)
dst_of ind (Layer.icmpv4 l) =
    icmpv4_end ind
      (do a ← dst_ip ind; i ← deref ind.icmpv4_indicator; ok (Addr.icmp_query_addr a i.layer.id))
      (do a ← dst_ip ind; ok (Addr.ip_addr a))
dst_of ind _ = panic

unfoldable pub dst : PacketIndicator → Result Addr
unfolding dst_of dst_ip
dst ind = elim ind.transport_layer [
  | none ↦ do a ← dst_ip ind; ok (Addr.ip_addr a)
  | some l ↦ dst_of ind l
]

unfoldable pub payload_of : Gopacket → Layer → Bytes
payload_of g (Layer.ipv4 ip) = ip.payload
payload_of g l = g.layer_payload l

-- `NetworkPayload`: nil with no network layer.
unfoldable pub network_payload : Gopacket → PacketIndicator → Bytes
unfolding payload_of
network_payload g ind = elim ind.network_layer [ none ↦ [] | some l ↦ payload_of g l ]

-- `Payload`: the contents of the application layer; `none` is nil.
unfoldable pub payload : Gopacket → PacketIndicator → Option Bytes
payload g ind = elim ind.application_layer [ none ↦ none | some l ↦ some (g.layer_contents l) ]

-- `MTU` and `Size`.
unfoldable pub mtu : Gopacket → PacketIndicator → Result ℕ
unfolding network_payload
mtu g ind = do
  l ← deref ind.network_layer
  ok (length (g.layer_contents l) + length (network_payload g ind))

unfoldable pub size : PacketIndicator → Result ℕ
size ind = do p ← deref ind.packet; ok (length p.bytes)
