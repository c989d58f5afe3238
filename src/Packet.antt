-- ===== src/Packet.antt =====
-- internal/pcap/packet.go and dns.go: what a parsed packet is, its accessors, and the endpoints
-- that NAT works with. A pointer or an interface that may be nil is an option, and its dereference
-- panics; so does an accessor at a layer that it does not support.
pub mod Parse
pub mod Safety
pub mod Nat
mod Tests
use ikago.Base.{
  ℕ, Bool, true, false, not, ◌||◌, ◌+◌, Bytes, List, [], ◌∷◌, length, Option, none, some, Result,
  ok, panic, deref, ◌>>=◌, ◌==◌, if◌then◌else◌,
}
use ikago.Addr.{Ip, Addr}
use ikago.Gopacket.{
  Gopacket, LayerType, Layer, Ipv4, Arp, Tcp, Udp, Ethernet, Packet, Dns, DnsAnswer, layer_type,
}
use ikago.Protocol.{parse_ip_protocol}
use ikago.Icmp4.{Icmpv4Indicator, is_query, emb_src, emb_dst}

pub record DnsIndicator : Type 0 where
  pub layer : Dns

-- `IsResponse`.
unfoldable pub is_response : DnsIndicator → Bool
is_response ind = ind.layer.qr

first_name : List DnsAnswer → Bytes
first_name [] = []
first_name (a ∷ rest) = a.name

answer_ips : List DnsAnswer → List Ip
answer_ips [] = []
answer_ips (a ∷ rest) = elim a.ip [ none ↦ answer_ips rest | some ip ↦ ip ∷ answer_ips rest ]

-- `Answers`: the name of the first answer, and the IPv4 addresses of all.
unfoldable pub answers : DnsIndicator → Bytes × List Ip
unfolding first_name answer_ips
answers ind = (first_name ind.layer.answers, answer_ips ind.layer.answers)

pub record PacketIndicator : Type 0 where
  pub packet : Option Packet
  pub link_layer : Option Layer
  pub network_layer : Option Layer
  pub transport_layer : Option Layer
  pub icmpv4_indicator : Option Icmpv4Indicator
  pub application_layer : Option Layer
  pub dns_indicator : Option DnsIndicator

-- `SrcHardwareAddr` and `DstHardwareAddr`: nil at a loopback layer.
src_mac_of : Layer → Result Bytes
src_mac_of (Layer.loopback l) = ok []
src_mac_of (Layer.ethernet e) = ok e.src_mac
src_mac_of _ = panic

unfoldable pub src_hardware_addr : PacketIndicator → Result Bytes
unfolding src_mac_of
src_hardware_addr ind = do l ← deref ind.link_layer; src_mac_of l

dst_mac_of : Layer → Result Bytes
dst_mac_of (Layer.loopback l) = ok []
dst_mac_of (Layer.ethernet e) = ok e.dst_mac
dst_mac_of _ = panic

unfoldable pub dst_hardware_addr : PacketIndicator → Result Bytes
unfolding dst_mac_of
dst_hardware_addr ind = do l ← deref ind.link_layer; dst_mac_of l

-- `IPv4Layer` and `ARPLayer`: nil where the layer is another.
ipv4_of : Layer → Option Ipv4
ipv4_of (Layer.ipv4 ip) = some ip
ipv4_of _ = none

arp_of : Layer → Option Arp
arp_of (Layer.arp a) = some a
arp_of _ = none

unfoldable pub ipv4_layer : PacketIndicator → Result (Option Ipv4)
unfolding ipv4_of
ipv4_layer ind = do l ← deref ind.network_layer; ok (ipv4_of l)

unfoldable pub arp_layer : PacketIndicator → Result (Option Arp)
unfolding arp_of
arp_layer ind = do l ← deref ind.network_layer; ok (arp_of l)

-- `SrcIP` and `DstIP`.
src_ip_of : Layer → Result Ip
src_ip_of (Layer.ipv4 ip) = ok ip.src_ip
src_ip_of (Layer.arp a) = ok a.source_prot_address
src_ip_of _ = panic

unfoldable pub src_ip : PacketIndicator → Result Ip
unfolding src_ip_of
src_ip ind = do l ← deref ind.network_layer; src_ip_of l

dst_ip_of : Layer → Result Ip
dst_ip_of (Layer.ipv4 ip) = ok ip.dst_ip
dst_ip_of (Layer.arp a) = ok a.dst_prot_address
dst_ip_of _ = panic

unfoldable pub dst_ip : PacketIndicator → Result Ip
unfolding dst_ip_of
dst_ip ind = do l ← deref ind.network_layer; dst_ip_of l

-- The IPv4 layer, where any other network layer panics.
only_ipv4 : Layer → Result Ipv4
only_ipv4 (Layer.ipv4 ip) = ok ip
only_ipv4 _ = panic

unfoldable pub need_ipv4 : PacketIndicator → Result Ipv4
unfolding only_ipv4
need_ipv4 ind = do l ← deref ind.network_layer; only_ipv4 l

-- `TTL`, `NetworkId`, `IsFrag`, `FragOffset` and `MoreFragments`.
unfoldable pub ttl : PacketIndicator → Result ℕ
unfolding need_ipv4
ttl ind = do ip ← need_ipv4 ind; ok ip.ttl

unfoldable pub network_id : PacketIndicator → Result ℕ
unfolding need_ipv4
network_id ind = do ip ← need_ipv4 ind; ok ip.id

unfoldable pub is_frag : PacketIndicator → Result Bool
unfolding need_ipv4
is_frag ind = do
  ip ← need_ipv4 ind
  ok (if ip.more_fragments then true else not (ip.frag_offset == 0))

unfoldable pub frag_offset : PacketIndicator → Result ℕ
unfolding need_ipv4
frag_offset ind = do ip ← need_ipv4 ind; ok ip.frag_offset

unfoldable pub more_fragments : PacketIndicator → Result Bool
unfolding need_ipv4
more_fragments ind = do ip ← need_ipv4 ind; ok ip.more_fragments

-- `TransportProtocol`.
unfoldable pub transport_protocol : PacketIndicator → Result LayerType
unfolding need_ipv4 parse_ip_protocol
transport_protocol ind = do
  ip ← need_ipv4 ind
  elim (parse_ip_protocol ip.protocol) [ ok p ↦ ok p | _ ↦ panic ]

-- `TCPLayer` and `UDPLayer`: nil where the layer is another.
tcp_of : Layer → Option Tcp
tcp_of (Layer.tcp t) = some t
tcp_of _ = none

udp_of : Layer → Option Udp
udp_of (Layer.udp u) = some u
udp_of _ = none

unfoldable pub tcp_layer : PacketIndicator → Result (Option Tcp)
unfolding tcp_of
tcp_layer ind = do l ← deref ind.transport_layer; ok (tcp_of l)

unfoldable pub udp_layer : PacketIndicator → Result (Option Udp)
unfolding udp_of
udp_layer ind = do l ← deref ind.transport_layer; ok (udp_of l)

-- `SrcPort` and `DstPort`.
src_port_of : Layer → Result ℕ
src_port_of (Layer.tcp t) = ok t.src_port
src_port_of (Layer.udp u) = ok u.src_port
src_port_of _ = panic

unfoldable pub src_port : PacketIndicator → Result ℕ
unfolding src_port_of
src_port ind = do l ← deref ind.transport_layer; src_port_of l

dst_port_of : Layer → Result ℕ
dst_port_of (Layer.tcp t) = ok t.dst_port
dst_port_of (Layer.udp u) = ok u.dst_port
dst_port_of _ = panic

unfoldable pub dst_port : PacketIndicator → Result ℕ
unfolding dst_port_of
dst_port ind = do l ← deref ind.transport_layer; dst_port_of l

-- `IsACK`, `IsRST`, `IsSYN` and `IsFIN`.
only_tcp : Layer → Result Tcp
only_tcp (Layer.tcp t) = ok t
only_tcp _ = panic

unfoldable pub need_tcp : PacketIndicator → Result Tcp
unfolding only_tcp
need_tcp ind = do l ← deref ind.transport_layer; only_tcp l

unfoldable pub is_ack : PacketIndicator → Result Bool
unfolding need_tcp
is_ack ind = do t ← need_tcp ind; ok t.ack_flag

unfoldable pub is_rst : PacketIndicator → Result Bool
unfolding need_tcp
is_rst ind = do t ← need_tcp ind; ok t.rst_flag

unfoldable pub is_syn : PacketIndicator → Result Bool
unfolding need_tcp
is_syn ind = do t ← need_tcp ind; ok t.syn_flag

unfoldable pub is_fin : PacketIndicator → Result Bool
unfolding need_tcp
is_fin ind = do t ← need_tcp ind; ok t.fin_flag
