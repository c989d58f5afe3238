-- ===== src/Icmp4.antt =====
-- internal/pcap/icmp4.go: an ICMPv4 layer, with the packet that an ICMPv4 error embeds. An accessor
-- that dereferences nil, or meets a type that it does not know, panics.
pub mod Sound
use ikago.Base.{
  ℕ, Bool, true, false, Bytes, List, [], ◌∷◌, Option, none, some, Result, ok, err, panic, deref,
  ◌>>=◌, ◌>>◌, missing_network_layer, missing_transport_layer, network_layer_type,
  transport_layer_type, icmpv4_type, ◌==◌, if◌then◌else◌,
}
use ikago.Addr.{Ip, Addr}
use ikago.Gopacket.{
  Gopacket, LayerType, Layer, Ipv4, Tcp, Udp, Icmpv4, Icmpv4Type, Packet, layer_type,
}
use ikago.Protocol.{parse_ip_protocol}

pub record Icmpv4Indicator : Type 0 where
  pub layer : Icmpv4
  pub emb_ipv4 : Option Ipv4
  pub emb_transport : Option Layer

-- The two lists of cases that `ParseICMPv4Layer`, `IsQuery` and `IsEmbQuery` each write out:
-- queries, errors, and `none` for a type in neither.
unfoldable pub query_kind : Icmpv4Type → Option Bool
query_kind Icmpv4Type.echo_reply = some true
query_kind Icmpv4Type.echo_request = some true
query_kind Icmpv4Type.router_advertisement = some true
query_kind Icmpv4Type.router_solicitation = some true
query_kind Icmpv4Type.timestamp_request = some true
query_kind Icmpv4Type.timestamp_reply = some true
query_kind Icmpv4Type.info_request = some true
query_kind Icmpv4Type.info_reply = some true
query_kind Icmpv4Type.address_mask_request = some true
query_kind Icmpv4Type.address_mask_reply = some true
query_kind Icmpv4Type.destination_unreachable = some false
query_kind Icmpv4Type.source_quench = some false
query_kind Icmpv4Type.redirect = some false
query_kind Icmpv4Type.time_exceeded = some false
query_kind Icmpv4Type.parameter_problem = some false
query_kind (Icmpv4Type.other n) = none

-- The switch on the embedded transport layer.
emb_supported : Layer → Result Layer
emb_supported (Layer.tcp t) = ok (Layer.tcp t)
emb_supported (Layer.udp u) = ok (Layer.udp u)
emb_supported (Layer.icmpv4 i) = ok (Layer.icmpv4 i)
emb_supported _ = err transport_layer_type

-- The header, then its protocol, then the transport layer.
check_embedded : Layer → Layer → Result (Ipv4 × Layer)
unfolding emb_supported
check_embedded (Layer.ipv4 ip) transport =
    if ip.version == 4
    then (do parse_ip_protocol ip.protocol; t ← emb_supported transport; ok (ip, t))
    else err network_layer_type
check_embedded _ transport = err network_layer_type

-- The layers of the embedded packet.
embedded : List Layer → Result (Ipv4 × Layer)
unfolding check_embedded
embedded [] = err missing_network_layer
embedded (x ∷ []) = err missing_transport_layer
embedded (network ∷ transport ∷ rest) = check_embedded network transport

with_embedded : Icmpv4 → Ipv4 × Layer → Icmpv4Indicator
with_embedded layer (ip, t) = record { layer = layer; emb_ipv4 = some ip; emb_transport = some t }

-- The switch of `ParseICMPv4Layer`.
parse_kind : Gopacket → Icmpv4 → Option Bool → Result Icmpv4Indicator
unfolding embedded with_embedded
parse_kind g layer none = err icmpv4_type
parse_kind g layer (some true) =
    ok (record { layer = layer; emb_ipv4 = none; emb_transport = none })
parse_kind g layer (some false) = do
  found ← embedded (g.new_packet layer.payload LayerType.ipv4).layers
  ok (with_embedded layer found)

-- `ParseICMPv4Layer`.
unfoldable pub parse_icmpv4_layer : Gopacket → Icmpv4 → Result Icmpv4Indicator
unfolding query_kind parse_kind
parse_icmpv4_layer g layer = parse_kind g layer (query_kind layer.type)

-- `NewPureICMPv4Layer`: the type and code, the Id and the sequence number, and nothing else.
unfoldable pub new_pure_icmpv4_layer : Icmpv4Indicator → Icmpv4
new_pure_icmpv4_layer ind = record {
  type = ind.layer.type;
  code = ind.layer.code;
  checksum = 0;
  id = ind.layer.id;
  seq = ind.layer.seq;
  payload = [];
}

or_panic : Option Bool → Result Bool
or_panic none = panic
or_panic (some b) = ok b

-- `IsQuery`.
unfoldable pub is_query : Icmpv4Indicator → Result Bool
unfolding query_kind or_panic
is_query ind = or_panic (query_kind ind.layer.type)

-- `EmbSrcIP` and `EmbDstIP`.
unfoldable pub emb_src_ip : Icmpv4Indicator → Result Ip
emb_src_ip ind = do ip ← deref ind.emb_ipv4; ok ip.src_ip

unfoldable pub emb_dst_ip : Icmpv4Indicator → Result Ip
emb_dst_ip ind = do ip ← deref ind.emb_ipv4; ok ip.dst_ip

-- `EmbTransportProtocol`.
unfoldable pub emb_transport_protocol : Icmpv4Indicator → Result LayerType
unfolding parse_ip_protocol
emb_transport_protocol ind = do
  ip ← deref ind.emb_ipv4
  elim (parse_ip_protocol ip.protocol) [ ok p ↦ ok p | _ ↦ panic ]

-- `EmbTCPLayer`, `EmbUDPLayer` and `EmbICMPv4Layer`: nil where the layer is another.
tcp_of : Layer → Option Tcp
tcp_of (Layer.tcp t) = some t
tcp_of _ = none

udp_of : Layer → Option Udp
udp_of (Layer.udp u) = some u
udp_of _ = none

icmpv4_of : Layer → Option Icmpv4
icmpv4_of (Layer.icmpv4 i) = some i
icmpv4_of _ = none

unfoldable pub emb_tcp_layer : Icmpv4Indicator → Result (Option Tcp)
unfolding tcp_of
emb_tcp_layer ind = do t ← deref ind.emb_transport; ok (tcp_of t)

unfoldable pub emb_udp_layer : Icmpv4Indicator → Result (Option Udp)
unfolding udp_of
emb_udp_layer ind = do t ← deref ind.emb_transport; ok (udp_of t)

unfoldable pub emb_icmpv4_layer : Icmpv4Indicator → Result (Option Icmpv4)
unfolding icmpv4_of
emb_icmpv4_layer ind = do t ← deref ind.emb_transport; ok (icmpv4_of t)

id_of : Layer → Result ℕ
id_of (Layer.icmpv4 i) = ok i.id
id_of _ = panic

src_port_of : Layer → Result ℕ
src_port_of (Layer.tcp t) = ok t.src_port
src_port_of (Layer.udp u) = ok u.src_port
src_port_of _ = panic

dst_port_of : Layer → Result ℕ
dst_port_of (Layer.tcp t) = ok t.dst_port
dst_port_of (Layer.udp u) = ok u.dst_port
dst_port_of _ = panic

-- `EmbId`, `EmbSrcPort` and `EmbDstPort`.
unfoldable pub emb_id : Icmpv4Indicator → Result ℕ
unfolding id_of
emb_id ind = do t ← deref ind.emb_transport; id_of t

unfoldable pub emb_src_port : Icmpv4Indicator → Result ℕ
unfolding src_port_of
emb_src_port ind = do t ← deref ind.emb_transport; src_port_of t

unfoldable pub emb_dst_port : Icmpv4Indicator → Result ℕ
unfolding dst_port_of
emb_dst_port ind = do t ← deref ind.emb_transport; dst_port_of t

-- `IsEmbQuery`.
unfoldable pub is_emb_query : Icmpv4Indicator → Result Bool
unfolding emb_icmpv4_layer query_kind or_panic
is_emb_query ind = do found ← emb_icmpv4_layer ind; i ← deref found; or_panic (query_kind i.type)

-- The address of one end of the embedded packet, by its transport layer.
emb_end : Icmpv4Indicator → Result Ip → Result ℕ → Layer → Result Addr
emb_end ind ip port (Layer.tcp t) = do a ← ip; p ← port; ok (Addr.tcp_addr a p)
emb_end ind ip port (Layer.udp u) = do a ← ip; p ← port; ok (Addr.udp_addr a p)
emb_end ind ip port (Layer.icmpv4 i) = do
  query ← is_emb_query ind
  if query
      then (do a ← ip; id ← emb_id ind; ok (Addr.icmp_query_addr a id))
      else (do a ← ip; ok (Addr.ip_addr a))
emb_end ind ip port _ = panic

-- `EmbSrc` and `EmbDst`: the error travels against the packet that it embeds, so its source is the
-- embedded destination.
unfoldable pub emb_src : Icmpv4Indicator → Result Addr
unfolding emb_end is_query emb_dst_ip emb_dst_port is_emb_query emb_id
emb_src ind = do
  query ← is_query ind
  if query
      then panic
      else (do t ← deref ind.emb_transport; emb_end ind (emb_dst_ip ind) (emb_dst_port ind) t)

unfoldable pub emb_dst : Icmpv4Indicator → Result Addr
unfolding emb_end is_query emb_src_ip emb_src_port is_emb_query emb_id
emb_dst ind = do
  query ← is_query ind
  if query
      then panic
      else (do t ← deref ind.emb_transport; emb_end ind (emb_src_ip ind) (emb_src_port ind) t)
