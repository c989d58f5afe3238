-- ===== src/Server/Outbound.antt =====
-- What `handleListen` of cmd/ikago-server/main.go makes of a client's packet before it changes
-- anything but the distributed ports: the packets for the upstream.
pub mod Source
use ikago.Base.{
  ℕ, ◌≡◌, refl, sym, ap, ◌∙◌, bind-ok, Bytes, List, [], ◌∷◌, Option, none, some, Result, ok, err,
  panic, deref, ◌>>=◌, network_layer_type, transport_layer_type, if◌then◌else◌,
}
use ikago.Addr.{Ip}
use ikago.Gopacket.{Gopacket, Layer, Ipv4, Tcp, Udp, SumsKeep}
use ikago.Device.{need_ip}
use ikago.Icmp4.{Icmpv4Indicator, is_query, is_emb_query, new_pure_icmpv4_layer}
use ikago.Packet.{PacketIndicator}
use ikago.Packet.Nat.{payload}
use ikago.Layers.{serialize, create_link_layer}
use ikago.Fragment.Create.{create_fragment_packets}
use ikago.Server.State.{World}

-- The transport layer that an ICMPv4 error embeds, with the distributed value for its destination.
emb_transport : Gopacket → Icmpv4Indicator → Ipv4 → ℕ → Layer → Result Layer
unfolding is_emb_query
emb_transport g i ip value (Layer.tcp t) = do
  summed ← g.tcp_checksum ip (record t { dst_port = value })
  ok (Layer.tcp summed)
emb_transport g i ip value (Layer.udp u) = do
  summed ← g.udp_checksum ip (record u { dst_port = value })
  ok (Layer.udp summed)
emb_transport g i ip value (Layer.icmpv4 m) = do
  query ← is_emb_query i
  ok (Layer.icmpv4 (if query then record m { id = value } else m))
emb_transport g i ip value _ = err transport_layer_type

-- An ICMPv4 error that embeds the packet as the upstream has seen it.
unfoldable pub new_error : Gopacket → Ip → ℕ → Icmpv4Indicator → Result Layer
unfolding emb_transport new_pure_icmpv4_layer serialize
new_error g up_ip value i = do
  emb ← deref i.emb_ipv4
  t ← deref i.emb_transport
  let ip = record emb { dst_ip = up_ip }
  new ← emb_transport g i ip value t
  body ← serialize g (Layer.ipv4 ip ∷ new ∷ [])
  ok (Layer.icmpv4 (record (new_pure_icmpv4_layer i) { payload = body }))

-- The new transport layer.
new_transport : World → ℕ → PacketIndicator → Layer → Result Layer
unfolding is_query need_ip new_error
new_transport w value ind (Layer.tcp t) = ok (Layer.tcp (record t { src_port = value }))
new_transport w value ind (Layer.udp u) = ok (Layer.udp (record u { src_port = value }))
new_transport w value ind (Layer.icmpv4 l) = do
  i ← deref ind.icmpv4_indicator
  query ← is_query i
  if query
      then ok (Layer.icmpv4 (record i.layer { id = value }))
      else (do up_ip ← need_ip w.up_conn.src_dev; new_error w.gopacket up_ip value i)
new_transport w value ind _ = err transport_layer_type

-- The new network layer.
unfoldable pub new_network : World → PacketIndicator → Result Ipv4
unfolding need_ip
new_network w ind = elim ind.network_layer [
  | none ↦ panic
  | some (Layer.ipv4 ip) ↦ do up_ip ← need_ip w.up_conn.src_dev; ok (record ip { src_ip = up_ip })
  | some _ ↦ err network_layer_type
]

-- The network layer is recorded in the transport layer.
unfoldable pub sum_under : Gopacket → Ipv4 → Layer → Result Layer
sum_under g ip (Layer.tcp t) = do summed ← g.tcp_checksum ip t; ok (Layer.tcp summed)
sum_under g ip (Layer.udp u) = do summed ← g.udp_checksum ip u; ok (Layer.udp summed)
sum_under g ip (Layer.icmpv4 i) = ok (Layer.icmpv4 i)
sum_under g ip _ = err transport_layer_type

-- The transport layer as it is sent; a packet may have none.
unfoldable pub sent_transport : World → ℕ → PacketIndicator → Option Layer → Result (Option Layer)
unfolding new_transport new_network sum_under
sent_transport w value ind none = do ip ← new_network w ind; ok none
sent_transport w value ind (some l) = do
  new ← new_transport w value ind l
  ip ← new_network w ind
  summed ← sum_under w.gopacket ip new
  ok (some summed)

-- `embIndicator.Payload()`, whose nil is an empty slice.
unfoldable pub payload_bytes : Gopacket → PacketIndicator → Bytes
unfolding payload
payload_bytes g ind = elim (payload g ind) [ none ↦ [] | some b ↦ b ]

-- The packets that are written to the upstream.
unfoldable pub outbound : World → ℕ → PacketIndicator → Result (List Bytes)
unfolding sent_transport new_network create_link_layer payload_bytes create_fragment_packets
outbound w value ind = do
  transport ← sent_transport w value ind ind.transport_layer
  ip ← new_network w ind
  link ← create_link_layer w.up_conn w.up_conn.dst_dev.hardware_addr (Layer.ipv4 ip)
  create_fragment_packets w.gopacket (some link) (Layer.ipv4 ip) transport
      (payload_bytes w.gopacket ind) w.fragment

abbrev pub with_pseudo : Ipv4 → Layer → Layer
with_pseudo ip (Layer.tcp t) = Layer.tcp (record t { pseudo = some ip })
with_pseudo ip (Layer.udp u) = Layer.udp (record u { pseudo = some ip })
with_pseudo ip l = l

pub sum_under-ok :
    (g : Gopacket) (ip : Ipv4) (l l' : Layer)
    → SumsKeep g
    → sum_under g ip l ≡ ok l'
    → l' ≡ with_pseudo ip l
unfolding sum_under
sum_under-ok g ip (Layer.tcp t) l' (keep, keep') e =
    let (t', ht, e1) = bind-ok (g.tcp_checksum ip t) _ e in
    let same = keep ip t t' ht in let at : Layer.tcp t' ≡ l' = cc in sym at ∙ ap Layer.tcp same
sum_under-ok g ip (Layer.udp u) l' (keep, keep') e =
    let (u', hu, e1) = bind-ok (g.udp_checksum ip u) _ e in
    let same = keep' ip u u' hu in let at : Layer.udp u' ≡ l' = cc in sym at ∙ ap Layer.udp same
sum_under-ok g ip (Layer.icmpv4 i) l' keeps e = let at : Layer.icmpv4 i ≡ l' = cc in sym at
sum_under-ok g ip _ l' keeps e = cc
