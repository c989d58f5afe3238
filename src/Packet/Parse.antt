-- ===== src/Packet/Parse.antt =====
-- `ParsePacket`, `ParseEmbPacket` and `ParseRawPacket` of internal/pcap/packet.go. A decoded packet
-- and the decoder are gopacket's.
pub mod Sound
pub mod Unknown
use ikago.Base.{
  ℕ, Bool, true, false, Bytes, List, [], ◌∷◌, Option, none, some, Result, ok, err, panic, ◌>>=◌,
  ◌>>◌, missing_link_layer, missing_network_layer, missing_transport_layer, link_layer_type,
  network_layer_type, transport_layer_type, ◌==◌, if◌then◌else◌,
}
use ikago.Gopacket.{Gopacket, LayerType, Layer, Packet, Icmpv4, Dns, IpProtocol, EthernetType}
use ikago.Protocol.{parse_ip_protocol, parse_ethernet_type}
use ikago.Icmp4.{Icmpv4Indicator, parse_icmpv4_layer}
use ikago.Packet.{PacketIndicator, DnsIndicator}

-- `packet.Layer(t)` for the four types that the parser asks for: the first such layer.
is_loopback : Layer → Bool
is_loopback (Layer.loopback l) = true
is_loopback _ = false

is_arp : Layer → Bool
is_arp (Layer.arp a) = true
is_arp _ = false

is_icmpv4 : Layer → Bool
is_icmpv4 (Layer.icmpv4 i) = true
is_icmpv4 _ = false

is_fragment : Layer → Bool
is_fragment (Layer.fragment b) = true
is_fragment _ = false

first_layer : (Layer → Bool) → List Layer → Option Layer
first_layer p [] = none
first_layer p (l ∷ ls) = if p l then some l else first_layer p ls

or_else : Option Layer → Option Layer → Option Layer
or_else none guess = guess
or_else (some l) guess = some l

-- An ARP packet has nothing but its network layer; not even its link layer is kept.
arp_indicator : Layer → PacketIndicator
arp_indicator l = record {
  packet = none;
  link_layer = none;
  network_layer = some l;
  transport_layer = none;
  icmpv4_indicator = none;
  application_layer = none;
  dns_indicator = none;
}

-- The transport layer, guessed to be ICMPv4; with none, the packet has to be a fragment.
choose_transport : Packet → Result (Option Layer)
unfolding or_else first_layer is_icmpv4 is_fragment
choose_transport p = elim (or_else p.transport_layer (first_layer is_icmpv4 p.layers)) [
  | some l ↦ ok (some l)
  | none ↦ elim (first_layer is_fragment p.layers) [
    | none ↦ err missing_transport_layer
    | some f ↦ ok none
  ]
]

check_link : Option Layer → Result (Unit {0})
unfolding parse_ethernet_type
check_link none = ok tt
check_link (some (Layer.loopback l)) = ok tt
check_link (some (Layer.ethernet e)) = do parse_ethernet_type e.ethernet_type; ok tt
check_link (some _) = err link_layer_type

check_network : Layer → Result (Unit {0})
unfolding parse_ip_protocol
check_network (Layer.ipv4 ip) = do parse_ip_protocol ip.protocol; ok tt
check_network (Layer.arp a) = ok tt
check_network _ = err network_layer_type

check_transport : Gopacket → Option Layer → Result (Option Icmpv4Indicator)
check_transport g none = ok none
check_transport g (some (Layer.tcp t)) = ok none
check_transport g (some (Layer.udp u)) = ok none
check_transport g (some (Layer.icmpv4 i)) = do ind ← parse_icmpv4_layer g i; ok (some ind)
check_transport g (some _) = err transport_layer_type

parse_dns : Option Layer → Option DnsIndicator
parse_dns (some (Layer.dns d)) = some (record { layer = d })
parse_dns _ = none

-- The rest of `ParsePacket`, once the layers are chosen.
finish : Gopacket → Packet → Option Layer → Layer → Option Layer → Result PacketIndicator
unfolding check_link check_network check_transport parse_dns
finish g p link network transport = do
  check_link link
  check_network network
  icmp ← check_transport g transport
  ok (record {
    packet = some p;
    link_layer = link;
    network_layer = some network;
    transport_layer = transport;
    icmpv4_indicator = icmp;
    application_layer = p.application_layer;
    dns_indicator = parse_dns p.application_layer;
  })

unfoldable pub parse_packet : Gopacket → Packet → Result PacketIndicator
unfolding first_layer is_loopback is_arp or_else arp_indicator choose_transport finish
parse_packet g p = elim p.network_layer [
  | none ↦ elim (first_layer is_arp p.layers) [
    | none ↦ err missing_network_layer
    | some l ↦ ok (arp_indicator l)
  ]
  | some network ↦ do
    transport ← choose_transport p
    finish g p (or_else p.link_layer (first_layer is_loopback p.layers)) network transport
]

-- Only an IPv4 header of version 4 is embedded.
check_version : Option Layer → Result (Unit {0})
check_version none = err missing_network_layer
check_version (some (Layer.ipv4 ip)) = if ip.version == 4 then ok tt else err network_layer_type
check_version (some _) = err network_layer_type

unfoldable pub parse_emb_packet : Gopacket → Bytes → Result PacketIndicator
unfolding check_version parse_packet
parse_emb_packet g contents = do
  let packet = g.new_packet contents LayerType.ipv4
  check_version packet.network_layer
  parse_packet g packet

only_ethernet : Packet → Layer → Result Packet
only_ethernet p (Layer.ethernet e) = ok p
only_ethernet p _ = err link_layer_type

-- The guess of an Ethernet frame, then of a loopback frame.
unfoldable pub parse_raw_packet : Gopacket → Bytes → Result Packet
unfolding only_ethernet first_layer is_loopback
parse_raw_packet g contents =
    let packet = g.new_packet contents LayerType.ethernet in
    let looped = g.new_packet contents LayerType.loopback in
    elim packet.link_layer [
      | none ↦ elim (first_layer is_loopback looped.layers) [
        | none ↦ err missing_link_layer
        | some l ↦ ok looped
      ]
      | some link ↦ only_ethernet packet link
    ]
