-- ===== src/Packet/Parse/Unknown.antt =====
-- A packet that `ParsePacket` accepts, and at which the NAT accessors panic.
use ikago.Base.{ℕ, List, ◌∷◌, some, ◌≡◌}
use ikago.Gopacket.{
  Gopacket, LayerType, Layer, Ethernet, EthernetType, Ipv4, IpProtocol, Icmpv4, Icmpv4Type, Packet,
}
use ikago.Icmp4.{Icmpv4Indicator}
use ikago.Icmp4.Sound.{IsError}
use ikago.Packet.{PacketIndicator}
use ikago.Packet.Parse.{parse_dns}

-- An Ethernet frame with an ICMPv4 error about an ICMPv4 message of a type that the code does not
-- list.
pub record AboutUnknown (g : Gopacket) (p : Packet) : Type 0 where
  pub frame : Ethernet
  pub linked : p.link_layer ≡ some (Layer.ethernet frame)
  pub frame_type : frame.ethernet_type ≡ EthernetType.ipv4
  pub ip : Ipv4
  pub network : p.network_layer ≡ some (Layer.ipv4 ip)
  pub protocol : ip.protocol ≡ IpProtocol.icmpv4
  pub error : Icmpv4
  pub transport : p.transport_layer ≡ some (Layer.icmpv4 error)
  pub is_error : IsError error.type
  pub emb_ip : Ipv4
  pub message : Icmpv4
  pub rest : List Layer
  pub embedded :
      (g.new_packet error.payload LayerType.ipv4).layers
      ≡ Layer.ipv4 emb_ip ∷ Layer.icmpv4 message ∷ rest
  pub emb_version : emb_ip.version ≡ 4
  pub emb_protocol : emb_ip.protocol ≡ IpProtocol.icmpv4
  pub number : ℕ
  pub unlisted : message.type ≡ Icmpv4Type.other number

-- The indicator of the error, and of the packet.
carried : {g : Gopacket} {p : Packet} → AboutUnknown g p → Icmpv4Indicator
carried s = record {
  layer = s.error;
  emb_ipv4 = some s.emb_ip;
  emb_transport = some (Layer.icmpv4 s.message);
}

indicator : {g : Gopacket} {p : Packet} → AboutUnknown g p → PacketIndicator
unfolding carried parse_dns
indicator {p} s = record {
  packet = some p;
  link_layer = some (Layer.ethernet s.frame);
  network_layer = some (Layer.ipv4 s.ip);
  transport_layer = some (Layer.icmpv4 s.error);
  icmpv4_indicator = some (carried s);
  application_layer = p.application_layer;
  dns_indicator = parse_dns p.application_layer;
}
