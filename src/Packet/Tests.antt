-- ===== src/Packet/Tests.antt =====
-- Packets through the parser and the NAT accessors.
use ikago.Base.{none, some, ok, ◌≡◌, ◌↔◌, refl, [], ◌∷◌}
use ikago.Addr.{Addr, string}
use ikago.Addr.Text.{endpoint, string-injective}
use ikago.Gopacket.{
  Gopacket, Layer, Ethernet, EthernetType, Ipv4, IpProtocol, Icmpv4, Icmpv4Type, Packet,
}
use ikago.Packet.{PacketIndicator}
use ikago.Packet.Nat.{nat_src, src, dst}
use ikago.Packet.Parse.{parse_packet}
use ikago.Packet.Parse.Sound.{IsSound, parse_packet-IsSound}
use ikago.Packet.Safety.{CarriesUnknown, NatReady, parse_packet-NatReady, parse_packet-src}
use ikago.Samples.{blank, console_ip, ipv4_header, udp_header, udp_packet, icmpv4_header}

string-injective_example :
    (string (Addr.tcp_addr console_ip 80) ≡ string (Addr.udp_addr console_ip 80))
    ↔ (endpoint (Addr.tcp_addr console_ip 80) ≡ endpoint (Addr.udp_addr console_ip 80))
string-injective_example =
    string-injective (Addr.tcp_addr console_ip 80) (Addr.udp_addr console_ip 80)

abbrev udp_indicator : PacketIndicator
udp_indicator = record {
  packet = some udp_packet;
  link_layer = none;
  network_layer = some (Layer.ipv4 ipv4_header);
  transport_layer = some (Layer.udp udp_header);
  icmpv4_indicator = none;
  application_layer = none;
  dns_indicator = none;
}

udp_parses : parse_packet blank udp_packet ≡ ok udp_indicator
unfolding parse_packet
udp_parses = refl

udp_source : nat_src udp_indicator ≡ ok (Addr.udp_addr console_ip 5000)
unfolding nat_src
udp_source = refl

parse_packet-IsSound_example : IsSound udp_indicator
parse_packet-IsSound_example = parse_packet-IsSound blank udp_packet udp_indicator udp_parses

udp_carries_nothing : ¬ CarriesUnknown udp_indicator
udp_carries_nothing (CarriesUnknown.carries i h u) = cc

parse_packet-NatReady_example : NatReady udp_indicator
parse_packet-NatReady_example =
    parse_packet-NatReady blank udp_packet udp_indicator udp_parses (λ e. cc) udp_carries_nothing

parse_packet-src_example : (x y : Addr) × (src udp_indicator ≡ ok x) × (dst udp_indicator ≡ ok y)
parse_packet-src_example = parse_packet-src blank udp_packet udp_indicator udp_parses

-- A time-exceeded message about an ICMPv4 message of type 30, in a frame.
abbrev icmpv4_ip : Ipv4
icmpv4_ip = record ipv4_header { protocol = IpProtocol.icmpv4 }

abbrev strange_message : Icmpv4
strange_message = icmpv4_header (Icmpv4Type.other 30)

abbrev decoding : Gopacket
decoding = record blank {
  new_packet = λ b t. record udp_packet {
    layers = Layer.ipv4 icmpv4_ip ∷ Layer.icmpv4 strange_message ∷ [];
  };
}

abbrev strange_frame : Ethernet
strange_frame = record { src_mac = []; dst_mac = []; ethernet_type = EthernetType.ipv4 }

abbrev strange : Packet
strange = record udp_packet {
  link_layer = some (Layer.ethernet strange_frame);
  network_layer = some (Layer.ipv4 icmpv4_ip);
  transport_layer = some (Layer.icmpv4 (icmpv4_header Icmpv4Type.time_exceeded));
}
