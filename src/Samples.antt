-- ===== src/Samples.antt =====
-- Sample layers and packets for the tests, and a decoder that decodes nothing.
use ikago.Base.{ℕ, false, Bytes, List, [], ◌∷◌, ◌++◌, replicate, none, some, ok}
use ikago.Addr.{Ip}
use ikago.Packet.{PacketIndicator}
use ikago.Gopacket.{Gopacket, Packet, Layer, Ipv4, Tcp, Udp, Icmpv4, Icmpv4Type, IpProtocol}

abbrev pub console_ip : Ip
console_ip = record { a = 192; b = 168; c = 1; d = 7 }

abbrev pub game_ip : Ip
game_ip = record { a = 203; b = 0; c = 113; d = 9 }

abbrev pub server_ip : Ip
server_ip = record { a = 198; b = 51; c = 100; d = 4 }

abbrev pub empty_packet : Packet
empty_packet = record {
  layers = [];
  link_layer = none;
  network_layer = none;
  transport_layer = none;
  application_layer = none;
  bytes = [];
}

abbrev pub blank : Gopacket
blank = record {
  serialize_layers = λ fix ls. ok [];
  new_packet = λ b t. empty_packet;
  layer_contents = λ l. [];
  layer_payload = λ l. [];
  tcp_checksum = λ ip t. ok (record t { pseudo = some ip });
  tcp_checksum_ipv6 = λ b t. ok t;
  udp_checksum = λ ip u. ok (record u { pseudo = some ip });
}

abbrev pub ipv4_header : Ipv4
ipv4_header = record {
  version = 4;
  ihl = 5;
  tos = 0;
  len = 0;
  id = 7;
  evil = false;
  dont_fragment = false;
  more_fragments = false;
  frag_offset = 0;
  ttl = 64;
  protocol = IpProtocol.udp;
  checksum = 0;
  src_ip = console_ip;
  dst_ip = game_ip;
  options = [];
  contents = [];
  payload = [];
}

abbrev pub udp_header : Udp
udp_header = record { src_port = 5000; dst_port = 53; len = 0; checksum = 0; pseudo = none }

abbrev pub tcp_header : Tcp
tcp_header = record {
  src_port = 5000;
  dst_port = 80;
  seq = 1;
  ack = 1;
  data_offset = 5;
  fin_flag = false;
  syn_flag = false;
  rst_flag = false;
  psh_flag = false;
  ack_flag = false;
  window = 65535;
  checksum = 0;
  urgent = 0;
  options = [];
  pseudo = none;
}

abbrev pub icmpv4_header : Icmpv4Type → Icmpv4
icmpv4_header t = record { type = t; code = 0; checksum = 0; id = 9; seq = 1; payload = [] }

abbrev pub udp_packet : Packet
udp_packet = record {
  layers = Layer.ipv4 ipv4_header ∷ Layer.udp udp_header ∷ [];
  link_layer = none;
  network_layer = some (Layer.ipv4 ipv4_header);
  transport_layer = some (Layer.udp udp_header);
  application_layer = none;
  bytes = [];
}

-- Headers of zeros in their usual lengths, in front of the payload.
abbrev pub flat_bytes : List Layer → Bytes
flat_bytes [] = []
flat_bytes (Layer.ipv4 ip ∷ ls) = replicate 20 0 ++ flat_bytes ls
flat_bytes (Layer.tcp t ∷ ls) = replicate 20 0 ++ flat_bytes ls
flat_bytes (Layer.udp u ∷ ls) = replicate 8 0 ++ flat_bytes ls
flat_bytes (Layer.payload b ∷ ls) = b ++ flat_bytes ls
flat_bytes (l ∷ ls) = flat_bytes ls

abbrev pub flat : Gopacket
flat = record blank { serialize_layers = λ fix ls. ok (flat_bytes ls) }

-- A packet that is nothing but its IPv4 layer.
abbrev pub fragment_of : Ipv4 → PacketIndicator
fragment_of ip = record {
  packet = some empty_packet;
  link_layer = none;
  network_layer = some (Layer.ipv4 ip);
  transport_layer = none;
  icmpv4_indicator = none;
  application_layer = none;
  dns_indicator = none;
}

-- A decoder of packets whose first byte is their length.
abbrev pub header_of : ℕ → Ipv4
header_of n = record ipv4_header { len = n }

abbrev pub counted_packet : Bytes → Packet
counted_packet [] = empty_packet
counted_packet (n ∷ rest) = record udp_packet { network_layer = some (Layer.ipv4 (header_of n)) }

abbrev pub counting : Gopacket
counting = record blank { new_packet = λ b t. counted_packet b }
