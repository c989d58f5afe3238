-- ===== src/Protocol.antt =====
-- `parseIPProtocol` and `parseEthernetType` of internal/pcap/packet.go.
use ikago.Base.{Result, ok, err, ip_protocol, ethernet_type}
use ikago.Gopacket.{LayerType, IpProtocol, EthernetType}

unfoldable pub parse_ip_protocol : IpProtocol → Result LayerType
parse_ip_protocol IpProtocol.tcp = ok LayerType.tcp
parse_ip_protocol IpProtocol.udp = ok LayerType.udp
parse_ip_protocol IpProtocol.icmpv4 = ok LayerType.icmpv4
parse_ip_protocol (IpProtocol.other n) = err ip_protocol

unfoldable pub parse_ethernet_type : EthernetType → Result LayerType
parse_ethernet_type EthernetType.ipv4 = ok LayerType.ipv4
parse_ethernet_type EthernetType.arp = ok LayerType.arp
parse_ethernet_type EthernetType.unset = err ethernet_type
parse_ethernet_type (EthernetType.other n) = err ethernet_type
