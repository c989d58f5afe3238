-- ===== src/Gopacket.antt =====
-- The part of github.com/google/gopacket that the program reads and builds, as data: layers with
-- the fields that the source names, and the view of a decoded packet. The library's own code is not
-- in the repository: what it computes is the record `Gopacket`, a parameter of everything below.
use ikago.Base.{ℕ, Bool, Bytes, List, Option, some, Result, ◌≡◌, ok}
use ikago.Addr.{Ip}

-- gopacket.LayerType: the values that the program tests for, and the others.
pub data LayerType : Type 0 where
  loopback ethernet arp ipv4 ipv6 tcp udp icmpv4 dns fragment payload : LayerType
  zero : LayerType
  other : ℕ → LayerType

-- layers.IPProtocol, layers.EthernetType, layers.ICMPv4TypeCode's type.
pub data IpProtocol : Type 0 where
  tcp udp icmpv4 : IpProtocol
  other : ℕ → IpProtocol

pub data EthernetType : Type 0 where
  unset ipv4 arp : EthernetType
  other : ℕ → EthernetType

pub data Icmpv4Type : Type 0 where
  echo_reply echo_request router_advertisement router_solicitation : Icmpv4Type
  timestamp_request timestamp_reply info_request info_reply : Icmpv4Type
  address_mask_request address_mask_reply : Icmpv4Type
  destination_unreachable source_quench redirect time_exceeded parameter_problem : Icmpv4Type
  other : ℕ → Icmpv4Type

pub record Loopback : Type 0 where
  pub is_ipv4 : Bool

pub record Ethernet : Type 0 where
  pub src_mac : Bytes
  pub dst_mac : Bytes
  pub ethernet_type : EthernetType

pub record Arp : Type 0 where
  pub addr_type : ℕ
  pub protocol : EthernetType
  pub hw_address_size : ℕ
  pub prot_address_size : ℕ
  pub operation : ℕ
  pub source_hw_address : Bytes
  pub source_prot_address : Ip
  pub dst_hw_address : Bytes
  pub dst_prot_address : Ip

-- `Flags` is its three bits.
pub record Ipv4 : Type 0 where
  pub version : ℕ
  pub ihl : ℕ
  pub tos : ℕ
  pub len : ℕ
  pub id : ℕ
  pub evil : Bool
  pub dont_fragment : Bool
  pub more_fragments : Bool
  pub frag_offset : ℕ
  pub ttl : ℕ
  pub protocol : IpProtocol
  pub checksum : ℕ
  pub src_ip : Ip
  pub dst_ip : Ip
  pub options : Bytes
  pub contents : Bytes
  pub payload : Bytes

-- `pseudo` is the network layer that SetNetworkLayerForChecksum has recorded.
pub record Tcp : Type 0 where
  pub src_port : ℕ
  pub dst_port : ℕ
  pub seq : ℕ
  pub ack : ℕ
  pub data_offset : ℕ
  pub fin_flag : Bool
  pub syn_flag : Bool
  pub rst_flag : Bool
  pub psh_flag : Bool
  pub ack_flag : Bool
  pub window : ℕ
  pub checksum : ℕ
  pub urgent : ℕ
  pub options : Bytes
  pub pseudo : Option Ipv4

pub record Udp : Type 0 where
  pub src_port : ℕ
  pub dst_port : ℕ
  pub len : ℕ
  pub checksum : ℕ
  pub pseudo : Option Ipv4

pub record Icmpv4 : Type 0 where
  pub type : Icmpv4Type
  pub code : ℕ
  pub checksum : ℕ
  pub id : ℕ
  pub seq : ℕ
  pub payload : Bytes

-- The answer's name and, where it is an IPv4 record, its address.
pub record DnsAnswer : Type 0 where
  pub name : Bytes
  pub ip : Option Ip

pub record Dns : Type 0 where
  pub qr : Bool
  pub answers : List DnsAnswer
  pub contents : Bytes

-- gopacket.Layer: a pointer to a layer's struct.
pub data Layer : Type 0 where
  loopback : Loopback → Layer
  ethernet : Ethernet → Layer
  arp : Arp → Layer
  ipv4 : Ipv4 → Layer
  ipv6 : Bytes → Layer
  tcp : Tcp → Layer
  udp : Udp → Layer
  icmpv4 : Icmpv4 → Layer
  dns : Dns → Layer
  fragment : Bytes → Layer
  payload : Bytes → Layer
  other : ℕ → Bytes → Layer

unfoldable pub layer_type : Layer → LayerType
layer_type (Layer.loopback l) = LayerType.loopback
layer_type (Layer.ethernet l) = LayerType.ethernet
layer_type (Layer.arp l) = LayerType.arp
layer_type (Layer.ipv4 l) = LayerType.ipv4
layer_type (Layer.ipv6 l) = LayerType.ipv6
layer_type (Layer.tcp l) = LayerType.tcp
layer_type (Layer.udp l) = LayerType.udp
layer_type (Layer.icmpv4 l) = LayerType.icmpv4
layer_type (Layer.dns l) = LayerType.dns
layer_type (Layer.fragment b) = LayerType.fragment
layer_type (Layer.payload b) = LayerType.payload
layer_type (Layer.other n b) = LayerType.other n

-- gopacket.Packet: the layers in order, those that its accessors return, and the bytes.
pub record Packet : Type 0 where
  pub layers : List Layer
  pub link_layer : Option Layer
  pub network_layer : Option Layer
  pub transport_layer : Option Layer
  pub application_layer : Option Layer
  pub bytes : Bytes

-- What gopacket computes. `serialize_layers` fixes lengths and checksums where its first argument
-- says so; `new_packet` decodes from a first layer; the last three record the network layer that a
-- transport checksum covers.
pub record Gopacket : Type 0 where
  pub serialize_layers : Bool → List Layer → Result Bytes
  pub new_packet : Bytes → LayerType → Packet
  pub layer_contents : Layer → Bytes
  pub layer_payload : Layer → Bytes
  pub tcp_checksum : Ipv4 → Tcp → Result Tcp
  pub tcp_checksum_ipv6 : Bytes → Tcp → Result Tcp
  pub udp_checksum : Ipv4 → Udp → Result Udp

-- What gopacket's SetNetworkLayerForChecksum does: it records the network layer, and nothing else.
abbrev pub SumsKeep : Gopacket → Type 0
SumsKeep g =
    ((ip : Ipv4) (t t' : Tcp) → g.tcp_checksum ip t ≡ ok t' → t' ≡ record t { pseudo = some ip })
    × ((ip : Ipv4) (u u' : Udp) → g.udp_checksum ip u ≡ ok u' → u' ≡ record u { pseudo = some ip })
