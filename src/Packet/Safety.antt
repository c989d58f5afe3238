-- ===== src/Packet/Safety.antt =====
-- Where the accessors of a parsed packet panic: only the NAT accessors, and only at an ICMPv4 error
-- that embeds an ICMPv4 message of a type that the parser has never checked.
use ikago.Base.{Option, none, some, ok, panic, ◌≡◌, ◌≢◌, refl, arith}
use ikago.Addr.{Addr, Ip}
use ikago.Gopacket.{Gopacket, LayerType, Layer, Icmpv4, Packet, layer_type}
use ikago.Icmp4.{Icmpv4Indicator}
use ikago.Icmp4.Sound.{IcmpSound, EmbedsUnknown, emb_ends, emb_unknown}
use ikago.Packet.{PacketIndicator, src_ip, dst_ip}
use ikago.Packet.Nat.{nat_src, nat_dst, nat_protocol, src, dst}
use ikago.Packet.Parse.{parse_packet}
use ikago.Packet.Parse.Sound.{NetworkSound, TransportSound, parse_packet-IsSound}

-- The packet is an ICMPv4 error that embeds an ICMPv4 message of an unknown type.
pub data CarriesUnknown (ind : PacketIndicator) : Type 0 where
  carries :
      (i : Icmpv4Indicator) → ind.icmpv4_indicator ≡ some i → EmbedsUnknown i → CarriesUnknown ind

-- The three values of NAT are there.
pub record NatReady (ind : PacketIndicator) : Type 0 where
  pub source : (a : Addr) × (nat_src ind ≡ ok a)
  pub destination : (a : Addr) × (nat_dst ind ≡ ok a)
  pub protocol : (t : LayerType) × (nat_protocol ind ≡ ok t)

ips :
    (ind : PacketIndicator) (n : Option Layer)
    → ind.network_layer ≡ n
    → NetworkSound n
    → (a b : Ip) × (src_ip ind ≡ ok a) × (dst_ip ind ≡ ok b)
unfolding src_ip dst_ip
ips ind (some (Layer.ipv4 ip)) e s = (ip.src_ip, ip.dst_ip, ground arith, ground arith)
ips ind (some (Layer.arp a)) e s =
    (a.source_prot_address, a.dst_prot_address, ground arith, ground arith)
ips ind none e s = elim s [ ]
ips ind (some _) e s = elim s [ ]

icmp_ready :
    (ind : PacketIndicator) (l : Icmpv4) (i : Icmpv4Indicator) (a b : Ip)
    → ind.transport_layer ≡ some (Layer.icmpv4 l)
    → ind.icmpv4_indicator ≡ some i
    → src_ip ind ≡ ok a
    → dst_ip ind ≡ ok b
    → ¬ CarriesUnknown ind
    → IcmpSound i
    → NatReady ind
unfolding nat_src nat_dst nat_protocol
icmp_ready ind l i a b ht hi ha hb n (IcmpSound.query q no_ip no_t) = record {
  source = (Addr.icmp_query_addr a i.layer.id, ground arith);
  destination = (Addr.icmp_query_addr b i.layer.id, ground arith);
  protocol = (LayerType.icmpv4, ground arith);
}
icmp_ready ind l i a b ht hi ha hb n (IcmpSound.error ip t q he hl s) =
    let ((x, hx), (y, hy)) = emb_ends i ip t q he hl s (λ u. n (CarriesUnknown.carries i hi u)) in
    record {
      source = (x, ground arith);
      destination = (y, ground arith);
      protocol = (layer_type t, ground arith);
    }

ready :
    (ind : PacketIndicator) (t : Option Layer) (i : Option Icmpv4Indicator) (a b : Ip)
    → ind.transport_layer ≡ t
    → ind.icmpv4_indicator ≡ i
    → t ≢ none
    → src_ip ind ≡ ok a
    → dst_ip ind ≡ ok b
    → ¬ CarriesUnknown ind
    → TransportSound t i
    → NatReady ind
ready ind none i a b ht hi some_t ha hb n s = absurd (some_t refl)
ready ind (some (Layer.tcp x)) i a b ht hi some_t ha hb n s = record {
  source = (Addr.tcp_addr a x.src_port, unfold nat_src in ground arith);
  destination = (Addr.tcp_addr b x.dst_port, unfold nat_dst in ground arith);
  protocol = (LayerType.tcp, unfold nat_protocol in ground arith);
}
ready ind (some (Layer.udp x)) i a b ht hi some_t ha hb n s = record {
  source = (Addr.udp_addr a x.src_port, unfold nat_src in ground arith);
  destination = (Addr.udp_addr b x.dst_port, unfold nat_dst in ground arith);
  protocol = (LayerType.udp, unfold nat_protocol in ground arith);
}
ready ind (some (Layer.icmpv4 l)) (some i) a b ht hi some_t ha hb n s =
    icmp_ready ind l i a b ht hi ha hb n s
ready ind (some (Layer.icmpv4 l)) none a b ht hi some_t ha hb n s = elim s [ ]
ready ind (some _) i a b ht hi some_t ha hb n s = elim s [ ]

-- For a packet that `ParsePacket` accepts, with a transport layer and not carrying an unknown
-- message, `NATSrc`, `NATDst` and `NATProtocol` all return.
pub parse_packet-NatReady :
    (g : Gopacket) (p : Packet) (ind : PacketIndicator)
    → parse_packet g p ≡ ok ind
    → ind.transport_layer ≢ none
    → ¬ CarriesUnknown ind
    → NatReady ind
parse_packet-NatReady g p ind e some_t n =
    let sound = parse_packet-IsSound g p ind e in
    let (a, b, ha, hb) = ips ind ind.network_layer refl sound.network in
    ready ind ind.transport_layer ind.icmpv4_indicator a b refl refl some_t ha hb n sound.transport

-- At an ICMPv4 packet that carries an unknown message, `NATSrc` and `NATDst` panic.
pub nat_src-CarriesUnknown :
    (ind : PacketIndicator) (l : Icmpv4)
    → ind.transport_layer ≡ some (Layer.icmpv4 l)
    → CarriesUnknown ind
    → (nat_src ind ≡ panic) × (nat_dst ind ≡ panic)
nat_src-CarriesUnknown ind l ht (CarriesUnknown.carries i hi (EmbedsUnknown.unknown m q hm u)) =
    let (x, y) = emb_unknown {i = i} (EmbedsUnknown.unknown m q hm u) in
    (unfold nat_src in ground arith, unfold nat_dst in ground arith)

named :
    (ind : PacketIndicator) (t : Option Layer) (i : Option Icmpv4Indicator) (a b : Ip)
    → ind.transport_layer ≡ t
    → ind.icmpv4_indicator ≡ i
    → src_ip ind ≡ ok a
    → dst_ip ind ≡ ok b
    → TransportSound t i
    → (x y : Addr) × (src ind ≡ ok x) × (dst ind ≡ ok y)
unfolding src dst
named ind none i a b ht hi ha hb s = (Addr.ip_addr a, Addr.ip_addr b, ground arith, ground arith)
named ind (some (Layer.tcp t)) i a b ht hi ha hb s =
    (Addr.tcp_addr a t.src_port, Addr.tcp_addr b t.dst_port, ground arith, ground arith)
named ind (some (Layer.udp u)) i a b ht hi ha hb s =
    (Addr.udp_addr a u.src_port, Addr.udp_addr b u.dst_port, ground arith, ground arith)
named ind (some (Layer.icmpv4 l)) (some i) a b ht hi ha hb (IcmpSound.query q no_ip no_t) = (
  Addr.icmp_query_addr a i.layer.id,
  Addr.icmp_query_addr b i.layer.id,
  ground arith,
  ground arith,
)
named ind (some (Layer.icmpv4 l)) (some i) a b ht hi ha hb (IcmpSound.error ip t q he hl s) =
    (Addr.ip_addr a, Addr.ip_addr b, ground arith, ground arith)
named ind (some (Layer.icmpv4 l)) none a b ht hi ha hb s = elim s [ ]
named ind (some _) i a b ht hi ha hb s = elim s [ ]

-- `Src` and `Dst` return for every packet that `ParsePacket` accepts.
pub parse_packet-src :
    (g : Gopacket) (p : Packet) (ind : PacketIndicator)
    → parse_packet g p ≡ ok ind
    → (x y : Addr) × (src ind ≡ ok x) × (dst ind ≡ ok y)
parse_packet-src g p ind e =
    let sound = parse_packet-IsSound g p ind e in
    let (a, b, ha, hb) = ips ind ind.network_layer refl sound.network in
    named ind ind.transport_layer ind.icmpv4_indicator a b refl refl ha hb sound.transport
