-- ===== src/Packet/Parse/Sound.antt =====
-- What `ParsePacket` promises of the indicators that it returns.
use ikago.Base.{List, [], ◌∷◌, Option, none, some, Result, ok, err, panic, ◌>>=◌, ◌≡◌, refl, arith}
use ikago.Gopacket.{Gopacket, Layer, Packet, Icmpv4}
use ikago.Icmp4.{Icmpv4Indicator, parse_icmpv4_layer}
use ikago.Icmp4.Sound.{IcmpSound, parse_icmpv4_layer-IcmpSound}
use ikago.Packet.{PacketIndicator}
use ikago.Packet.Parse.{
  is_arp, is_loopback, first_layer, or_else, arp_indicator, choose_transport, check_link,
  check_network, check_transport, finish, parse_packet,
}

abbrev pub NetworkSound : Option Layer → Type 0
NetworkSound (some (Layer.ipv4 ip)) = Unit {0}
NetworkSound (some (Layer.arp a)) = Unit {0}
NetworkSound _ = ⊥

abbrev pub TransportSound : Option Layer → Option Icmpv4Indicator → Type 0
TransportSound none i = Unit {0}
TransportSound (some (Layer.tcp t)) i = Unit {0}
TransportSound (some (Layer.udp u)) i = Unit {0}
TransportSound (some (Layer.icmpv4 l)) none = ⊥
TransportSound (some (Layer.icmpv4 l)) (some i) = IcmpSound i
TransportSound (some _) i = ⊥

-- The network layer is IPv4 or ARP; the transport layer is TCP, UDP, ICMPv4 with its indicator, or
-- missing. The indicator has an embedded header and layer exactly when the message is no query.
pub record IsSound (ind : PacketIndicator) : Type 0 where
  pub network : NetworkSound ind.network_layer
  pub transport : TransportSound ind.transport_layer ind.icmpv4_indicator

check_network-NetworkSound :
    (l : Layer) (v : Unit {0}) → check_network l ≡ ok v → NetworkSound (some l)
unfolding check_network
check_network-NetworkSound (Layer.ipv4 ip) v e = tt
check_network-NetworkSound (Layer.arp a) v e = tt
check_network-NetworkSound _ v e = cc

icmp-TransportSound :
    (l : Icmpv4) (r : Result Icmpv4Indicator) (i : Option Icmpv4Indicator)
    → ((ind : Icmpv4Indicator) → r ≡ ok ind → IcmpSound ind)
    → (r >>= λ ind. ok (some ind)) ≡ ok i
    → TransportSound (some (Layer.icmpv4 l)) i
icmp-TransportSound l (ok ind) none s e = cc
icmp-TransportSound l (ok ind) (some j) s e = let same : ind ≡ j = cc in rw (← same) (s ind refl)
icmp-TransportSound l (err x) i s e = cc
icmp-TransportSound l panic i s e = cc

check_transport-TransportSound :
    (g : Gopacket) (t : Option Layer) (i : Option Icmpv4Indicator)
    → check_transport g t ≡ ok i
    → TransportSound t i
unfolding check_transport
check_transport-TransportSound g none i e = tt
check_transport-TransportSound g (some (Layer.tcp t)) i e = tt
check_transport-TransportSound g (some (Layer.udp u)) i e = tt
check_transport-TransportSound g (some (Layer.icmpv4 l)) i e =
    icmp-TransportSound l (parse_icmpv4_layer g l) i (parse_icmpv4_layer-IcmpSound g l) e
check_transport-TransportSound g (some _) i e = cc

-- The rest of the parse, by what its checks return.
module _ (g : Gopacket) (p : Packet) (link : Option Layer) (n : Layer) (t : Option Layer)
    (ind : PacketIndicator) (e : finish g p link n t ≡ ok ind) where
  by_checks :
      (a : Result (Unit {0})) (b : Result (Unit {0})) (c : Result (Option Icmpv4Indicator))
      → check_link link ≡ a
      → check_network n ≡ b
      → check_transport g t ≡ c
      → IsSound ind
  unfolding finish
  by_checks (ok u) (ok v) (ok i) ha hb hc =
      let same_n : ind.network_layer ≡ some n = ground arith in
      let same_t : ind.transport_layer ≡ t = ground arith in
      let same_i : ind.icmpv4_indicator ≡ i = ground arith in
      record {
        network = rw same_n (check_network-NetworkSound n v hb);
        transport = rw (same_t, same_i) (check_transport-TransportSound g t i hc);
      }
  by_checks _ _ _ ha hb hc = ground arith

  finish-IsSound : IsSound ind
  finish-IsSound =
      by_checks (check_link link) (check_network n) (check_transport g t) refl refl refl

first_layer-is_arp :
    (ls : List Layer) (l : Layer) → first_layer is_arp ls ≡ some l → NetworkSound (some l)
unfolding first_layer is_arp
first_layer-is_arp [] l e = cc
first_layer-is_arp (Layer.arp a ∷ ls) l e = let same : Layer.arp a ≡ l = cc in rw (← same) tt
first_layer-is_arp (_ ∷ ls) l e = first_layer-is_arp ls l e

-- Every packet that `ParsePacket` accepts has an IPv4 or ARP network layer, and a transport layer
-- that is missing, TCP, UDP, or ICMPv4 with an indicator, which has an embedded packet exactly when
-- the message is no query.
pub parse_packet-IsSound :
    (g : Gopacket) (p : Packet) (ind : PacketIndicator) → parse_packet g p ≡ ok ind → IsSound ind
parse_packet-IsSound g p ind e = by p.network_layer refl
  where
    by_arp :
        (a : Option Layer) → first_layer is_arp p.layers ≡ a → p.network_layer ≡ none → IsSound ind
    by_arp none ha hn = unfold parse_packet in ground arith
    by_arp (some l) ha hn =
        let same : ind ≡ arp_indicator l = unfold parse_packet in ground arith in
        rw same (record {
          network = unfold arp_indicator in first_layer-is_arp p.layers l ha;
          transport = unfold arp_indicator in tt;
        })

    by_transport :
        (n : Layer) (r : Result (Option Layer))
        → choose_transport p ≡ r
        → p.network_layer ≡ some n
        → IsSound ind
    by_transport n (ok t) ht hn =
        finish-IsSound g p (or_else p.link_layer (first_layer is_loopback p.layers)) n t ind
          (unfold parse_packet in ground arith)
    by_transport n (err x) ht hn = unfold parse_packet in ground arith
    by_transport n panic ht hn = unfold parse_packet in ground arith

    by : (n : Option Layer) → p.network_layer ≡ n → IsSound ind
    by none hn = by_arp (first_layer is_arp p.layers) refl hn
    by (some n) hn = by_transport n (choose_transport p) refl hn
