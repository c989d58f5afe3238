-- ===== src/Server/Flow/Answered.antt =====
-- `handleUpstream` of cmd/ikago-server/main.go where the invariant holds: an ICMPv4 error about
-- a TCP or UDP flow never finds its client.
use ikago.Base.{ℕ, List, ◌≡◌, ◌≢◌, refl, sym, ◌∙◌, inl, inr, none, some, Option-cases, ok}
use ikago.Addr.{Ip, Addr, string}
use ikago.Addr.Text.{endpoint, string-injective}
use ikago.Gopacket.{LayerType, Layer, Icmpv4, layer_type}
use ikago.Packet.{PacketIndicator}
use ikago.Packet.Nat.{nat_dst}
use ikago.Server.Keys.{find}
use ikago.Server.State.{NatGuide, NatIndicator, World, Server, guide_key}
use ikago.Server.Identity.{upstream_guide}
use ikago.Server.Upstream.{dispatch}
use ikago.Server.Invariant.{Leads, Inv}

-- What `handleUpstream` does with a packet whose guide is not in `nat`.
dispatch-missing :
    (w : World) (now : ℕ) (back : PacketIndicator) (frags : List PacketIndicator) (g : NatGuide)
    (t : Server)
    → upstream_guide back ≡ ok g
    → find g t.nat ≡ none
    → dispatch w now back frags t ≡ (ok tt, t)
unfolding dispatch
dispatch-missing w now back frags g t hg hf = rw (hg, hf) refl

pub upstream_guide-fields :
    (back : PacketIndicator) (k : Layer) (d : Addr)
    → back.transport_layer ≡ some k
    → nat_dst back ≡ ok d
    → upstream_guide back ≡ ok (record { src = string d; protocol = layer_type k })
unfolding upstream_guide
upstream_guide-fields back k d hk hd = rw (hd, hk) refl

not_query :
    (w : World) (g : NatGuide) (ni : NatIndicator) (d : Addr)
    → Leads w g ni
    → g.src ≡ string d
    → g.protocol ≡ LayerType.icmpv4
    → ((ip : Ip) (id : ℕ) → d ≢ Addr.icmp_query_addr ip id)
    → ⊥
unfolding endpoint
not_query w g ni d (Leads.leads_tcp up ip v port hu h hs hp he) src protocol n = cc
not_query w g ni d (Leads.leads_udp up ip v port hu h hs hp he) src protocol n = cc
not_query w g ni d (Leads.leads_query up ip v id hu h hs hp he) src protocol n =
    by_type d ((string-injective (Addr.icmp_query_addr up v) d).0 (sym hs ∙ src)) n
  where
    by_type :
        (d : Addr)
        → endpoint (Addr.icmp_query_addr up v) ≡ endpoint d
        → ((ip : Ip) (id : ℕ) → d ≢ Addr.icmp_query_addr ip id)
        → ⊥
    by_type (Addr.ip_addr a) e n = cc
    by_type (Addr.tcp_addr a p) e n = cc
    by_type (Addr.udp_addr a p) e n = cc
    by_type (Addr.icmp_query_addr a i) e n = n a i refl

-- An ICMPv4 packet from the upstream whose `NATDst` is not of an ICMPv4 query is dropped without an
-- error, and changes nothing: so is every ICMPv4 error about a TCP or a UDP flow, since its guide
-- has the protocol ICMPv4 and the text of a port. (The state satisfies the invariant.)
pub dispatch-error :
    (w : World) (now : ℕ) (back : PacketIndicator) (frags : List PacketIndicator) (x : Icmpv4)
    (d : Addr) (s : Server)
    → Inv w s
    → back.transport_layer ≡ some (Layer.icmpv4 x)
    → nat_dst back ≡ ok d
    → ((ip : Ip) (id : ℕ) → d ≢ Addr.icmp_query_addr ip id)
    → dispatch w now back frags s ≡ (ok tt, s)
unfolding layer_type
dispatch-error w now back frags x d s inv hk hd n =
    let g : NatGuide = record { src = string d; protocol = LayerType.icmpv4 } in
    elim (Option-cases (find g s.nat)) [
      | inl h ↦
          dispatch-missing w now back frags g s
            (upstream_guide-fields back (Layer.icmpv4 x) d hk hd) h
      | inr (ni, h) ↦ absurd (not_query w g ni d (inv.entries g ni h) refl refl n)
    ]
