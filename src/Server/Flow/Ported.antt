-- ===== src/Server/Flow/Ported.antt =====
-- `handleUpstream` of cmd/ikago-server/main.go on a TCP or UDP packet, where the invariant holds: it
-- never indexes a pool out of range, nor meets a source of another type.
use ikago.Base.{ℕ, ◌≡◌, refl, sym, ap, ◌∙◌, some, Result, panic, ok}
use ikago.Addr.{Ip, Addr, string}
use ikago.Addr.Text.{endpoint, string-injective}
use ikago.Gopacket.{LayerType, Layer, layer_type}
use ikago.Packet.{PacketIndicator, dst_port}
use ikago.Packet.Nat.{nat_dst, nat_protocol}
use ikago.Packet.Nat.Ends.{nat_dst-tcp, nat_dst-udp}
use ikago.Server.Keys.{find}
use ikago.Server.State.{NatGuide, NatIndicator, World, Server, guide_key}
use ikago.Server.Identity.{upstream_guide, alive_value}
use ikago.Server.Inbound.{tcp_port, udp_port}
use ikago.Server.Listen.{keep_alive}
use ikago.Server.Upstream.{keep_upstream}
use ikago.Server.Dist.Alive.{IsValid}
use ikago.Server.Invariant.{InPool, Leads, Inv}
use ikago.Server.Invariant.Living.{touch-InPool}
use ikago.Server.Flow.Answered.{upstream_guide-fields}

-- The port that `handleUpstream` asserts of the source, by the type of the transport layer.
abbrev pub port_for : Layer → Addr → Result ℕ
port_for (Layer.tcp x) a = tcp_port a
port_for (Layer.udp x) a = udp_port a
port_for _ a = panic

-- A TCP or UDP layer.
abbrev pub IsPorted : Layer → Type 0
IsPorted (Layer.tcp x) = Unit {0}
IsPorted (Layer.udp x) = Unit {0}
IsPorted _ = ⊥

tcp_led :
    (w : World) (g : NatGuide) (ni : NatIndicator) (ip : Ip) (p : ℕ)
    → Leads w g ni
    → g.src ≡ string (Addr.tcp_addr ip p)
    → g.protocol ≡ LayerType.tcp
    → InPool LayerType.tcp p × (q : ℕ) × (tcp_port ni.emb_src ≡ ok q)
unfolding endpoint tcp_port
tcp_led w g ni ip p (Leads.leads_tcp up a v port hu h hs hp he) src protocol =
    let same = (string-injective (Addr.tcp_addr up v) (Addr.tcp_addr ip p)).0 (sym hs ∙ src) in
    let at : v ≡ p = cc in (rw (← at) h, port, rw he refl)
tcp_led w g ni ip p (Leads.leads_udp up a v port hu h hs hp he) src protocol = cc
tcp_led w g ni ip p (Leads.leads_query up a v id hu h hs hp he) src protocol = cc

udp_led :
    (w : World) (g : NatGuide) (ni : NatIndicator) (ip : Ip) (p : ℕ)
    → Leads w g ni
    → g.src ≡ string (Addr.udp_addr ip p)
    → g.protocol ≡ LayerType.udp
    → InPool LayerType.udp p × (q : ℕ) × (udp_port ni.emb_src ≡ ok q)
unfolding endpoint udp_port
udp_led w g ni ip p (Leads.leads_udp up a v port hu h hs hp he) src protocol =
    let same = (string-injective (Addr.udp_addr up v) (Addr.udp_addr ip p)).0 (sym hs ∙ src) in
    let at : v ≡ p = cc in (rw (← at) h, port, rw he refl)
udp_led w g ni ip p (Leads.leads_tcp up a v port hu h hs hp he) src protocol = cc
udp_led w g ni ip p (Leads.leads_query up a v id hu h hs hp he) src protocol = cc

keep_upstream-ok :
    (now : ℕ) (back : PacketIndicator) (t : LayerType) (v : ℕ) (s : Server)
    → nat_protocol back ≡ ok t
    → alive_value back t ≡ ok v
    → IsValid s.pools
    → InPool t v
    → (keep_upstream now back s).0 ≡ ok tt
unfolding keep_upstream keep_alive
keep_upstream-ok now back t v s hp hv valid h =
    let (p, e) = touch-InPool now t v s.pools valid h in rw (hp, hv, e) refl

-- For a TCP or UDP packet from the upstream whose guide is in `nat`, "keep alive" ends well, so its
-- port indexes no pool out of range, and the source of the entry has the type that the handler
-- asserts. (The state satisfies the invariant.)
pub keep_upstream-Ported :
    (w : World) (now : ℕ) (back : PacketIndicator) (k : Layer) (d : Addr) (g : NatGuide)
    (ni : NatIndicator) (s : Server)
    → Inv w s
    → IsPorted k
    → back.transport_layer ≡ some k
    → nat_dst back ≡ ok d
    → upstream_guide back ≡ ok g
    → find g s.nat ≡ some ni
    → ((keep_upstream now back s).0 ≡ ok tt) × (q : ℕ) × (port_for k ni.emb_src ≡ ok q)
unfolding layer_type nat_protocol alive_value dst_port
keep_upstream-Ported w now back (Layer.tcp x) d g ni s inv ported hk hd hg hf =
    let (ip, hi, same) = nat_dst-tcp back x d hk hd in
    let g_of : record { src = string d; protocol = LayerType.tcp } ≡ g =
      (let f = sym (upstream_guide-fields back (Layer.tcp x) d hk hd) ∙ hg in cc) in
    let (h, q, hq) =
      tcp_led w g ni ip x.dst_port (inv.entries g ni hf)
        (sym (ap (λ (y : NatGuide). y.src) g_of) ∙ ap string same)
        (sym (ap (λ (y : NatGuide). y.protocol) g_of)) in
    (
      keep_upstream-ok now back LayerType.tcp x.dst_port s (rw hk refl) (rw hk refl) inv.pools h,
      q,
      hq,
    )
keep_upstream-Ported w now back (Layer.udp x) d g ni s inv ported hk hd hg hf =
    let (ip, hi, same) = nat_dst-udp back x d hk hd in
    let g_of : record { src = string d; protocol = LayerType.udp } ≡ g =
      (let f = sym (upstream_guide-fields back (Layer.udp x) d hk hd) ∙ hg in cc) in
    let (h, q, hq) =
      udp_led w g ni ip x.dst_port (inv.entries g ni hf)
        (sym (ap (λ (y : NatGuide). y.src) g_of) ∙ ap string same)
        (sym (ap (λ (y : NatGuide). y.protocol) g_of)) in
    (
      keep_upstream-ok now back LayerType.udp x.dst_port s (rw hk refl) (rw hk refl) inv.pools h,
      q,
      hq,
    )
keep_upstream-Ported w now back _ d g ni s inv ported hk hd hg hf = elim ported [ ]
