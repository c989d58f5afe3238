-- ===== src/Server/Invariant/Guides.antt =====
-- The entries that `handleListen` of cmd/ikago-server/main.go records: each stands under the guide
-- of its number, with a source of the guide's protocol.
use ikago.Base.{
  ℕ, Bytes, ◌≡◌, ◌⊎◌, inl, inr, refl, sym, ap, ◌∙◌, Bool, true, false, none, some, ok, deref,
  deref-some, bind-ok, if◌then◌else◌,
}
use ikago.Addr.{Ip, Addr, string}
use ikago.Gopacket.{LayerType, Layer, Icmpv4, layer_type}
use ikago.Device.{need_ip}
use ikago.Icmp4.{Icmpv4Indicator, is_query}
use ikago.Packet.{PacketIndicator}
use ikago.Packet.Nat.{nat_src, nat_protocol}
use ikago.Packet.Nat.Ends.{nat_src-tcp, nat_src-udp, nat_src-query}
use ikago.Server.State.{NatGuide, NatIndicator, Conn, World}
use ikago.Server.Identity.{guide_of, nat_entry, is_error_of}
use ikago.Server.Invariant.Mapping.{nat_protocol-own, InPool-along}
use ikago.Server.Invariant.{InPool, Leads}

-- A value in the pool of the packet's protocol, where the packet has a transport layer.
abbrev pub Valued : PacketIndicator → ℕ → Type 0
Valued ind v =
    (ind.transport_layer ≡ none) ⊎ ((p : LayerType) × (nat_protocol ind ≡ ok p) × InPool p v)

pub nat_entry-source :
    (ind : PacketIndicator) (conn : Conn) (ni : NatIndicator)
    → nat_entry ind conn ≡ ok ni
    → nat_src ind ≡ ok ni.emb_src
unfolding nat_entry
nat_entry-source ind conn ni e =
    let (a, h, e1) = bind-ok (nat_src ind) _ e in
    let same : record { src = conn.remote_addr; emb_src = a; conn = conn } ≡ ni = cc in
    h ∙ ap (λ (x : NatIndicator). ok x.emb_src) same

-- The two things that a guide's fields are.
record Names (g : NatGuide) (text : Bytes) (t : LayerType) : Type 0 where
  src : g.src ≡ text
  protocol : g.protocol ≡ t

module _ (ind : PacketIndicator) (up : Ip) (v : ℕ) where
  -- Only a query has a guide, of the ICMPv4 packets.
  guide_of-query :
      (x : Icmpv4) (g : NatGuide)
      → guide_of up v ind (Layer.icmpv4 x) ≡ ok (some g)
      → (i : Icmpv4Indicator) × (ind.icmpv4_indicator ≡ some i)
        × (is_query i ≡ ok true)
        × Names g (string (Addr.icmp_query_addr up v)) LayerType.icmpv4
  unfolding guide_of
  guide_of-query x g e =
      let (i, hi, e1) = bind-ok (deref ind.icmpv4_indicator) _ e in
      let (query, hq, e2) = bind-ok (is_query i) _ e1 in
      by_query i (deref-some ind.icmpv4_indicator hi) query hq e2
    where
      by_query :
          (i : Icmpv4Indicator)
          → ind.icmpv4_indicator ≡ some i
          → (query : Bool) → is_query i ≡ ok query
          → (if query
              then ok (
                  some (record {
                    src = string (Addr.icmp_query_addr up v);
                    protocol = LayerType.icmpv4;
                  }))
              else ok none)
            ≡ ok (some g)
          → (i : Icmpv4Indicator) × (ind.icmpv4_indicator ≡ some i)
            × (is_query i ≡ ok true)
            × Names g (string (Addr.icmp_query_addr up v)) LayerType.icmpv4
      by_query i hi true hq e = (i, hi, hq, record { src = cc; protocol = cc })
      by_query i hi false hq e = cc

  valued :
      (l : Layer)
      → ind.transport_layer ≡ some l
      → Valued ind v
      → is_error_of ind l ≡ ok false
      → InPool (layer_type l) v
  valued l h (inl n) own = cc
  valued l h (inr (p, hp, m)) own = InPool-along v (sym (nat_protocol-own ind l p h own hp)) m

  -- What is recorded under a guide is led to by it.
  pub guide_of-Leads :
      (w : World) (conn : Conn) (l : Layer) (g : NatGuide) (ni : NatIndicator)
      → need_ip w.up_conn.src_dev ≡ ok up
      → ind.transport_layer ≡ some l
      → Valued ind v
      → guide_of up v ind l ≡ ok (some g)
      → nat_entry ind conn ≡ ok ni
      → Leads w g ni
  unfolding guide_of layer_type is_error_of
  guide_of-Leads w conn (Layer.tcp x) g ni hu h hv hg hn =
      let (ip, hi, same) = nat_src-tcp ind x ni.emb_src h (nat_entry-source ind conn ni hn) in
      Leads.leads_tcp up ip v x.src_port hu (valued (Layer.tcp x) h hv refl) (cc) (cc) same
  guide_of-Leads w conn (Layer.udp x) g ni hu h hv hg hn =
      let (ip, hi, same) = nat_src-udp ind x ni.emb_src h (nat_entry-source ind conn ni hn) in
      Leads.leads_udp up ip v x.src_port hu (valued (Layer.udp x) h hv refl) (cc) (cc) same
  guide_of-Leads w conn (Layer.icmpv4 x) g ni hu h hv hg hn =
      let (i, hi, hq, named) = guide_of-query x g hg in
      let (ip, hs, same) =
        nat_src-query ind x i ni.emb_src h hi hq (nat_entry-source ind conn ni hn) in
      Leads.leads_query up ip v i.layer.id hu (valued (Layer.icmpv4 x) h hv (rw (hi, hq) refl))
        named.src named.protocol same
  guide_of-Leads w conn _ g ni hu h hv hg hn = cc
