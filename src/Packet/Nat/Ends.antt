-- ===== src/Packet/Nat/Ends.antt =====
-- The types of the addresses that `NATSrc` and `NATDst` of internal/pcap/packet.go return,
-- by the transport layer.
use ikago.Base.{◌≡◌, refl, sym, ◌∙◌, true, some, ok, bind-ok, ◌>>=◌, arith}
use ikago.Addr.{Ip, Addr}
use ikago.Gopacket.{Layer, Ipv4, Tcp, Udp, Icmpv4}
use ikago.Icmp4.{Icmpv4Indicator, is_query}
use ikago.Packet.{PacketIndicator, src_ip, dst_ip, src_port, dst_port}
use ikago.Packet.Nat.{nat_src, nat_src_of, nat_dst, nat_dst_of, icmpv4_end}

module _ (ind : PacketIndicator) where
  at_layer : (l : Layer) → ind.transport_layer ≡ some l → nat_src ind ≡ nat_src_of ind l
  unfolding nat_src
  at_layer l h = rw h refl

  -- The source of a TCP packet.
  pub nat_src-tcp :
      (x : Tcp) (a : Addr)
      → ind.transport_layer ≡ some (Layer.tcp x)
      → nat_src ind ≡ ok a
      → (ip : Ip) × (src_ip ind ≡ ok ip) × (a ≡ Addr.tcp_addr ip x.src_port)
  unfolding nat_src_of src_port
  nat_src-tcp x a h e =
      let e0 = sym (at_layer (Layer.tcp x) h) ∙ e in
      let (ip, hi, e1) = bind-ok (src_ip ind) _ e0 in
      let (port, hp, e2) = bind-ok (src_port ind) _ e1 in (ip, hi, ground arith)

  pub nat_src-udp :
      (x : Udp) (a : Addr)
      → ind.transport_layer ≡ some (Layer.udp x)
      → nat_src ind ≡ ok a
      → (ip : Ip) × (src_ip ind ≡ ok ip) × (a ≡ Addr.udp_addr ip x.src_port)
  unfolding nat_src_of src_port
  nat_src-udp x a h e =
      let e0 = sym (at_layer (Layer.udp x) h) ∙ e in
      let (ip, hi, e1) = bind-ok (src_ip ind) _ e0 in
      let (port, hp, e2) = bind-ok (src_port ind) _ e1 in (ip, hi, ground arith)

  pub nat_src-query :
      (x : Icmpv4) (i : Icmpv4Indicator) (a : Addr)
      → ind.transport_layer ≡ some (Layer.icmpv4 x)
      → ind.icmpv4_indicator ≡ some i
      → is_query i ≡ ok true
      → nat_src ind ≡ ok a
      → (ip : Ip) × (src_ip ind ≡ ok ip) × (a ≡ Addr.icmp_query_addr ip i.layer.id)
  unfolding nat_src_of icmpv4_end
  nat_src-query x i a h hi q e =
      let e0 = sym (at_layer (Layer.icmpv4 x) h) ∙ e in
      let e1 : (do b ← src_ip ind; ok (Addr.icmp_query_addr b i.layer.id)) ≡ ok a =
        rw (hi, q) at e0 in
      let (ip, hs, e2) = bind-ok (src_ip ind) _ e1 in (ip, hs, ground arith)

  at_layer_dst : (l : Layer) → ind.transport_layer ≡ some l → nat_dst ind ≡ nat_dst_of ind l
  unfolding nat_dst
  at_layer_dst l h = rw h refl

  -- The destination of a TCP packet.
  pub nat_dst-tcp :
      (x : Tcp) (a : Addr)
      → ind.transport_layer ≡ some (Layer.tcp x)
      → nat_dst ind ≡ ok a
      → (ip : Ip) × (dst_ip ind ≡ ok ip) × (a ≡ Addr.tcp_addr ip x.dst_port)
  unfolding nat_dst_of dst_port
  nat_dst-tcp x a h e =
      let e0 = sym (at_layer_dst (Layer.tcp x) h) ∙ e in
      let (ip, hi, e1) = bind-ok (dst_ip ind) _ e0 in
      let (port, hp, e2) = bind-ok (dst_port ind) _ e1 in (ip, hi, ground arith)

  pub nat_dst-udp :
      (x : Udp) (a : Addr)
      → ind.transport_layer ≡ some (Layer.udp x)
      → nat_dst ind ≡ ok a
      → (ip : Ip) × (dst_ip ind ≡ ok ip) × (a ≡ Addr.udp_addr ip x.dst_port)
  unfolding nat_dst_of dst_port
  nat_dst-udp x a h e =
      let e0 = sym (at_layer_dst (Layer.udp x) h) ∙ e in
      let (ip, hi, e1) = bind-ok (dst_ip ind) _ e0 in
      let (port, hp, e2) = bind-ok (dst_port ind) _ e1 in (ip, hi, ground arith)

  -- Both ends, by the layers.
  pub ends-tcp :
      (x : Tcp) (h : Ipv4)
      → ind.transport_layer ≡ some (Layer.tcp x)
      → ind.network_layer ≡ some (Layer.ipv4 h)
      → (nat_src ind ≡ ok (Addr.tcp_addr h.src_ip x.src_port))
        × (nat_dst ind ≡ ok (Addr.tcp_addr h.dst_ip x.dst_port))
  unfolding nat_src nat_dst src_ip dst_ip src_port dst_port
  ends-tcp x h hl hn = (rw (hl, hn) refl, rw (hl, hn) refl)

  pub ends-udp :
      (x : Udp) (h : Ipv4)
      → ind.transport_layer ≡ some (Layer.udp x)
      → ind.network_layer ≡ some (Layer.ipv4 h)
      → (nat_src ind ≡ ok (Addr.udp_addr h.src_ip x.src_port))
        × (nat_dst ind ≡ ok (Addr.udp_addr h.dst_ip x.dst_port))
  unfolding nat_src nat_dst src_ip dst_ip src_port dst_port
  ends-udp x h hl hn = (rw (hl, hn) refl, rw (hl, hn) refl)

  pub ends-query :
      (x : Icmpv4) (i : Icmpv4Indicator) (h : Ipv4)
      → ind.transport_layer ≡ some (Layer.icmpv4 x)
      → ind.icmpv4_indicator ≡ some i
      → is_query i ≡ ok true
      → ind.network_layer ≡ some (Layer.ipv4 h)
      → (nat_src ind ≡ ok (Addr.icmp_query_addr h.src_ip i.layer.id))
        × (nat_dst ind ≡ ok (Addr.icmp_query_addr h.dst_ip i.layer.id))
  unfolding nat_src nat_dst src_ip dst_ip
  ends-query x i h hl hi q hn = (rw (hl, hi, q, hn) refl, rw (hl, hi, q, hn) refl)
