-- ===== src/FakeTcp/Segments.antt =====
-- What `CreateLayers` puts into the headers of a FakeTCP packet, field by field.
use ikago.Base.{
  ℕ, ◌+◌, ◌%◌, ◌≡◌, refl, sym, ap, ◌∙◌, Bool, true, false, Bool-cases, inl, inr, Bytes, ok, bind-ok,
}
use ikago.Gopacket.{Gopacket, Layer, EthernetType, IpProtocol, Tcp, Ipv4, SumsKeep}
use ikago.Device.{RawConn, need_ip, is_loop}
use ikago.Layers.{
  create_layers, create_tcp_layer, create_ipv4_layer, create_link_layer, create_loopback_layer,
  create_ethernet_layer, flag_tcp_layer, fresh_ipv4,
}
use ikago.FakeTcp.{Target}

-- The link layer of a packet for the hardware address `mac`.
pub data LinkTo (conn : RawConn) (mac : Bytes) : Layer → Type 0 where
  loopback :
      conn.dst_dev.is_loop ≡ true → LinkTo conn mac (Layer.loopback (record { is_ipv4 = true }))
  ethernet :
      conn.dst_dev.is_loop ≡ false
      → LinkTo conn mac (
          Layer.ethernet (record {
            src_mac = conn.src_dev.hardware_addr;
            dst_mac = mac;
            ethernet_type = EthernetType.ipv4;
          }))

-- The headers go from the connection's device to the target, with the numbers given.
pub record Headed (conn : RawConn) (t : Target) (id seq ack : ℕ) (tcp : Tcp) (ip : Ipv4)
    (link : Layer) : Type 0 where
  pub src_port : tcp.src_port ≡ t.src_port
  pub dst_port : tcp.dst_port ≡ t.dst_port
  pub seq_of : tcp.seq ≡ seq
  pub ack_of : tcp.ack ≡ ack
  pub src_ip : need_ip conn.src_dev ≡ ok ip.src_ip
  pub dst_ip : ip.dst_ip ≡ t.dst_ip
  pub id_of : ip.id ≡ id
  pub ttl : ip.ttl ≡ (t.hop + 255) % 256
  pub protocol : ip.protocol ≡ IpProtocol.tcp
  pub link_to : LinkTo conn t.mac link

create_link_layer-LinkTo :
    (conn : RawConn) (mac : Bytes) (ip : Ipv4) (link : Layer)
    → create_link_layer conn mac (Layer.ipv4 ip) ≡ ok link
    → LinkTo conn mac link
unfolding create_link_layer is_loop create_loopback_layer create_ethernet_layer
create_link_layer-LinkTo conn mac ip link h = elim (Bool-cases conn.dst_dev.is_loop) [
  | inl e ↦
      let f = rw e at h in
      let same : Layer.loopback (record { is_ipv4 = true }) ≡ link = cc in
      rw (← same) (LinkTo.loopback e)
  | inr e ↦
      let f = rw e at h in
      let same : Layer.ethernet (record {
        src_mac = conn.src_dev.hardware_addr;
        dst_mac = mac;
        ethernet_type = EthernetType.ipv4;
      })
          ≡ link =
        cc in
      rw (← same) (LinkTo.ethernet e)
]

-- The flags of a TCP header.
pub record Flagged (tcp : Tcp) (syn psh ack : Bool) : Type 0 where
  pub syn_flag : tcp.syn_flag ≡ syn
  pub psh_flag : tcp.psh_flag ≡ psh
  pub ack_flag : tcp.ack_flag ≡ ack
  pub fin_flag : tcp.fin_flag ≡ false
  pub rst_flag : tcp.rst_flag ≡ false

pub create_layers-Headed :
    (g : Gopacket) (conn : RawConn) (t : Target) (id seq ack : ℕ) (transport : Layer) (ip : Ipv4)
    (link : Layer)
    → SumsKeep g
    → create_layers g t.src_port t.dst_port seq ack conn t.dst_ip id t.hop t.mac
      ≡ ok (transport, ip, link)
    → (tcp : Tcp) × (transport ≡ Layer.tcp tcp)
      × Headed conn t id seq ack tcp ip link
      × Flagged tcp false true true
unfolding create_layers create_ipv4_layer create_tcp_layer fresh_ipv4
create_layers-Headed g conn t id seq ack transport ip link (keep, keep') h =
    let created = create_tcp_layer t.src_port t.dst_port seq ack in
    let (src, hs, h1) = bind-ok (need_ip conn.src_dev) _ h in
    let fresh = fresh_ipv4 src t.dst_ip id ((t.hop + 255) % 256) IpProtocol.tcp in
    let ((ip', transport'), hi, h2) =
      bind-ok (create_ipv4_layer g src t.dst_ip id ((t.hop + 255) % 256) (Layer.tcp created)) _
        h1 in
    let (tcp, ht, h3) = bind-ok (g.tcp_checksum fresh created) _ hi in
    let (link', hl, h4) = bind-ok (create_link_layer conn t.mac (Layer.ipv4 ip')) _ h2 in
    let kept = keep fresh created tcp ht in
    let same_ip : fresh ≡ ip = cc in
    let same_tcp : transport ≡ Layer.tcp tcp = cc in
    let same_link : link' ≡ link = cc in
    (
      tcp,
      same_tcp,
      record {
        src_port = ap (λ x. x.src_port) kept;
        dst_port = ap (λ x. x.dst_port) kept;
        seq_of = ap (λ x. x.seq) kept;
        ack_of = ap (λ x. x.ack) kept;
        src_ip = hs ∙ ap (λ x. ok x.src_ip) same_ip;
        dst_ip = ap (λ x. x.dst_ip) (sym same_ip);
        id_of = ap (λ x. x.id) (sym same_ip);
        ttl = ap (λ x. x.ttl) (sym same_ip);
        protocol = ap (λ x. x.protocol) (sym same_ip);
        link_to = rw (← same_link) (create_link_layer-LinkTo conn t.mac ip' link' hl);
      },
      record {
        syn_flag = ap (λ x. x.syn_flag) kept;
        psh_flag = ap (λ x. x.psh_flag) kept;
        ack_flag = ap (λ x. x.ack_flag) kept;
        fin_flag = ap (λ x. x.fin_flag) kept;
        rst_flag = ap (λ x. x.rst_flag) kept;
      },
    )

-- Flagging sets SYN, PSH and ACK, and nothing else.
pub flag_tcp_layer-Flagged :
    (tcp : Tcp) (syn ack : Bool)
    → Flagged tcp false true true
    → Flagged (flag_tcp_layer tcp syn false ack) syn false ack
unfolding flag_tcp_layer
flag_tcp_layer-Flagged tcp syn ack f = record {
  syn_flag = refl;
  psh_flag = refl;
  ack_flag = refl;
  fin_flag = f.fin_flag;
  rst_flag = f.rst_flag;
}

pub flag_tcp_layer-Headed :
    {conn : RawConn} {t : Target} {id seq ack : ℕ} {ip : Ipv4} {link : Layer} (tcp : Tcp)
    (syn acked : Bool)
    → Headed conn t id seq ack tcp ip link
    → Headed conn t id seq ack (flag_tcp_layer tcp syn false acked) ip link
unfolding flag_tcp_layer
flag_tcp_layer-Headed tcp syn acked h = record {
  src_port = h.src_port;
  dst_port = h.dst_port;
  seq_of = h.seq_of;
  ack_of = h.ack_of;
  src_ip = h.src_ip;
  dst_ip = h.dst_ip;
  id_of = h.id_of;
  ttl = h.ttl;
  protocol = h.protocol;
  link_to = h.link_to;
}
