-- ===== src/Layers.antt =====
-- internal/pcap/layer.go: the layers that the program builds. A constructor that has to record the
-- network layer in the transport layer returns both.
use ikago.Base.{
  ℕ, ◌+◌, ◌%◌, Bool, true, false, Bytes, List, [], none, Result, ok, err, ◌>>=◌, network_layer_type,
  transport_layer_type, if◌then◌else◌,
}
use ikago.Addr.{Ip}
use ikago.Gopacket.{Gopacket, Layer, EthernetType, Ipv4, Tcp, Udp, IpProtocol}
use ikago.Device.{RawConn, need_ip, is_loop}

-- `CreateTCPLayer`: PSH and ACK are set.
unfoldable pub create_tcp_layer : ℕ → ℕ → ℕ → ℕ → Tcp
create_tcp_layer src_port dst_port seq ack = record {
  src_port = src_port;
  dst_port = dst_port;
  seq = seq;
  ack = ack;
  data_offset = 5;
  fin_flag = false;
  syn_flag = false;
  rst_flag = false;
  psh_flag = true;
  ack_flag = true;
  window = 65535;
  checksum = 0;
  urgent = 0;
  options = [];
  pseudo = none;
}

-- `FlagTCPLayer`.
unfoldable pub flag_tcp_layer : Tcp → Bool → Bool → Bool → Tcp
flag_tcp_layer t syn psh ack = record t { syn_flag = syn; psh_flag = psh; ack_flag = ack }

-- `CreateUDPLayer`.
unfoldable pub create_udp_layer : ℕ → ℕ → Udp
create_udp_layer src_port dst_port = record {
  src_port = src_port;
  dst_port = dst_port;
  len = 0;
  checksum = 0;
  pseudo = none;
}

-- The header before its protocol is known.
unfoldable pub fresh_ipv4 : Ip → Ip → ℕ → ℕ → IpProtocol → Ipv4
fresh_ipv4 src_ip dst_ip id ttl protocol = record {
  version = 4;
  ihl = 5;
  tos = 0;
  len = 0;
  id = id;
  evil = false;
  dont_fragment = false;
  more_fragments = false;
  frag_offset = 0;
  ttl = ttl;
  protocol = protocol;
  checksum = 0;
  src_ip = src_ip;
  dst_ip = dst_ip;
  options = [];
  contents = [];
  payload = [];
}

-- `CreateIPv4Layer`.
unfoldable pub create_ipv4_layer : Gopacket → Ip → Ip → ℕ → ℕ → Layer → Result (Ipv4 × Layer)
unfolding fresh_ipv4
create_ipv4_layer g src_ip dst_ip id ttl (Layer.tcp t) = do
  let ip = fresh_ipv4 src_ip dst_ip id ttl IpProtocol.tcp
  summed ← g.tcp_checksum ip t
  ok (ip, Layer.tcp summed)
create_ipv4_layer g src_ip dst_ip id ttl (Layer.udp u) = do
  let ip = fresh_ipv4 src_ip dst_ip id ttl IpProtocol.udp
  summed ← g.udp_checksum ip u
  ok (ip, Layer.udp summed)
create_ipv4_layer g src_ip dst_ip id ttl _ = err transport_layer_type

-- `FlagIPv4Layer`: the three assignments to `Flags`, in order, on its three bits.
flag_df : Bool → Ipv4 → Ipv4
flag_df true ip = record ip { evil = false; dont_fragment = true; more_fragments = false }
flag_df false ip = ip

flag_mf : Bool → Ipv4 → Ipv4
flag_mf true ip = record ip { evil = false; dont_fragment = false; more_fragments = true }
flag_mf false ip = ip

flag_none : Bool → Bool → Ipv4 → Ipv4
flag_none false false ip = record ip { evil = false; dont_fragment = false; more_fragments = false }
flag_none _ _ ip = ip

unfoldable pub flag_ipv4_layer : Ipv4 → Bool → Bool → ℕ → Ipv4
unfolding flag_df flag_mf flag_none
flag_ipv4_layer ip df mf offset =
    let flagged = flag_none df mf (flag_mf mf (flag_df df ip)) in
    record flagged { frag_offset = offset }

-- `CreateLoopbackLayer`.
unfoldable pub create_loopback_layer : Layer → Result Layer
create_loopback_layer (Layer.ipv4 ip) = ok (Layer.loopback (record { is_ipv4 = true }))
create_loopback_layer _ = err network_layer_type

-- `CreateEthernetLayer`.
unfoldable pub create_ethernet_layer : Bytes → Bytes → Layer → Result Layer
create_ethernet_layer src_mac dst_mac (Layer.ipv4 ip) = ok (
    Layer.ethernet
      (record { src_mac = src_mac; dst_mac = dst_mac; ethernet_type = EthernetType.ipv4 }))
create_ethernet_layer src_mac dst_mac _ = err network_layer_type

-- `Serialize`, which fixes lengths and checksums, and `SerializeRaw`, which does not.
unfoldable pub serialize : Gopacket → List Layer → Result Bytes
serialize g ls = g.serialize_layers true ls

unfoldable pub serialize_raw : Gopacket → List Layer → Result Bytes
serialize_raw g ls = g.serialize_layers false ls

-- The link layer of a connection: loopback, or Ethernet to the given hardware address.
unfoldable pub create_link_layer : RawConn → Bytes → Layer → Result Layer
unfolding is_loop create_loopback_layer create_ethernet_layer
create_link_layer conn dst_mac network =
    if is_loop conn
    then create_loopback_layer network
    else create_ethernet_layer conn.src_dev.hardware_addr dst_mac network

-- `CreateLayers`: the transport, network and link layers. `hop - 1` is of a uint8.
unfoldable pub create_layers :
    Gopacket → ℕ → ℕ → ℕ → ℕ → RawConn → Ip → ℕ → ℕ → Bytes → Result (Layer × Ipv4 × Layer)
unfolding create_tcp_layer create_ipv4_layer create_link_layer need_ip
create_layers g src_port dst_port seq ack conn dst_ip id hop dst_mac = do
  src ← need_ip conn.src_dev
  (ip, transport) ←
      create_ipv4_layer g src dst_ip id ((hop + 255) % 256)
        (Layer.tcp (create_tcp_layer src_port dst_port seq ack))
  link ← create_link_layer conn dst_mac (Layer.ipv4 ip)
  ok (transport, ip, link)
