-- ===== src/Client/Listen.antt =====
-- `handleListen` of cmd/ikago-client/main.go: a packet of a listening device is sent to the server
-- without its link layer, and its device is recorded.
use ikago.Base.{
  ℕ, Bytes, List, ◌++◌, none, some, Result, ok, panic, deref, lookup, store, replicate, text_eq,
  if◌then◌else◌,
}
use ikago.Calls.{Act, pure, lift, reads, modify, ◌>>=◌, ◌>>◌}
use ikago.Addr.{Ip, ip_string}
use ikago.Gopacket.{Gopacket, Layer, Packet}
use ikago.Device.{RawConn}
use ikago.Packet.{PacketIndicator, src_ip, dst_ip, transport_protocol, src_hardware_addr}
use ikago.Packet.Nat.{src, dst, mtu, payload_of}
use ikago.Packet.Parse.{parse_packet}
use ikago.Stat.{Direction, add_bidirectional}
use ikago.Client.{World, Client, NatIndicator, write_up}
use ikago.Client.Publish.{publish}

-- The source hardware address: zeros without an Ethernet layer.
unfoldable pub hardware_addr_of : PacketIndicator → Result Bytes
unfolding src_hardware_addr
hardware_addr_of ind = elim ind.link_layer [
  | none ↦ panic
  | some (Layer.ethernet e) ↦ src_hardware_addr ind
  | some _ ↦ ok (replicate 6 0)
]

-- The contents and the payload of the packet's network layer.
unfoldable pub network_bytes : Gopacket → Packet → Result Bytes
unfolding payload_of
network_bytes g packet = elim packet.network_layer [
  | none ↦ panic
  | some l ↦ ok (g.layer_contents l ++ payload_of g l)
]

-- The entry of a source: it is written where there is none, or one with another hardware address.
-- (`String` of hardware addresses, in hexadecimal, is equal where their bytes are.)
unfoldable pub recorded_source :
    Bytes → Bytes → RawConn → List (Bytes × NatIndicator) → List (Bytes × NatIndicator)
recorded_source key mac conn nat = elim (lookup key nat) [
  | none ↦ store key (record { src_hardware_addr = mac; conn = conn }) nat
  | some ni ↦
      if text_eq ni.src_hardware_addr mac
      then nat
      else store key (record { src_hardware_addr = mac; conn = conn }) nat
]

module _ {U : Type 0} (w : World U) where
  -- "Statistics".
  unfoldable pub count_both : ℕ → Ip → Ip → Direction → ℕ → Act (Client U) (Unit {0})
  unfolding add_bidirectional ip_string
  count_both now local remote dir n = modify (λ s. record s {
    monitor = elim s.monitor [
      | none ↦ none
      | some m ↦ some (add_bidirectional now (ip_string local) (ip_string remote) dir n m)
    ];
  })

  unfoldable pub count_outbound : ℕ → PacketIndicator → Ip → ℕ → Act (Client U) (Unit {0})
  unfolding dst_ip count_both
  count_outbound now ind ip n = do
    monitor ← reads (λ s. s.monitor)
    elim monitor [
      | none ↦ pure tt
      | some m ↦ do remote ← lift (dst_ip ind); count_both now ip remote Direction.direction_out n
    ]

  -- "Statistics" and the log line.
  unfoldable pub account_outbound : ℕ → PacketIndicator → Ip → Act (Client U) (Unit {0})
  unfolding mtu count_outbound transport_protocol src dst
  account_outbound now ind ip = do
    n ← lift (mtu w.gopacket ind)
    count_outbound now ind ip n
    lift (transport_protocol ind)
    lift (src ind)
    lift (dst ind)
    pure tt

  -- A packet that is not ARP.
  unfoldable pub forward : ℕ → Packet → RawConn → PacketIndicator → Act (Client U) (Unit {0})
  unfolding hardware_addr_of network_bytes write_up src_ip ip_string recorded_source
      account_outbound
  forward now packet conn ind = do
    mac ← lift (hardware_addr_of ind)
    data_bytes ← lift (network_bytes w.gopacket packet)
    write_up w data_bytes
    ip ← lift (src_ip ind)
    modify (λ s. record s { nat = recorded_source (ip_string ip) mac conn s.nat })
    account_outbound now ind ip

  unfoldable pub by_network :
      ℕ → Packet → RawConn → PacketIndicator → Layer → Act (Client U) (Unit {0})
  unfolding publish forward
  by_network now packet conn ind (Layer.arp a) = publish w packet conn
  by_network now packet conn ind _ = forward now packet conn ind

  -- `handleListen`.
  unfoldable pub handle_listen : ℕ → Packet → RawConn → Act (Client U) (Unit {0})
  unfolding parse_packet by_network
  handle_listen now packet conn = do
    ind ← lift (parse_packet w.gopacket packet)
    l ← lift (deref ind.network_layer)
    by_network now packet conn ind l
