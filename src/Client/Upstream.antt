-- ===== src/Client/Upstream.antt =====
-- `handleUpstream` of cmd/ikago-client/main.go: a packet from the server is written to the device that
-- its destination was heard on.
use ikago.Base.{
  ℕ, Bytes, List, [], ◌∷◌, Option, none, some, Result, ok, err, deref, lookup, missing_nat,
}
use ikago.Base
use ikago.Calls.{Act, pure, lift, reads, modify, ◌>>=◌, ◌>>◌}
use ikago.Addr.{ip_string}
use ikago.Device.{RawConn}
use ikago.Layers.{create_link_layer}
use ikago.Fragment.Create.{create_fragment_packets}
use ikago.Packet.{PacketIndicator, src_ip, dst_ip, transport_protocol}
use ikago.Packet.Nat.{src, dst, size}
use ikago.Packet.Parse.{parse_emb_packet}
use ikago.Stat.{Direction}
use ikago.Server.Outbound.{payload_bytes}
use ikago.Server.Upstream.{recorded}
use ikago.Client.{World, Client, NatIndicator, write_raw}
use ikago.Client.Listen.{count_both}

module _ {U : Type 0} (w : World U) where
  -- The packets for the device.
  unfoldable pub device_packets : NatIndicator → PacketIndicator → Result (List Bytes)
  unfolding create_link_layer create_fragment_packets payload_bytes
  device_packets ni ind = Base.◌>>=◌ (deref ind.network_layer) (λ network.
      Base.◌>>=◌ (create_link_layer ni.conn ni.src_hardware_addr network) (λ link.
        create_fragment_packets w.gopacket (some link) network ind.transport_layer
          (payload_bytes w.gopacket ind) w.fragment))

  -- The log line of the last packet has the packet's size.
  unfoldable pub log_size : PacketIndicator → List Bytes → Act (Client U) (Unit {0})
  unfolding size
  log_size ind [] = lift (Base.◌>>=◌ (size ind) (λ n. ok tt))
  log_size ind (next ∷ rest) = pure tt

  -- The loop that writes them.
  unfoldable pub write_packets : RawConn → PacketIndicator → List Bytes → Act (Client U) (Unit {0})
  unfolding write_raw transport_protocol dst src log_size
  write_packets conn ind [] = pure tt
  write_packets conn ind (packet ∷ rest) = do
    write_raw w conn packet
    lift (transport_protocol ind)
    lift (dst ind)
    lift (src ind)
    log_size ind rest
    write_packets conn ind rest

  -- "Statistics" and "Record DNS", with a monitor.
  unfoldable pub account : ℕ → PacketIndicator → Act (Client U) (Unit {0})
  unfolding dst_ip src_ip size count_both recorded
  account now ind = do
    monitor ← reads (λ s. s.monitor)
    elim monitor [
      | none ↦ pure tt
      | some m ↦ do
        local ← lift (dst_ip ind)
        remote ← lift (src_ip ind)
        n ← lift (size ind)
        count_both w now local remote Direction.direction_in n
        elim ind.dns_indicator [
          | none ↦ pure tt
          | some d ↦ modify (λ s. record s { dns = recorded d s.dns })
        ]
    ]

  -- A packet whose device is known.
  unfoldable pub deliver : ℕ → PacketIndicator → NatIndicator → Act (Client U) (Unit {0})
  unfolding device_packets write_packets account
  deliver now ind ni = do
    packets ← lift (device_packets ni ind)
    write_packets ni.conn ind packets
    account now ind

  -- `handleUpstream`.
  unfoldable pub handle_upstream : ℕ → Bytes → Act (Client U) (Unit {0})
  unfolding parse_emb_packet dst_ip ip_string deliver
  handle_upstream now [] = pure tt
  handle_upstream now (b ∷ rest) = do
    ind ← lift (parse_emb_packet w.gopacket (b ∷ rest))
    ip ← lift (dst_ip ind)
    known ← reads (λ s. lookup (ip_string ip) s.nat)
    elim known [ none ↦ lift (err missing_nat) | some ni ↦ deliver now ind ni ]
