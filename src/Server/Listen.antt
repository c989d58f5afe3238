-- ===== src/Server/Listen.antt =====
-- `handleListen` of cmd/ikago-server/main.go: a client's packet gets a port or an Id, is sent to the
-- upstream, and is recorded for the answers.
use ikago.Base.{ℕ, suc, Bytes, List, [], ◌∷◌, none, some, err, deref, missing_nat, if◌then◌else◌}
use ikago.Addr.{string}
use ikago.Gopacket.{LayerType, Layer, layer_type}
use ikago.Device.{need_ip}
use ikago.Packet.{PacketIndicator, is_frag}
use ikago.Packet.Nat.{nat_protocol, size}
use ikago.Packet.Parse.{parse_emb_packet}
use ikago.Stat.{Direction, add_direction}
use ikago.Server.Keys.{find, put}
use ikago.Server.Dist.{dist}
use ikago.Server.Alive.{touch}
use ikago.Server.State.{
  Quintuple, Conn, World, Act, pure, lift, reads, modify, ◌>>=◌, ◌>>◌, write_up, quintuple_key,
  guide_key,
}
use ikago.Server.Identity.{quintuple_of, is_error_of, guide_of, nat_entry, log_outbound}
use ikago.Server.Outbound.{outbound}

-- `dist` on the pools of the server.
unfoldable pub distribute : ℕ → LayerType → Act ℕ
unfolding dist
distribute now t s = let (r, pools) = dist now t s.pools in (r, record s { pools = pools })

-- A quintuple that `patMap` does not have: an ICMPv4 error is dropped, and another packet gets a
-- new port or Id.
unfoldable pub map_new : ℕ → PacketIndicator → Quintuple → Act ℕ
unfolding is_error_of distribute
map_new now ind q = do
  l ← lift (deref ind.transport_layer)
  error ← lift (is_error_of ind l)
  if error then lift (err missing_nat) else (do
    value ← distribute now (layer_type l)
    modify (λ s. record s { pat_map = put q value s.pat_map })
    pure value)

unfoldable pub map_value : ℕ → PacketIndicator → Conn → Act ℕ
unfolding quintuple_of map_new
map_value now ind conn = do
  q ← lift (quintuple_of ind conn)
  known ← reads (λ s. find q s.pat_map)
  elim known [ some value ↦ pure value | none ↦ map_new now ind q ]

-- `upValue`: a fragment gets none, which is 0.
unfoldable pub up_value : ℕ → PacketIndicator → Conn → Act ℕ
unfolding is_frag map_value
up_value now ind conn = do
  frag ← lift (is_frag ind)
  if frag then pure 0 else map_value now ind conn

unfoldable pub write_outbound : World → PacketIndicator → ℕ → List Bytes → Act (Unit {0})
unfolding write_up log_outbound
write_outbound w ind i [] = pure tt
write_outbound w ind i (packet ∷ rest) = do
  write_up w packet
  lift (log_outbound i packet ind)
  write_outbound w ind (suc i) rest

unfoldable pub record_nat : World → ℕ → PacketIndicator → Conn → Layer → Act (Unit {0})
unfolding need_ip guide_of nat_entry
record_nat w value ind conn l = do
  ip ← lift (need_ip w.up_conn.src_dev)
  guide ← lift (guide_of ip value ind l)
  elim guide [
    | none ↦ pure tt
    | some g ↦ do ni ← lift (nat_entry ind conn); modify (λ s. record s { nat = put g ni s.nat })
  ]

-- "Keep alive".
unfoldable pub keep_alive : ℕ → LayerType → ℕ → Act (Unit {0})
unfolding touch
keep_alive now t value = do
  pools ← (λ s. (touch now t value s.pools, s))
  modify (λ s. record s { pools = pools })

-- "NAT": only of a packet with a transport layer.
unfoldable pub remember : World → ℕ → ℕ → PacketIndicator → Conn → Act (Unit {0})
unfolding record_nat nat_protocol keep_alive
remember w now value ind conn = elim ind.transport_layer [
  | none ↦ pure tt
  | some l ↦ do
    record_nat w value ind conn l
    protocol ← lift (nat_protocol ind)
    keep_alive now protocol value
]

-- "Statistics".
unfoldable pub count_outbound : ℕ → PacketIndicator → Conn → Act (Unit {0})
unfolding size add_direction string
count_outbound now ind conn = do
  monitor ← reads (λ s. s.monitor)
  elim monitor [
    | none ↦ pure tt
    | some m ↦ do
      n ← lift (size ind)
      modify (λ s. record s {
        monitor = some (add_direction now (string conn.remote_addr) Direction.direction_out n m);
      })
  ]

-- The handler behind the parser.
unfoldable pub redirect : World → ℕ → PacketIndicator → Conn → Act (Unit {0})
unfolding up_value outbound write_outbound remember count_outbound
redirect w now ind conn = do
  value ← up_value now ind conn
  packets ← lift (outbound w value ind)
  write_outbound w ind 0 packets
  remember w now value ind conn
  count_outbound now ind conn

-- `handleListen`.
unfoldable pub handle_listen : World → ℕ → Bytes → Conn → Act (Unit {0})
unfolding parse_emb_packet redirect
handle_listen w now [] conn = pure tt
handle_listen w now (b ∷ rest) conn = do
  ind ← lift (parse_emb_packet w.gopacket (b ∷ rest))
  redirect w now ind conn
