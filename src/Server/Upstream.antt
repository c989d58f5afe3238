-- ===== src/Server/Upstream.antt =====
-- `handleUpstream` of cmd/ikago-server/main.go: a packet from the upstream is put together, finds
-- its client in the NAT, and is delivered, fragment by fragment.
use ikago.Base.{
  ℕ, Bytes, List, [], ◌∷◌, Option, none, some, store, length, ltb, ◌&&◌, if◌then◌else◌,
}
use ikago.Addr.{Ip, ip_string, string}
use ikago.Gopacket.{Packet}
use ikago.Packet.{PacketIndicator, DnsIndicator, is_response, answers}
use ikago.Packet.Nat.{nat_protocol, mtu}
use ikago.Packet.Parse.{parse_packet}
use ikago.Fragment.Defrag.{append_original}
use ikago.Stat.{Direction, add_direction}
use ikago.Server.Keys.{find}
use ikago.Server.State.{
  NatIndicator, World, Act, pure, lift, reads, modify, ◌>>=◌, ◌>>◌, write_client, guide_key,
}
use ikago.Server.Identity.{upstream_guide, alive_value, log_inbound}
use ikago.Server.Inbound.{inbound}
use ikago.Server.Listen.{keep_alive}

-- `defrag.AppendOriginal`.
unfoldable pub defragment :
    World → ℕ → PacketIndicator → Act (Option (PacketIndicator × List PacketIndicator))
unfolding append_original
defragment w now ind s =
    let (r, d) = append_original w.gopacket now s.defrag ind in (r, record s { defrag = d })

unfoldable pub count_inbound : ℕ → NatIndicator → ℕ → Act (Unit {0})
unfolding add_direction string
count_inbound now ni n = do
  monitor ← reads (λ s. s.monitor)
  elim monitor [
    | none ↦ pure tt
    | some m ↦ modify (λ s. record s {
      monitor = some (add_direction now (string ni.conn.remote_addr) Direction.direction_in n m);
    })
  ]

-- One fragment.
unfoldable pub deliver_one : World → ℕ → NatIndicator → PacketIndicator → Act (Unit {0})
unfolding inbound write_client mtu count_inbound log_inbound
deliver_one w now ni frag = do
  bytes ← lift (inbound w.gopacket ni frag)
  write_client w ni.conn bytes
  n ← lift (mtu w.gopacket frag)
  count_inbound now ni n
  lift (log_inbound frag)

unfoldable pub deliver : World → ℕ → NatIndicator → List PacketIndicator → Act (Unit {0})
unfolding deliver_one
deliver w now ni [] = pure tt
deliver w now ni (frag ∷ rest) = do deliver_one w now ni frag; deliver w now ni rest

-- "Record DNS": the addresses of a response, under its name.
unfoldable pub record_names : Bytes → List Ip → List (Bytes × Bytes) → List (Bytes × Bytes)
unfolding ip_string
record_names name [] dns = dns
record_names name (ip ∷ rest) dns = record_names name rest (store (ip_string ip) name dns)

unfoldable pub recorded : DnsIndicator → List (Bytes × Bytes) → List (Bytes × Bytes)
unfolding is_response answers record_names
recorded d dns =
    let (name, ips) = answers d in
    let named = ltb 0 (length name) in
    if is_response d && named then record_names name ips dns else dns

unfoldable pub record_dns : PacketIndicator → Act (Unit {0})
unfolding recorded
record_dns ind = do
  monitor ← reads (λ s. s.monitor)
  elim monitor [
    | none ↦ pure tt
    | some m ↦ elim ind.dns_indicator [
      | none ↦ pure tt
      | some d ↦ modify (λ s. record s { dns = recorded d s.dns })
    ]
  ]

-- "Keep alive".
unfoldable pub keep_upstream : ℕ → PacketIndicator → Act (Unit {0})
unfolding nat_protocol alive_value keep_alive
keep_upstream now ind = do
  protocol ← lift (nat_protocol ind)
  value ← lift (alive_value ind protocol)
  keep_alive now protocol value

-- A packet whose client is known.
unfoldable pub answer :
    World → ℕ → PacketIndicator → List PacketIndicator → NatIndicator → Act (Unit {0})
unfolding keep_upstream deliver record_dns
answer w now ind frags ni = do keep_upstream now ind; deliver w now ni frags; record_dns ind

-- A whole packet; one that is in no NAT is dropped.
unfoldable pub dispatch : World → ℕ → PacketIndicator → List PacketIndicator → Act (Unit {0})
unfolding upstream_guide answer
dispatch w now ind frags = do
  guide ← lift (upstream_guide ind)
  known ← reads (λ s. find guide s.nat)
  elim known [ none ↦ pure tt | some ni ↦ answer w now ind frags ni ]

-- `handleUpstream`.
unfoldable pub handle_upstream : World → ℕ → Packet → Act (Unit {0})
unfolding parse_packet defragment dispatch
handle_upstream w now packet = do
  ind ← lift (parse_packet w.gopacket packet)
  found ← defragment w now ind
  elim found [ none ↦ pure tt | some (whole, frags) ↦ dispatch w now whole frags ]
