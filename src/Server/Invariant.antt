-- ===== src/Server/Invariant.antt =====
-- What holds of the server's state between two calls of its handlers: the pools are whole, `patMap`
-- hands out numbers of the pools, and every entry of `nat` stands under the guide of a number of a
-- pool, with a client's source of the guide's protocol.
pub mod Mapping
pub mod Guides
pub mod Listening
pub mod Answering
pub mod Reaching
pub mod Living
use ikago.Base.{
  ℕ, ◌+◌, ◌≤◌, ◌<◌, ◌≡◌, refl, Bytes, List, [], length, Option, none, some, ok, u16_mod, true,
  arith,
}
use ikago.Addr.{Ip, Addr, string}
use ikago.Gopacket.{Gopacket, LayerType}
use ikago.Device.{need_ip}
use ikago.Packet.{PacketIndicator, is_frag}
use ikago.Packet.Parse.{parse_emb_packet}
use ikago.Stat.{TrafficMonitor}
use ikago.Server.Keys.{Entries, find}
use ikago.Server.Dist.{first_port, pool_size, id_pool_size, dist, Pools}
use ikago.Server.Dist.Alive.{IsValid, init-IsValid, pool_of, base_of, dist-DeadAt}
use ikago.Server.State.{
  Quintuple, NatGuide, NatIndicator, World, Server, quintuple_key, guide_key, start,
}

-- The ports and Ids that the server distributes for a protocol.
abbrev pub InPool : LayerType → ℕ → Type 0
InPool LayerType.tcp v = (first_port ≤ v) × (v < u16_mod)
InPool LayerType.udp v = (first_port ≤ v) × (v < u16_mod)
InPool LayerType.icmpv4 v = v < u16_mod
InPool _ v = ⊥

-- An entry of `nat` and its guide.
pub data Leads (w : World) (g : NatGuide) (ni : NatIndicator) : Type 0 where
  leads_tcp :
      (up ip : Ip) (v port : ℕ)
      → need_ip w.up_conn.src_dev ≡ ok up
      → InPool LayerType.tcp v
      → g.src ≡ string (Addr.tcp_addr up v)
      → g.protocol ≡ LayerType.tcp
      → ni.emb_src ≡ Addr.tcp_addr ip port
      → Leads w g ni
  leads_udp :
      (up ip : Ip) (v port : ℕ)
      → need_ip w.up_conn.src_dev ≡ ok up
      → InPool LayerType.udp v
      → g.src ≡ string (Addr.udp_addr up v)
      → g.protocol ≡ LayerType.udp
      → ni.emb_src ≡ Addr.udp_addr ip port
      → Leads w g ni
  leads_query :
      (up ip : Ip) (v id : ℕ)
      → need_ip w.up_conn.src_dev ≡ ok up
      → InPool LayerType.icmpv4 v
      → g.src ≡ string (Addr.icmp_query_addr up v)
      → g.protocol ≡ LayerType.icmpv4
      → ni.emb_src ≡ Addr.icmp_query_addr ip id
      → Leads w g ni

pub record Inv (w : World) (s : Server) : Type 0 where
  pub pools : IsValid s.pools
  pub values : Entries (λ q v. InPool q.protocol v) s.pat_map
  pub entries : Entries (Leads w) s.nat

-- What gopacket documents of fragments: it decodes nothing behind an IPv4 header with an offset or
-- with more fragments to come, so a fragment has no transport layer.
abbrev pub FragsBare : Gopacket → Type 0
FragsBare g =
    (b : Bytes) (ind : PacketIndicator)
    → parse_emb_packet g b ≡ ok ind
    → is_frag ind ≡ ok true
    → ind.transport_layer ≡ none

pub start-Inv : (w : World) (monitor : Option TrafficMonitor) → Inv w (start monitor)
unfolding start find
start-Inv w monitor = record { pools = init-IsValid; values = λ k v e. cc; entries = λ k v e. cc }

-- What `dist` returns is in the protocol's pool.
pub dist-InPool :
    (now : ℕ) (t : LayerType) (p q : Pools) (v : ℕ)
    → IsValid p
    → dist now t p ≡ (ok v, q)
    → InPool t v
dist-InPool now LayerType.tcp p q v valid e =
    let (s, lt, at, d) = dist-DeadAt now LayerType.tcp p q v valid e in
    let whole = valid.tcp_size in (omega arith, omega arith)
dist-InPool now LayerType.udp p q v valid e =
    let (s, lt, at, d) = dist-DeadAt now LayerType.udp p q v valid e in
    let whole = valid.udp_size in (omega arith, omega arith)
dist-InPool now LayerType.icmpv4 p q v valid e =
    let (s, lt, at, d) = dist-DeadAt now LayerType.icmpv4 p q v valid e in
    let whole = valid.icmpv4_size in omega arith
dist-InPool now _ p q v valid e =
    let (s, lt, at, d) = dist-DeadAt now _ p q v valid e in absurd (omega arith)

-- What changes none of the three keeps the invariant.
pub Inv-same :
    {w : World} (s t : Server)
    → t.pools ≡ s.pools
    → t.pat_map ≡ s.pat_map
    → t.nat ≡ s.nat
    → Inv w s
    → Inv w t
Inv-same s t p m n inv = record {
  pools = rw p inv.pools;
  values = rw m inv.values;
  entries = rw n inv.entries;
}
