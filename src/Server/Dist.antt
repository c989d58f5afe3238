-- ===== src/Server/Dist.antt =====
-- `dist` and `convertFromPort` of cmd/ikago-server/main.go: ports and ICMPv4 Ids are handed out
-- round robin from pools that hold the last time at which each was used. A time is the number of
-- nanoseconds since Go's zero time, so the pools start at 0.
pub mod Scan
pub mod Alive
mod Tests
use ikago.Base.{
  ℕ, zero, suc, Bool, ◌+◌, ◌-◌, ◌*◌, ◌%◌, ◌^◌, ◌<◌, List, get_elem?, replicate, Option, none, some,
  Result, ok, err, panic, pool_empty, transport_layer_type, add16, sub16, ltb, if◌then◌else◌,
}
use ikago.Gopacket.{LayerType}

-- `keepAlive`: 30 seconds.
abbrev pub keep_alive : ℕ
keep_alive = 30 * 10 ^ 9

abbrev pub pool_size : ℕ
pool_size = 16384

abbrev pub id_pool_size : ℕ
id_pool_size = 65536

abbrev pub first_port : ℕ
first_port = 49152

-- The variables that `dist` works on.
pub record Pools : Type 0 where
  pub next_tcp_port : ℕ
  pub tcp_port_pool : List ℕ
  pub next_udp_port : ℕ
  pub udp_port_pool : List ℕ
  pub next_icmpv4_id : ℕ
  pub icmpv4_id_pool : List ℕ

-- As `init` makes them.
unfoldable pub init : Pools
init = record {
  next_tcp_port = 0;
  tcp_port_pool = replicate pool_size 0;
  next_udp_port = 0;
  udp_port_pool = replicate pool_size 0;
  next_icmpv4_id = 0;
  icmpv4_id_pool = replicate id_pool_size 0;
}

-- `now.Sub(last) > keepAlive`, the difference being negative when the clock went back.
abbrev pub is_dead : ℕ → ℕ → Bool
is_dead now last = ltb keep_alive (now - last)

-- One of the three loops: `rounds` slots from `next`, modulo the size of the pool (which changes
-- nothing for Ids, since `next` is a uint16). It returns the slot, if one is free, and the variable
-- `next`; a read out of range panics.
unfoldable pub scan : ℕ → ℕ → ℕ → List ℕ → ℕ → Result (Option ℕ) × ℕ
scan size now zero pool next = (ok none, next)
scan size now (suc rounds) pool next =
    let s = next % size in
    let rest = scan size now rounds pool (add16 next 1) in
    elim (get_elem? pool s) [
      | none ↦ (panic, add16 next 1)
      | some last ↦ if is_dead now last then (ok (some s), add16 next 1) else rest
    ]

-- The number that is returned for a slot, and the error behind the loop.
taken : ℕ → Result (Option ℕ) → Result ℕ
taken base (ok none) = err pool_empty
taken base (ok (some s)) = ok (add16 base s)
taken base (err e) = err e
taken base panic = panic

-- `dist`: the pools keep their times, and only the next slot moves.
unfoldable pub dist : ℕ → LayerType → Pools → Result ℕ × Pools
unfolding taken
dist now LayerType.tcp p =
    let (r, next) = scan pool_size now pool_size p.tcp_port_pool p.next_tcp_port in
    (taken first_port r, record p { next_tcp_port = next })
dist now LayerType.udp p =
    let (r, next) = scan pool_size now pool_size p.udp_port_pool p.next_udp_port in
    (taken first_port r, record p { next_udp_port = next })
dist now LayerType.icmpv4 p =
    let (r, next) = scan id_pool_size now id_pool_size p.icmpv4_id_pool p.next_icmpv4_id in
    (taken 0 r, record p { next_icmpv4_id = next })
dist now _ p = (err transport_layer_type, p)

-- `convertFromPort`.
unfoldable pub convert_from_port : ℕ → ℕ
convert_from_port port = sub16 port first_port
