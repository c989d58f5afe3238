-- ===== src/Server/Invariant/Living.antt =====
-- A number of a pool that is kept alive has the time in its slot.
use ikago.Base.{ℕ, ◌+◌, ◌<◌, ◌≡◌, sym, length, set, get_elem?, some, ok, bind-ok, arith}
use ikago.Gopacket.{LayerType}
use ikago.Server.Dist.{Pools, convert_from_port}
use ikago.Server.Dist.Alive.{IsValid, pool_of, base_of, convert_from_port-slot}
use ikago.Server.Alive.{touch, touch_slot, touch_slot-ok}
use ikago.Server.Invariant.{InPool}

-- The slot of the number `v` holds the time `now`.
pub data LiveAt (now : ℕ) (t : LayerType) (v : ℕ) (p : Pools) : Type 0 where
  live :
      (slot : ℕ) → v ≡ base_of t + slot → get_elem? (pool_of t p) slot ≡ some now → LiveAt now t v p

pub LiveAt-along :
    {now : ℕ} {t u : LayerType} {v : ℕ} {p : Pools} → t ≡ u → LiveAt now t v p → LiveAt now u v p
LiveAt-along e h = rw (← e) h

pub touch-LiveAt :
    (now : ℕ) (t : LayerType) (v : ℕ) (p p' : Pools)
    → InPool t v
    → touch now t v p ≡ ok p'
    → LiveAt now t v p'
unfolding touch
touch-LiveAt now LayerType.tcp v p p' h e =
    let (pool, hp, e1) = bind-ok (touch_slot now (convert_from_port v) p.tcp_port_pool) _ e in
    let (at, same) = touch_slot-ok now (convert_from_port v) p.tcp_port_pool pool hp in
    let new : pool ≡ p'.tcp_port_pool = cc in
    LiveAt.live (convert_from_port v) (sym ((convert_from_port-slot v h.1).0 h.0)) (rw (← new) at)
touch-LiveAt now LayerType.udp v p p' h e =
    let (pool, hp, e1) = bind-ok (touch_slot now (convert_from_port v) p.udp_port_pool) _ e in
    let (at, same) = touch_slot-ok now (convert_from_port v) p.udp_port_pool pool hp in
    let new : pool ≡ p'.udp_port_pool = cc in
    LiveAt.live (convert_from_port v) (sym ((convert_from_port-slot v h.1).0 h.0)) (rw (← new) at)
touch-LiveAt now LayerType.icmpv4 v p p' h e =
    let (pool, hp, e1) = bind-ok (touch_slot now v p.icmpv4_id_pool) _ e in
    let (at, same) = touch_slot-ok now v p.icmpv4_id_pool pool hp in
    let new : pool ≡ p'.icmpv4_id_pool = cc in LiveAt.live v (omega arith) (rw (← new) at)
touch-LiveAt now _ v p p' h e = elim h [ ]

-- A number of the pool is kept alive without an index out of range.
pub touch-InPool :
    (now : ℕ) (t : LayerType) (v : ℕ) (p : Pools)
    → IsValid p
    → InPool t v
    → (p' : Pools) × (touch now t v p ≡ ok p')
unfolding touch touch_slot
touch-InPool now LayerType.tcp v p valid (lo, hi) =
    let at = (convert_from_port-slot v hi).0 lo in
    let whole = valid.tcp_size in
    let inside : convert_from_port v < length p.tcp_port_pool = omega arith in
    (record p { tcp_port_pool = set p.tcp_port_pool (convert_from_port v) now }, ground arith)
touch-InPool now LayerType.udp v p valid (lo, hi) =
    let at = (convert_from_port-slot v hi).0 lo in
    let whole = valid.udp_size in
    let inside : convert_from_port v < length p.udp_port_pool = omega arith in
    (record p { udp_port_pool = set p.udp_port_pool (convert_from_port v) now }, ground arith)
touch-InPool now LayerType.icmpv4 v p valid h =
    let whole = valid.icmpv4_size in
    let inside : v < length p.icmpv4_id_pool = omega arith in
    (record p { icmpv4_id_pool = set p.icmpv4_id_pool v now }, ground arith)
touch-InPool now _ v p valid h = elim h [ ]
