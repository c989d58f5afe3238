-- ===== src/Server/Dist/Alive.antt =====
-- `dist` as a whole: a port or an Id in use is never handed out, and the pool is reported empty
-- exactly when every slot is in use.
use ikago.Base.{
  ℕ, ◌+◌, ◌-◌, ◌%◌, ◌≤◌, ◌<◌, ◌≡◌, ◌↔◌, refl, List, [], get_elem?, length, Option, none, some,
  Result, ok, err, panic, pool_empty, transport_layer_type, ap, add16, u16_mod, length-replicate,
  arith,
}
use ikago.Gopacket.{LayerType}
use ikago.Server.Dist.{
  Pools, keep_alive, pool_size, id_pool_size, first_port, scan, taken, dist, convert_from_port,
  init,
}
use ikago.Server.Dist.Scan.{DeadAt, scan-DeadAt, scan-none, scan-total, scan-next}

pub record IsValid (p : Pools) : Type 0 where
  pub tcp_next : p.next_tcp_port < u16_mod
  pub udp_next : p.next_udp_port < u16_mod
  pub icmpv4_next : p.next_icmpv4_id < u16_mod
  pub tcp_size : length p.tcp_port_pool ≡ pool_size
  pub udp_size : length p.udp_port_pool ≡ pool_size
  pub icmpv4_size : length p.icmpv4_id_pool ≡ id_pool_size

pub init-IsValid : IsValid init
unfolding init
init-IsValid = record {
  tcp_next = omega arith;
  udp_next = omega arith;
  icmpv4_next = omega arith;
  tcp_size = length-replicate {A = ℕ} pool_size 0;
  udp_size = length-replicate {A = ℕ} pool_size 0;
  icmpv4_size = length-replicate {A = ℕ} id_pool_size 0;
}

-- The pool that a protocol draws from, and the number of its slot 0.
abbrev pub pool_of : LayerType → Pools → List ℕ
pool_of LayerType.tcp p = p.tcp_port_pool
pool_of LayerType.udp p = p.udp_port_pool
pool_of LayerType.icmpv4 p = p.icmpv4_id_pool
pool_of _ p = []

abbrev pub base_of : LayerType → ℕ
base_of LayerType.icmpv4 = 0
base_of _ = first_port

-- Every slot of the pool was used within the keep-alive time.
abbrev pub AllAlive : ℕ → List ℕ → Type 0
AllAlive now pool =
    (s : ℕ)
    → s < length pool
    → (last : ℕ) × (get_elem? pool s ≡ some last) × (now - last ≤ keep_alive)

taken-DeadAt :
    (size base now : ℕ) (pool : List ℕ) (next v : ℕ) (r : Result (Option ℕ))
    → 0 < size
    → base + size ≤ u16_mod
    → length pool ≡ size
    → (scan size now size pool next).0 ≡ r
    → taken base r ≡ ok v
    → (s : ℕ) × (s < length pool) × (v ≡ base + s) × DeadAt now pool s
unfolding taken
taken-DeadAt size base now pool next v (ok (some s)) pos fits whole e h =
    let (lt, d) =
      scan-DeadAt size now pool pos whole size next s (scan size now size pool next).1
        (ap (λ r. (r, (scan size now size pool next).1)) e) in
    (s, omega arith, let e : add16 base s ≡ v = cc in omega arith, d)
taken-DeadAt size base now pool next v (ok none) pos fits whole e h = cc
taken-DeadAt size base now pool next v (err x) pos fits whole e h = cc
taken-DeadAt size base now pool next v panic pos fits whole e h = cc

-- A number that `dist` returns is the number of a slot of the protocol's pool, and that slot is dead.
pub dist-DeadAt :
    (now : ℕ) (t : LayerType) (p q : Pools) (v : ℕ)
    → IsValid p
    → dist now t p ≡ (ok v, q)
    → (s : ℕ) × (s < length (pool_of t p)) × (v ≡ base_of t + s) × DeadAt now (pool_of t p) s
unfolding dist
dist-DeadAt now LayerType.tcp p q v valid e =
    taken-DeadAt pool_size first_port now p.tcp_port_pool p.next_tcp_port v _ (omega arith)
      (omega arith) valid.tcp_size refl (ap (λ x. x.0) e)
dist-DeadAt now LayerType.udp p q v valid e =
    taken-DeadAt pool_size first_port now p.udp_port_pool p.next_udp_port v _ (omega arith)
      (omega arith) valid.udp_size refl (ap (λ x. x.0) e)
dist-DeadAt now LayerType.icmpv4 p q v valid e =
    taken-DeadAt id_pool_size 0 now p.icmpv4_id_pool p.next_icmpv4_id v _ (omega arith)
      (omega arith) valid.icmpv4_size refl (ap (λ x. x.0) e)
dist-DeadAt now _ p q v valid e =
    absurd (let h : err transport_layer_type ≡ ok v = ap (λ x. x.0) e in cc)

-- A protocol that has a pool.
abbrev pub IsPooled : LayerType → Type 0
IsPooled LayerType.tcp = Unit {0}
IsPooled LayerType.udp = Unit {0}
IsPooled LayerType.icmpv4 = Unit {0}
IsPooled _ = ⊥

module _ (size base now : ℕ) (pool : List ℕ) (next : ℕ) (pos : 0 < size)
    (whole : length pool ≡ size) (start : next < u16_mod)
    (reach : (s : ℕ) → s < size → (k : ℕ) × (k < size) × ((next + k) % u16_mod % size ≡ s)) where
  none-AllAlive :
      (r : Option ℕ) → (scan size now size pool next).0 ≡ ok r → r ≡ none → AllAlive now pool
  none-AllAlive r e h s hs =
      let (k, hk, at) = reach s (omega arith) in
      let (last, get, fresh) =
        scan-none size now pool pos whole size next (scan size now size pool next).1 k start hk
          (ap (λ x. (x, (scan size now size pool next).1)) (rw h at e)) in
      (last, rw at at get, fresh)

  AllAlive-none :
      (r : Option ℕ) → AllAlive now pool → (scan size now size pool next).0 ≡ ok r → r ≡ none
  AllAlive-none none all e = refl
  AllAlive-none (some s) all e =
      let (lt, d) =
        scan-DeadAt size now pool pos whole size next s (scan size now size pool next).1
          (ap (λ x. (x, (scan size now size pool next).1)) e) in
      absurd (not_both (all s (omega arith)) d)
    where
      not_both :
          (last : ℕ) × (get_elem? pool s ≡ some last) × (now - last ≤ keep_alive)
          → ¬ DeadAt now pool s
      not_both (last, get, fresh) (DeadAt.dead l h lt) = let same : last ≡ l = cc in omega arith

  taken-pool_empty :
      (taken base (scan size now size pool next).0 ≡ err pool_empty) ↔ AllAlive now pool
  unfolding taken
  taken-pool_empty =
      let (r, n, e) = scan-total size now pool pos whole size next in
      let e0 : (scan size now size pool next).0 ≡ ok r = ap (λ x. x.0) e in
      (λ h. none-AllAlive r e0 (ground arith), λ all. rw (e0, AllAlive-none r all e0))

port_reach :
    (next s : ℕ)
    → next < u16_mod
    → s < pool_size
    → (k : ℕ) × (k < pool_size) × ((next + k) % u16_mod % pool_size ≡ s)
port_reach next s h hs = ((s + pool_size - next % pool_size) % pool_size, omega arith, omega arith)

id_reach :
    (next s : ℕ)
    → next < u16_mod
    → s < id_pool_size
    → (k : ℕ) × (k < id_pool_size) × ((next + k) % u16_mod % id_pool_size ≡ s)
id_reach next s h hs = ((s + id_pool_size - next) % id_pool_size, omega arith, omega arith)

-- `dist` reports an empty pool exactly when every slot was used within the keep-alive time.
pub dist-AllAlive :
    (now : ℕ) (t : LayerType) (p : Pools)
    → IsValid p
    → IsPooled t
    → ((dist now t p).0 ≡ err pool_empty) ↔ AllAlive now (pool_of t p)
unfolding dist
dist-AllAlive now LayerType.tcp p v h =
    taken-pool_empty pool_size first_port now p.tcp_port_pool p.next_tcp_port (omega arith)
      v.tcp_size v.tcp_next (λ s. port_reach p.next_tcp_port s v.tcp_next)
dist-AllAlive now LayerType.udp p v h =
    taken-pool_empty pool_size first_port now p.udp_port_pool p.next_udp_port (omega arith)
      v.udp_size v.udp_next (λ s. port_reach p.next_udp_port s v.udp_next)
dist-AllAlive now LayerType.icmpv4 p v h =
    taken-pool_empty id_pool_size 0 now p.icmpv4_id_pool p.next_icmpv4_id (omega arith)
      v.icmpv4_size v.icmpv4_next (λ s. id_reach p.next_icmpv4_id s v.icmpv4_next)
dist-AllAlive now _ p v h = elim h [ ]

-- `dist` keeps the pools, and the variables stay within a uint16.
pub dist-IsValid : (now : ℕ) (t : LayerType) (p : Pools) → IsValid p → IsValid (dist now t p).1
unfolding dist
dist-IsValid now LayerType.tcp p v = record {
  tcp_next =
      scan-next pool_size now p.tcp_port_pool (omega arith) v.tcp_size pool_size p.next_tcp_port
        v.tcp_next;
  udp_next = v.udp_next;
  icmpv4_next = v.icmpv4_next;
  tcp_size = v.tcp_size;
  udp_size = v.udp_size;
  icmpv4_size = v.icmpv4_size;
}
dist-IsValid now LayerType.udp p v = record {
  tcp_next = v.tcp_next;
  udp_next =
      scan-next pool_size now p.udp_port_pool (omega arith) v.udp_size pool_size p.next_udp_port
        v.udp_next;
  icmpv4_next = v.icmpv4_next;
  tcp_size = v.tcp_size;
  udp_size = v.udp_size;
  icmpv4_size = v.icmpv4_size;
}
dist-IsValid now LayerType.icmpv4 p v = record {
  tcp_next = v.tcp_next;
  udp_next = v.udp_next;
  icmpv4_next =
      scan-next id_pool_size now p.icmpv4_id_pool (omega arith) v.icmpv4_size id_pool_size
        p.next_icmpv4_id v.icmpv4_next;
  tcp_size = v.tcp_size;
  udp_size = v.udp_size;
  icmpv4_size = v.icmpv4_size;
}
dist-IsValid now _ p v = v

-- `convertFromPort` gives back the slot of a port that `dist` returns, and, below the first port,
-- an index beyond the pool.
pub convert_from_port-slot :
    (port : ℕ)
    → port < u16_mod
    → (first_port ≤ port → first_port + convert_from_port port ≡ port)
      × (port < first_port → pool_size ≤ convert_from_port port)
unfolding convert_from_port
convert_from_port-slot port h = (λ l. omega arith, λ l. omega arith)
