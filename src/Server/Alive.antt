-- ===== src/Server/Alive.antt =====
-- "Keep alive" in the two handlers of cmd/ikago-server/main.go: the slot of a port or an Id gets the
-- time of the call.
use ikago.Base.{
  ℕ, ◌<◌, ◌≡◌, ◌∙◌, inl, inr, Bool-cases, List, length, get_elem?, set, length-set,
  get_elem?-set_self, some, Result, ok, err, panic, ◌>>=◌, bind-ok, ltb, transport_layer_type,
  if◌then◌else◌, arith,
}
use ikago.Gopacket.{LayerType}
use ikago.Server.Dist.{Pools, convert_from_port}
use ikago.Server.Dist.Alive.{IsValid}

-- `pool[slot] = time.Now()`.
unfoldable pub touch_slot : ℕ → ℕ → List ℕ → Result (List ℕ)
touch_slot now slot pool = if ltb slot (length pool) then ok (set pool slot now) else panic

-- The pools, after a port or an Id was used.
unfoldable pub touch : ℕ → LayerType → ℕ → Pools → Result Pools
unfolding touch_slot convert_from_port
touch now LayerType.tcp value p = do
  pool ← touch_slot now (convert_from_port value) p.tcp_port_pool
  ok (record p { tcp_port_pool = pool })
touch now LayerType.udp value p = do
  pool ← touch_slot now (convert_from_port value) p.udp_port_pool
  ok (record p { udp_port_pool = pool })
touch now LayerType.icmpv4 value p = do
  pool ← touch_slot now value p.icmpv4_id_pool
  ok (record p { icmpv4_id_pool = pool })
touch now _ value p = err transport_layer_type

pub touch_slot-ok :
    (now slot : ℕ) (pool pool' : List ℕ)
    → touch_slot now slot pool ≡ ok pool'
    → (get_elem? pool' slot ≡ some now) × (length pool' ≡ length pool)
unfolding touch_slot
touch_slot-ok now slot pool pool' e = elim (Bool-cases (ltb slot (length pool))) [
  | inl h ↦
      let inside : slot < length pool = ground arith in
      let same : pool' ≡ set pool slot now = ground arith in
      (rw same (get_elem?-set_self pool slot now inside), rw same (length-set pool slot now))
  | inr h ↦ ground arith
]

-- Keeping a number alive keeps the pools.
pub touch-IsValid :
    (now : ℕ) (t : LayerType) (v : ℕ) (p p' : Pools)
    → touch now t v p ≡ ok p'
    → IsValid p
    → IsValid p'
unfolding touch
touch-IsValid now LayerType.tcp v p p' e valid =
    let (pool, h, e1) = bind-ok (touch_slot now (convert_from_port v) p.tcp_port_pool) _ e in
    let (at, same) = touch_slot-ok now (convert_from_port v) p.tcp_port_pool pool h in
    let new : record p { tcp_port_pool = pool } ≡ p' = cc in
    rw (← new) (record {
      tcp_next = valid.tcp_next;
      udp_next = valid.udp_next;
      icmpv4_next = valid.icmpv4_next;
      tcp_size = same ∙ valid.tcp_size;
      udp_size = valid.udp_size;
      icmpv4_size = valid.icmpv4_size;
    })
touch-IsValid now LayerType.udp v p p' e valid =
    let (pool, h, e1) = bind-ok (touch_slot now (convert_from_port v) p.udp_port_pool) _ e in
    let (at, same) = touch_slot-ok now (convert_from_port v) p.udp_port_pool pool h in
    let new : record p { udp_port_pool = pool } ≡ p' = cc in
    rw (← new) (record {
      tcp_next = valid.tcp_next;
      udp_next = valid.udp_next;
      icmpv4_next = valid.icmpv4_next;
      tcp_size = valid.tcp_size;
      udp_size = same ∙ valid.udp_size;
      icmpv4_size = valid.icmpv4_size;
    })
touch-IsValid now LayerType.icmpv4 v p p' e valid =
    let (pool, h, e1) = bind-ok (touch_slot now v p.icmpv4_id_pool) _ e in
    let (at, same) = touch_slot-ok now v p.icmpv4_id_pool pool h in
    let new : record p { icmpv4_id_pool = pool } ≡ p' = cc in
    rw (← new) (record {
      tcp_next = valid.tcp_next;
      udp_next = valid.udp_next;
      icmpv4_next = valid.icmpv4_next;
      tcp_size = valid.tcp_size;
      udp_size = valid.udp_size;
      icmpv4_size = same ∙ valid.icmpv4_size;
    })
touch-IsValid now _ v p p' e valid = cc
