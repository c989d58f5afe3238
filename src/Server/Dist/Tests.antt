-- ===== src/Server/Dist/Tests.antt =====
-- `dist` on the pools that `init` makes, 31 seconds after Go's zero time, and on a small pool.
use ikago.Base.{
  ℕ, ◌+◌, ◌*◌, ◌^◌, ◌≤◌, ◌<◌, ◌≡◌, ◌↔◌, refl, [], ◌∷◌, length, none, some, ok, err, pool_empty,
  arith,
}
use ikago.Gopacket.{LayerType}
use ikago.Server.Dist.{pool_size, first_port, scan, dist, init, convert_from_port}
use ikago.Server.Dist.Scan.{DeadAt}
use ikago.Server.Dist.Alive.{
  init-IsValid, AllAlive, dist-DeadAt, dist-AllAlive, convert_from_port-slot,
}

abbrev now : ℕ
now = 31 * 10 ^ 9

-- The second of three slots is the only dead one.
scan_skips : scan 3 now 3 (now ∷ 0 ∷ now ∷ []) 2 ≡ (ok (some 1), 5)
unfolding scan
scan_skips = refl

scan_empty : scan 2 now 2 (now ∷ now ∷ []) 7 ≡ (ok none, 9)
unfolding scan
scan_empty = refl

first_dist : dist now LayerType.tcp init ≡ (ok 49152, record init { next_tcp_port = 1 })
unfolding dist scan init
first_dist = refl

dist-DeadAt_example :
    (s : ℕ) × (s < length init.tcp_port_pool)
    × (49152 ≡ first_port + s)
    × DeadAt now init.tcp_port_pool s
dist-DeadAt_example =
    dist-DeadAt now LayerType.tcp init (record init { next_tcp_port = 1 }) 49152 init-IsValid
      first_dist

dist-AllAlive_example :
    ((dist now LayerType.udp init).0 ≡ err pool_empty) ↔ AllAlive now init.udp_port_pool
dist-AllAlive_example = dist-AllAlive now LayerType.udp init init-IsValid tt

convert_from_port-slot_example :
    (first_port ≤ 50000 → first_port + convert_from_port 50000 ≡ 50000)
    × (50000 < first_port → pool_size ≤ convert_from_port 50000)
convert_from_port-slot_example = convert_from_port-slot 50000 (omega arith)
