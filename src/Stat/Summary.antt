-- ===== src/Stat/Summary.antt =====
-- The counters of a node are what its own traffic adds up to.
use ikago.Base.{
  ℕ, ◌+◌, ◌%◌, ◌<◌, ◌≡◌, refl, ap, ◌∙◌, inl, inr, Bytes, List, [], ◌∷◌, length, Option, none, some,
  Option-cases, Bool-cases, text_eq, text_eq_sound, text_eq_self, lookup, store, lookup-store_self,
  lookup-store_ne, u64_mod, if◌then◌else◌, arith,
}
use ikago.Stat.{TrafficIndicator, add_traffic, TrafficManager, new_traffic_manager, add_node}

-- A packet: when it came, whose it is, and how long it is.
pub record Traffic : Type 0 where
  pub time : ℕ
  pub node : Bytes
  pub size : ℕ

pub add_all : List Traffic → TrafficManager → TrafficManager
add_all [] m = m
add_all (t ∷ ts) m = add_all ts (add_node t.time t.node t.size m)

-- The traffic of one node, in order.
abbrev pub of_node : Bytes → List Traffic → List Traffic
of_node node [] = []
of_node node (t ∷ ts) = if text_eq node t.node then t ∷ of_node node ts else of_node node ts

abbrev pub total_size : List Traffic → ℕ
total_size [] = 0
total_size (t ∷ ts) = t.size + total_size ts

abbrev pub last_time : ℕ → List Traffic → ℕ
last_time time [] = time
last_time time (t ∷ ts) = last_time t.time ts

-- The counters of a node, from its traffic: none without any, and else the number and the sizes
-- modulo 2^64, and the times of the first and of the last.
abbrev pub summary : List Traffic → Option TrafficIndicator
summary [] = none
summary (t ∷ ts) = some (record {
  count = length (t ∷ ts) % u64_mod;
  size = total_size (t ∷ ts) % u64_mod;
  appear = t.time;
  last_seen = last_time t.time ts;
})

-- The indicator of a node, with one more packet of its own.
grow : Option TrafficIndicator → Traffic → TrafficIndicator
unfolding add_traffic
grow none t =
    add_traffic t.time t.size (record { count = 0; size = 0; appear = t.time; last_seen = 0 })
grow (some i) t = add_traffic t.time t.size i

grow_all : Option TrafficIndicator → List Traffic → Option TrafficIndicator
unfolding grow
grow_all o [] = o
grow_all o (t ∷ ts) = grow_all (some (grow o t)) ts

add_node-store :
    (t : Traffic) (m : TrafficManager)
    → (add_node t.time t.node t.size m).indicators
      ≡ store t.node (grow (lookup t.node m.indicators) t) m.indicators
unfolding add_node grow
add_node-store t m = elim (Option-cases (lookup t.node m.indicators)) [
  | inl n ↦ rw (n, add_node)
  | inr (i, n) ↦ rw (n, add_node)
]

add_node-lookup :
    (t : Traffic) (m : TrafficManager) (node : Bytes)
    → lookup node (add_node t.time t.node t.size m).indicators ≡ (
        if text_eq node t.node
        then some (grow (lookup node m.indicators) t)
        else lookup node m.indicators)
add_node-lookup t m node = elim (Bool-cases (text_eq node t.node)) [
  | inl e ↦
      let same : node ≡ t.node = text_eq_sound node t.node e in
      rw (add_node-store t m, same, text_eq_self t.node)
        (lookup-store_self t.node (grow (lookup t.node m.indicators) t) m.indicators)
  | inr e ↦
      rw (add_node-store t m, e)
        (lookup-store_ne t.node node (grow (lookup t.node m.indicators) t) m.indicators e)
]

add_all-lookup :
    (ts : List Traffic) (m : TrafficManager) (node : Bytes)
    → lookup node (add_all ts m).indicators ≡ grow_all (lookup node m.indicators) (of_node node ts)
unfolding add_all grow_all
add_all-lookup [] m node = refl
add_all-lookup (t ∷ ts) m node = elim (Bool-cases (text_eq node t.node)) [
  | inl e ↦
      let one = add_node-lookup t m node in
      let step : lookup node (add_node t.time t.node t.size m).indicators
          ≡ some (grow (lookup node m.indicators) t) =
        one ∙ rw e in
      rw e (
        add_all-lookup ts (add_node t.time t.node t.size m) node
        ∙ ap (λ o. grow_all o (of_node node ts)) step)
  | inr e ↦
      let one = add_node-lookup t m node in
      let step : lookup node (add_node t.time t.node t.size m).indicators
          ≡ lookup node m.indicators =
        one ∙ rw e in
      rw e (
        add_all-lookup ts (add_node t.time t.node t.size m) node
        ∙ ap (λ o. grow_all o (of_node node ts)) step)
]

-- The counters behind some traffic.
counted : TrafficIndicator → List Traffic → TrafficIndicator
counted i ts = record {
  count = (i.count + length ts) % u64_mod;
  size = (i.size + total_size ts) % u64_mod;
  appear = i.appear;
  last_seen = last_time i.last_seen ts;
}

-- Two counters with the same four numbers.
same_counters :
    {a b c d a' b' : ℕ}
    → a ≡ a'
    → b ≡ b'
    → ◌≡◌ {A = TrafficIndicator}
        (record { count = a; size = b; appear = c; last_seen = d })
        (record { count = a'; size = b'; appear = c; last_seen = d })
same_counters e f = rw (e, f)

grow_all-counted :
    (ts : List Traffic) (i : TrafficIndicator)
    → i.count < u64_mod
    → i.size < u64_mod
    → grow_all (some i) ts ≡ some (counted i ts)
unfolding grow_all grow counted add_traffic
grow_all-counted [] i hc hs = ap some (same_counters (omega arith) (omega arith))
grow_all-counted (t ∷ ts) i hc hs =
    grow_all-counted ts (grow (some i) t) (omega arith) (omega arith)
    ∙ ap some (same_counters (omega arith) (omega arith))

grow_all-summary : (own : List Traffic) → grow_all none own ≡ summary own
unfolding grow_all grow counted add_traffic
grow_all-summary [] = refl
grow_all-summary (t ∷ ts) =
    grow_all-counted ts (grow none t) (omega arith) (omega arith)
    ∙ ap some (same_counters (omega arith) (omega arith))

-- After any traffic on a new manager, the counters of a node are the summary of the traffic of that
-- node alone: the number and the sizes of its packets modulo 2^64, and the times of the first and
-- of the last; a node without traffic is not tracked.
pub add_all-summary :
    (ts : List Traffic) (node : Bytes)
    → lookup node (add_all ts new_traffic_manager).indicators ≡ summary (of_node node ts)
unfolding new_traffic_manager
add_all-summary ts node =
    add_all-lookup ts new_traffic_manager node ∙ grow_all-summary (of_node node ts)
