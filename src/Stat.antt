-- ===== src/Stat.antt =====
-- internal/stat: the counters of the traffic, by node, and by node and direction. A clock is an
-- argument. What prints them is left out.
pub mod Summary
mod Tests
use ikago.Base.{
  ℕ, Bytes, List, [], ◌∷◌, ◌++◌, Option, none, some, Result, ok, err, add64, lookup, store,
  untracked_node,
}

pub record TrafficIndicator : Type 0 where
  pub count : ℕ
  pub size : ℕ
  pub appear : ℕ
  pub last_seen : ℕ

-- `TrafficIndicator.Add`.
unfoldable pub add_traffic : ℕ → ℕ → TrafficIndicator → TrafficIndicator
add_traffic now size i = record i {
  count = add64 i.count 1;
  size = add64 i.size size;
  last_seen = now;
}

pub record TrafficManager : Type 0 where
  pub nodes : List Bytes
  pub indicators : List (Bytes × TrafficIndicator)

-- `NewTrafficManager`.
unfoldable pub new_traffic_manager : TrafficManager
new_traffic_manager = record { nodes = []; indicators = [] }

-- `TrafficManager.Indicator`.
unfoldable pub indicator : TrafficManager → Bytes → Result TrafficIndicator
indicator m node = elim (lookup node m.indicators) [ none ↦ err untracked_node | some i ↦ ok i ]

-- `TrafficManager.Add`: a new node is tracked from now on.
unfoldable pub add_node : ℕ → Bytes → ℕ → TrafficManager → TrafficManager
unfolding add_traffic
add_node now node size m = elim (lookup node m.indicators) [
  | some i ↦ record m { indicators = store node (add_traffic now size i) m.indicators }
  | none ↦
      let i : TrafficIndicator = record { count = 0; size = 0; appear = now; last_seen = 0 } in
      record {
        nodes = m.nodes ++ node ∷ [];
        indicators = store node (add_traffic now size i) m.indicators;
      }
]

pub data Direction : Type 0 where
  direction_in direction_out : Direction

pub record TrafficMonitor : Type 0 where
  pub local_in_manager : TrafficManager
  pub local_out_manager : TrafficManager
  pub remote_in_manager : Option TrafficManager
  pub remote_out_manager : Option TrafficManager

-- `NewTrafficMonitor`.
unfoldable pub new_traffic_monitor : TrafficMonitor
unfolding new_traffic_manager
new_traffic_monitor = record {
  local_in_manager = new_traffic_manager;
  local_out_manager = new_traffic_manager;
  remote_in_manager = none;
  remote_out_manager = none;
}

-- `TrafficMonitor.Add`.
unfoldable pub add_direction : ℕ → Bytes → Direction → ℕ → TrafficMonitor → TrafficMonitor
unfolding add_node
add_direction now node Direction.direction_in size m = record m {
  local_in_manager = add_node now node size m.local_in_manager;
}
add_direction now node Direction.direction_out size m = record m {
  local_out_manager = add_node now node size m.local_out_manager;
}

or_new : Option TrafficManager → TrafficManager
unfolding new_traffic_manager
or_new none = new_traffic_manager
or_new (some m) = m

-- `AddBidirectional`.
unfoldable pub add_bidirectional :
    ℕ → Bytes → Bytes → Direction → ℕ → TrafficMonitor → TrafficMonitor
unfolding add_node or_new
add_bidirectional now local remote Direction.direction_in size m = record m {
  local_in_manager = add_node now local size m.local_in_manager;
  remote_in_manager = some (add_node now remote size (or_new m.remote_in_manager));
}
add_bidirectional now local remote Direction.direction_out size m = record m {
  local_out_manager = add_node now local size m.local_out_manager;
  remote_out_manager = some (add_node now remote size (or_new m.remote_out_manager));
}
