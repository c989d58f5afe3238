-- ===== src/Stat/Tests.antt =====
-- Two nodes, three packets.
use ikago.Base.{◌≡◌, refl, List, [], ◌∷◌, some, lookup}
use ikago.Stat.{new_traffic_manager}
use ikago.Stat.Summary.{Traffic, add_all, of_node, summary, add_all-summary}

abbrev traffic : List Traffic
traffic =
    record { time = 3; node = 1 ∷ []; size = 100 }
    ∷ record { time = 4; node = 2 ∷ []; size = 60 }
    ∷ record { time = 9; node = 1 ∷ []; size = 20 }
    ∷ []

summed :
    summary (of_node (1 ∷ []) traffic)
    ≡ some (record { count = 2; size = 120; appear = 3; last_seen = 9 })
summed = refl

add_all-summary_example :
    lookup (1 ∷ []) (add_all traffic new_traffic_manager).indicators
    ≡ summary (of_node (1 ∷ []) traffic)
add_all-summary_example = add_all-summary traffic (1 ∷ [])
