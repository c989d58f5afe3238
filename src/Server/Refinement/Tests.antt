-- ===== src/Server/Refinement/Tests.antt =====
-- A client's packet, and a packet from the upstream.
use ikago.Base.{List, [], ◌∷◌, none}
use ikago.Samples.{udp_packet}
use ikago.Server.State.{start}
use ikago.Server.Invariant.{start-Inv}
use ikago.Server.Flow.Samples.{world, world-FragsBare, client, now}
use ikago.Server.Refinement.{Event, Runs, view, run}
use ikago.Server.Refinement.Refining.{run-Runs}

abbrev calls : List Event
calls = Event.listens now (0 ∷ []) client ∷ Event.answers now udp_packet ∷ []

run-Runs_example : Runs world calls (view (start none)) (view (run world calls (start none)))
run-Runs_example = run-Runs world calls (start none) world-FragsBare (start-Inv world none)
