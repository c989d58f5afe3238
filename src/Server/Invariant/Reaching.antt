-- ===== src/Server/Invariant/Reaching.antt =====
-- The states that cmd/ikago-server/main.go reaches: its handlers run one after the other, in any
-- order, on any packets and at any times, each to its end, its error or its panic.
use ikago.Base.{ℕ, Bytes, Option}
use ikago.Gopacket.{Packet}
use ikago.Stat.{TrafficMonitor}
use ikago.Server.State.{World, Server, Conn, start}
use ikago.Server.Listen.{handle_listen}
use ikago.Server.Upstream.{handle_upstream}
use ikago.Server.Invariant.{Inv, FragsBare, start-Inv}
use ikago.Server.Invariant.Listening.{handle_listen-Inv}
use ikago.Server.Invariant.Answering.{handle_upstream-Inv}

-- One call of a handler. A panic ends the program, so a step behind it only adds states.
pub data Step (w : World) (s : Server) : Server → Type 0 where
  listens :
      (now : ℕ) (contents : Bytes) (conn : Conn) → Step w s (handle_listen w now contents conn s).1
  answers : (now : ℕ) (packet : Packet) → Step w s (handle_upstream w now packet s).1

pub data Reach (w : World) : Server → Type 0 where
  fresh : (monitor : Option TrafficMonitor) → Reach w (start monitor)
  later : {s t : Server} → Reach w s → Step w s t → Reach w t

pub Step-Inv : {w : World} {s t : Server} → FragsBare w.gopacket → Step w s t → Inv w s → Inv w t
Step-Inv {w} {s} bare (Step.listens now contents conn) inv =
    handle_listen-Inv w now contents conn bare s inv
Step-Inv {w} {s} bare (Step.answers now packet) inv = handle_upstream-Inv w now packet s inv

-- In every state that the server reaches, the pools are whole, every number in `patMap` is one of
-- the pool of its protocol, and every entry of `nat` stands under the text of the server's address
-- with a number of a pool, with a client's source of the guide's protocol. (gopacket is taken to
-- give a fragment no transport layer.)
pub Reach-Inv : (w : World) (s : Server) → FragsBare w.gopacket → Reach w s → Inv w s
Reach-Inv w _ bare (Reach.fresh monitor) = start-Inv w monitor
Reach-Inv w t bare (Reach.later {s} r st) = Step-Inv bare st (Reach-Inv w s bare r)
