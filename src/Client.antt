-- ===== src/Client.antt =====
-- The state of cmd/ikago-client/main.go and what its handlers share. The connection to the server is
-- an interface that both TcpConn and FakeTcp have; a reading of the clock serves a whole call.
pub mod Publish
pub mod Listen
pub mod Upstream
pub mod Known
pub mod Delivered
pub mod Others
mod Tests
use ikago.Base.{ℕ, Bytes, List, [], ◌∷◌, ◌++◌, Option, none, some, Error, Result, ok, err}
use ikago.Calls.{Act}
use ikago.Gopacket.{Gopacket}
use ikago.Device.{RawConn}
use ikago.Stat.{TrafficMonitor}

-- net.Conn, as far as the handlers use it. `reconnect` is FakeTCPConn's, and does nothing for another
-- connection, or for none.
pub record Link (U : Type 0) : Type 0 where
  pub write : Bytes → Act U ℕ
  pub reconnect : Act U (Unit {0})

pub record NatIndicator : Type 0 where
  pub src_hardware_addr : Bytes
  pub conn : RawConn

-- What the client runs on: gopacket, the size of fragments, the connection to the server, and the
-- answer of the raw connections to what is written to them.
pub record World (U : Type 0) : Type 0 where
  pub gopacket : Gopacket
  pub fragment : ℕ
  pub link : Link U
  pub refuses : List (RawConn × Bytes) → RawConn → Bytes → Option Error

-- The variables of the package that the handlers share, and what was written to raw connections.
pub record Client (U : Type 0) : Type 0 where
  pub up_conn : U
  pub nat : List (Bytes × NatIndicator)
  pub monitor : Option TrafficMonitor
  pub dns : List (Bytes × Bytes)
  pub written : List (RawConn × Bytes)

module _ {U : Type 0} (w : World U) where
  -- `conn.Write` of a raw connection.
  unfoldable pub write_raw : RawConn → Bytes → Act (Client U) (Unit {0})
  write_raw conn packet s = elim (w.refuses s.written conn packet) [
    | some e ↦ (err e, s)
    | none ↦ (ok tt, record s { written = s.written ++ (conn, packet) ∷ [] })
  ]

  -- `upConn.Write` and `Reconnect`.
  unfoldable pub write_up : Bytes → Act (Client U) ℕ
  write_up b s = let (r, up) = w.link.write b s.up_conn in (r, record s { up_conn = up })

  unfoldable pub reconnect_up : Act (Client U) (Unit {0})
  reconnect_up s = let (r, up) = w.link.reconnect s.up_conn in (r, record s { up_conn = up })
