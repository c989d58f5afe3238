-- ===== src/Server/Refinement.antt =====
-- The NAT of cmd/ikago-server/main.go as its contract: a function from guides to clients, which a
-- call of `handleListen` may extend by the client of the packet, and nothing else changes.
pub mod Binding
pub mod Refining
mod Tests
use ikago.Base.{ℕ, ◌≡◌, Bool, Bytes, List, [], ◌∷◌, Option, none, some, ok, if◌then◌else◌}
use ikago.Addr.{Ip}
use ikago.Gopacket.{Packet, Layer}
use ikago.Device.{need_ip}
use ikago.Packet.{PacketIndicator}
use ikago.Packet.Parse.{parse_emb_packet}
use ikago.Server.Keys.{find}
use ikago.Server.State.{NatGuide, NatIndicator, Conn, World, Server, guide_eq, guide_key}
use ikago.Server.Identity.{guide_of, nat_entry}
use ikago.Server.Listen.{handle_listen}
use ikago.Server.Upstream.{handle_upstream}
use ikago.Server.Invariant.{Leads}

-- A call of a handler.
pub data Event : Type 0 where
  listens : (now : ℕ) (contents : Bytes) (conn : Conn) → Event
  answers : (now : ℕ) (packet : Packet) → Event

unfoldable pub step : World → Event → Server → Server
unfolding handle_listen handle_upstream
step w (Event.listens now contents conn) s = (handle_listen w now contents conn s).1
step w (Event.answers now packet) s = (handle_upstream w now packet s).1

unfoldable pub run : World → List Event → Server → Server
unfolding step
run w [] s = s
run w (e ∷ es) s = run w es (step w e s)

-- The contract's state, and what it is of a server's.
abbrev pub Nat : Type 0
Nat = NatGuide → Option NatIndicator

abbrev pub view : Server → Nat
view s g = find g s.nat

-- What a client's packet is recorded as: the guide is that of a number of the server's pool, and the
-- entry is the packet's source, with the client and its connection.
pub record Entry (w : World) (contents : Bytes) (conn : Conn) (g : NatGuide) (ni : NatIndicator)
    : Type 0 where
  pub ind : PacketIndicator
  pub parsed : parse_emb_packet w.gopacket contents ≡ ok ind
  pub layer : Layer
  pub transport : ind.transport_layer ≡ some layer
  pub value : ℕ
  pub up_ip : Ip
  pub up : need_ip w.up_conn.src_dev ≡ ok up_ip
  pub guided : guide_of up_ip value ind layer ≡ ok (some g)
  pub source : nat_entry ind conn ≡ ok ni
  pub leads : Leads w g ni

-- A step of the contract.
pub data Moves (w : World) : Event → Nat → Nat → Type 0 where
  stays : {e : Event} {n m : Nat} → ((h : NatGuide) → m h ≡ n h) → Moves w e n m
  binds :
      {now : ℕ} {contents : Bytes} {conn : Conn} {n m : Nat} (g : NatGuide) (ni : NatIndicator)
      → Entry w contents conn g ni
      → ((h : NatGuide) → m h ≡ (if guide_eq h g then some ni else n h))
      → Moves w (Event.listens now contents conn) n m

pub data Runs (w : World) : List Event → Nat → Nat → Type 0 where
  ends : {n : Nat} → Runs w [] n n
  goes :
      {e : Event} {es : List Event} {n m k : Nat}
      → Moves w e n m
      → Runs w es m k
      → Runs w (e ∷ es) n k
