-- ===== src/FakeTcp.antt =====
-- internal/pcap/faketcpconn.go: the state of a FakeTCP connection and what a packet is sent with.
-- The pcap handle is the list of the packets written so far; whether it takes the next one is a
-- parameter. Locks are left out: every operation holds them from its first to its last change.
pub mod Runs
pub mod Segments
pub mod Handshake
pub mod Transfer
pub mod Loop
mod Tests
use ikago.Base.{
  ℕ, suc, Bool, true, false, Bytes, List, [], ◌∷◌, ◌++◌, Option, none, some, Error, Result, ok, err,
  panic, ◌>>=◌, deref, text_eq, add16, add32, if◌then◌else◌,
}
use ikago.Addr.{Ip, Addr, string}
use ikago.Gopacket.{Gopacket, Layer}
use ikago.Device.{RawConn, need_ip}
use ikago.Layers.{create_layers, flag_tcp_layer, serialize}
use ikago.Crypt.{Crypt, Random}
use ikago.Fragment.Defrag.{EasyDefragmenter}

-- What the connection runs on: gopacket, random bytes, and the handle's answer to a packet after
-- those it took.
pub record World : Type 0 where
  pub gopacket : Gopacket
  pub random : Random
  pub refuses : List Bytes → Bytes → Option Error

pub record ClientIndicator : Type 0 where
  pub crypt : Crypt
  pub seq : ℕ
  pub ack : ℕ

pub record FakeTcpConn : Type 0 where
  pub conn : RawConn
  pub defrag : EasyDefragmenter
  pub src_port : ℕ
  pub dst_addr : Option (Ip × ℕ)
  pub crypt : Crypt
  pub mtu : ℕ
  pub is_connected : Bool
  pub is_reconnected : Bool
  pub is_closed : Bool
  pub clients : List (Bytes × ClientIndicator)
  pub id : ℕ
  pub sent : List Bytes

-- What an operation returns, and the connection behind it.
abbrev pub Run {ℓ} : Type ℓ → Type ℓ
Run A = Result A × FakeTcpConn

-- The next part of an operation, where the one before it ended well.
abbrev pub and_then {ℓ κ} : {A : Type ℓ} {B : Type κ} → Run A → (A → FakeTcpConn → Run B) → Run B
and_then (ok a, c) next = next a c
and_then (err e, c) next = (err e, c)
and_then (panic, c) next = (panic, c)

-- A part that changes nothing.
abbrev pub reading {ℓ} : {A : Type ℓ} → Result A → FakeTcpConn → Run A
reading r c = (r, c)

-- The map of the clients, by the text of their address.
unfoldable pub find_client : Bytes → List (Bytes × ClientIndicator) → Option ClientIndicator
find_client key [] = none
find_client key ((k, value) ∷ rest) = if text_eq key k then some value else find_client key rest

unfoldable pub put_client :
    Bytes → ClientIndicator → List (Bytes × ClientIndicator) → List (Bytes × ClientIndicator)
put_client key value [] = (key, value) ∷ []
put_client key value ((k, old) ∷ rest) =
    if text_eq key k then (key, value) ∷ rest else (k, old) ∷ put_client key value rest

unfoldable pub set_client : Bytes → ClientIndicator → FakeTcpConn → FakeTcpConn
unfolding put_client
set_client key value c = record c { clients = put_client key value c.clients }

-- The client of a handshake: a new one where the map has none.
unfoldable pub client_or_new : Bytes → FakeTcpConn → ClientIndicator
unfolding find_client
client_or_new key c = elim (find_client key c.clients) [
  | none ↦ record { crypt = c.crypt; seq = 0; ack = 0 }
  | some client ↦ client
]

-- `c.conn.Write`.
unfoldable pub write_packet : World → Bytes → FakeTcpConn → Run (Unit {0})
write_packet w packet c = elim (w.refuses c.sent packet) [
  | some e ↦ (err e, c)
  | none ↦ (ok tt, record c { sent = c.sent ++ packet ∷ [] })
]

unfoldable pub write_packets : World → List Bytes → FakeTcpConn → Run (Unit {0})
unfolding write_packet
write_packets w [] c = (ok tt, c)
write_packets w (packet ∷ rest) c =
    and_then (write_packet w packet c) (λ done next. write_packets w rest next)

-- `transportLayer.(*layers.TCP)`, flagged.
flag_layer : Layer → Bool → Bool → Result Layer
unfolding flag_tcp_layer
flag_layer (Layer.tcp t) syn ack = ok (Layer.tcp (flag_tcp_layer t syn false ack))
flag_layer _ syn ack = panic

-- Where a handshake goes: the ports, the address, the hop limit and the hardware address.
pub record Target : Type 0 where
  pub src_port : ℕ
  pub dst_port : ℕ
  pub dst_ip : Ip
  pub hop : ℕ
  pub mac : Bytes

-- The bytes of a segment without data: the layers are created, flagged and serialized.
unfoldable pub handshake_packet :
    World → FakeTcpConn → Target → ClientIndicator → Bool → Bool → Result Bytes
unfolding create_layers flag_layer serialize
handshake_packet w c t client syn ack = do
  (transport, ip, link) ←
      create_layers w.gopacket t.src_port t.dst_port client.seq client.ack c.conn t.dst_ip c.id
        t.hop t.mac
  flagged ← flag_layer transport syn ack
  serialize w.gopacket (link ∷ Layer.ipv4 ip ∷ flagged ∷ [])

-- What the three handshakes share: the packet is written, and the IPv4 identification moves on.
unfoldable pub shake : World → Target → ClientIndicator → Bool → Bool → FakeTcpConn → Run (Unit {0})
unfolding handshake_packet write_packet
shake w t client syn ack c =
    and_then (reading (handshake_packet w c t client syn ack) c) (λ packet d.
      and_then (write_packet w packet d) (λ done e. (ok tt, record e { id = add16 e.id 1 })))
