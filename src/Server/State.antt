-- ===== src/Server/State.antt =====
-- The NAT's state in cmd/ikago-server/main.go: its maps and their keys, and what a handler does to
-- the state. One reading of the clock serves a whole call of a handler. Locks are left out, and so
-- is the log but for the accessors that its arguments call.
use ikago.Base.{
  ℕ, ◌*◌, ◌^◌, ◌≡◌, Bool, true, ◌&&◌, Bytes, List, [], ◌∷◌, ◌++◌, Option, none, some, Error, ok,
  err, text_eq, text_eq_sound, text_eq_self, arith,
}
pub use ikago.Calls.{pure, lift, reads, modify, go_on, ◌>>=◌, ◌>>◌}
use ikago.Calls
use ikago.Addr.{Ip, Addr}
use ikago.Gopacket.{Gopacket, LayerType}
use ikago.Device.{RawConn}
use ikago.Fragment.Defrag.{EasyDefragmenter, new_easy_defragmenter, set_deadline}
use ikago.Stat.{TrafficMonitor}
use ikago.Server.Keys.{Key, type_eq, type_eq_sound, type_eq_self}
use ikago.Server.Dist.{Pools}
use ikago.Server.Dist

pub record Quintuple : Type 0 where
  pub src : Bytes
  pub dst : Bytes
  pub protocol : LayerType

pub record NatGuide : Type 0 where
  pub src : Bytes
  pub protocol : LayerType

-- net.Conn: the connection of a client, by a number that stands for the pointer, and what
-- `RemoteAddr` returns.
pub record Conn : Type 0 where
  pub pointer : ℕ
  pub remote_addr : Addr

pub record NatIndicator : Type 0 where
  pub src : Addr
  pub emb_src : Addr
  pub conn : Conn

-- `embSrcIP`.
unfoldable pub addr_ip : Addr → Ip
addr_ip (Addr.ip_addr ip) = ip
addr_ip (Addr.tcp_addr ip port) = ip
addr_ip (Addr.udp_addr ip port) = ip
addr_ip (Addr.icmp_query_addr ip id) = ip

unfoldable pub emb_src_ip : NatIndicator → Ip
unfolding addr_ip
emb_src_ip ni = addr_ip ni.emb_src

unfoldable pub quintuple_eq : Quintuple → Quintuple → Bool
unfolding type_eq
quintuple_eq a b = text_eq a.src b.src && (text_eq a.dst b.dst && type_eq a.protocol b.protocol)

unfoldable pub guide_eq : NatGuide → NatGuide → Bool
unfolding type_eq
guide_eq a b = text_eq a.src b.src && type_eq a.protocol b.protocol

pub quintuple_eq_sound : (a b : Quintuple) → quintuple_eq a b ≡ true → a ≡ b
unfolding quintuple_eq
quintuple_eq_sound a b h =
    let s : a.src ≡ b.src = text_eq_sound a.src b.src (ground arith) in
    let d : a.dst ≡ b.dst = text_eq_sound a.dst b.dst (ground arith) in
    let p : a.protocol ≡ b.protocol = type_eq_sound a.protocol b.protocol (ground arith) in
    ground arith

pub quintuple_eq_self : (a : Quintuple) → quintuple_eq a a ≡ true
unfolding quintuple_eq
quintuple_eq_self a = rw (text_eq_self a.src, text_eq_self a.dst, type_eq_self a.protocol)

pub guide_eq_sound : (a b : NatGuide) → guide_eq a b ≡ true → a ≡ b
unfolding guide_eq
guide_eq_sound a b h =
    let s : a.src ≡ b.src = text_eq_sound a.src b.src (ground arith) in
    let p : a.protocol ≡ b.protocol = type_eq_sound a.protocol b.protocol (ground arith) in
    ground arith

pub guide_eq_self : (a : NatGuide) → guide_eq a a ≡ true
unfolding guide_eq
guide_eq_self a = rw (text_eq_self a.src, type_eq_self a.protocol)

instance abbrev pub quintuple_key : Key Quintuple
quintuple_key = record { eq = quintuple_eq; sound = quintuple_eq_sound; self = quintuple_eq_self }

instance abbrev pub guide_key : Key NatGuide
guide_key = record { eq = guide_eq; sound = guide_eq_sound; self = guide_eq_self }

-- What the server runs on: gopacket, the flag for the size of fragments, the raw connection to the
-- upstream, and the answers of the two kinds of connections to what is written to them.
pub record World : Type 0 where
  pub gopacket : Gopacket
  pub fragment : ℕ
  pub up_conn : RawConn
  pub refuses_up : List Bytes → Bytes → Option Error
  pub refuses_client : List (Conn × Bytes) → Conn → Bytes → Option Error

-- The variables of the package that the two handlers share, what was written to the upstream, and
-- what was written to the clients.
pub record Server : Type 0 where
  pub pools : Pools
  pub pat_map : List (Quintuple × ℕ)
  pub nat : List (NatGuide × NatIndicator)
  pub defrag : EasyDefragmenter
  pub monitor : Option TrafficMonitor
  pub dns : List (Bytes × Bytes)
  pub sent : List Bytes
  pub delivered : List (Conn × Bytes)

-- `keepFragments`: 30 seconds.
abbrev pub keep_fragments : ℕ
keep_fragments = 30 * 10 ^ 9

-- As `init` and `main` make it, with or without a monitor.
unfoldable pub start : Option TrafficMonitor → Server
unfolding Dist.init new_easy_defragmenter set_deadline
start monitor = record {
  pools = Dist.init;
  pat_map = [];
  nat = [];
  defrag = set_deadline new_easy_defragmenter keep_fragments;
  monitor = monitor;
  dns = [];
  sent = [];
  delivered = [];
}

abbrev pub Act {ℓ} : Type ℓ → Type ℓ
Act = Calls.Act Server

-- `upConn.Write` and `ni.conn.Write`.
unfoldable pub write_up : World → Bytes → Act (Unit {0})
write_up w packet s = elim (w.refuses_up s.sent packet) [
  | some e ↦ (err e, s)
  | none ↦ (ok tt, record s { sent = s.sent ++ packet ∷ [] })
]

unfoldable pub write_client : World → Conn → Bytes → Act (Unit {0})
write_client w conn data_bytes s = elim (w.refuses_client s.delivered conn data_bytes) [
  | some e ↦ (err e, s)
  | none ↦ (ok tt, record s { delivered = s.delivered ++ (conn, data_bytes) ∷ [] })
]
