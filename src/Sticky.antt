-- ===== src/Sticky.antt =====
-- internal/pcap/sticky.go: the packets of a byte stream, cut by the length in their IPv4 headers.
-- A clock is an argument.
pub mod Frames
mod Tests
use ikago.Base.{
  ℕ, zero, suc, ◌+◌, ◌-◌, ◌*◌, ◌<◌, Bool, true, false, ◌&&◌, Bytes, List, [], ◌∷◌, ◌++◌, length,
  take, drop, Option, none, some, Result, ok, err, panic, ◌>>=◌, diverges, ltb, leb, ◌==◌,
  if◌then◌else◌,
}
use ikago.Gopacket.{Gopacket}
use ikago.Packet.{PacketIndicator, need_ipv4}
use ikago.Packet.Parse.{parse_emb_packet}

pub record Desticker : Type 0 where
  pub bytes : Bytes
  pub deadline : ℕ
  pub appear : ℕ
  pub indicator : Option PacketIndicator

-- `NewDesticker` and `SetDeadline`.
unfoldable pub new_desticker : ℕ → Desticker
new_desticker now = record { bytes = []; deadline = 0; appear = now; indicator = none }

unfoldable pub set_sticky_deadline : ℕ → Desticker → Desticker
set_sticky_deadline deadline d = record d { deadline = deadline }

-- What is left behind a packet of `n` bytes.
unfoldable pub behind : ℕ → Desticker → Desticker
behind n d = record d {
  bytes = if ltb n (length d.bytes) then drop n d.bytes else [];
  indicator = none;
}

-- A packet is cut off, if all of it is there.
cut_packet : ℕ → Desticker → Result (List Bytes × Desticker) → Result (List Bytes × Desticker)
cut_packet n d again =
    if leb n (length d.bytes)
    then (do (packets, last) ← again; ok (take n d.bytes ∷ packets, last))
    else ok ([], d)

-- The loop, on fuel; its condition does not change, and it ends at a break.
unfoldable pub rounds : Gopacket → ℕ → Desticker → Result (List Bytes × Desticker)
unfolding behind cut_packet need_ipv4
rounds g zero d = err diverges
rounds g (suc fuel) d = elim d.indicator [
  | some ind ↦ do ip ← need_ipv4 ind; cut_packet ip.len d (rounds g fuel (behind ip.len d))
  | none ↦ elim (parse_emb_packet g d.bytes) [
    | ok ind ↦ rounds g fuel (record d { indicator = some ind })
    | err e ↦ ok ([], d)
    | panic ↦ panic
  ]
]

-- Data that is too old is discarded.
discard : ℕ → Desticker → Desticker
discard now d =
    if ltb 0 d.deadline && ltb d.deadline (now - d.appear)
    then record d { bytes = []; indicator = none }
    else d

-- The time of the last packet.
stamp : ℕ → List Bytes × Desticker → List Bytes × Desticker
stamp now ([], d) = ([], d)
stamp now (p ∷ ps, d) = (p ∷ ps, record d { appear = now })

-- `Append`. A round cuts off a packet or finds its header, so the fuel suffices where no packet
-- has the length 0.
unfoldable pub append_sticky : Gopacket → ℕ → Bytes → Desticker → Result (List Bytes × Desticker)
unfolding discard stamp
append_sticky g now chunk d =
    let kept = discard now d in
    let all = record kept { bytes = kept.bytes ++ chunk } in
    if ltb 0 (length all.bytes)
    then (do cut ← rounds g (2 * length all.bytes + 2) all; ok (stamp now cut))
    else ok ([], all)
