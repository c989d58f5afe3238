-- ===== src/Fragment/Defrag.antt =====
-- `EasyDefragmenter` with its `fragIndicator`: the fragments of a flow, kept in the order of their
-- offsets until their lengths add up to the offset of the final one. A clock is an argument.
mod Order
pub mod Core
pub mod Arrival
pub mod Missing
pub mod Flows
mod Tests
use ikago.Base.{
  ℕ, ◌+◌, ◌-◌, ◌/◌, Bool, true, false, ◌&&◌, Bytes, List, [], ◌∷◌, ◌++◌, length, Option, none, some,
  Result, ok, err, panic, ◌>>=◌, incomplete_fragments, network_layer_type, to_u16, add16, ltb, leb,
  ◌==◌, text_eq, if◌then◌else◌,
}
use ikago.Addr.{ip_string}
use ikago.Gopacket.{Gopacket, Layer, Ipv4}
use ikago.Packet.{PacketIndicator, is_frag, frag_offset, more_fragments, network_id, src_ip}
use ikago.Packet.Nat.{network_payload}
use ikago.Packet.Parse.{parse_packet, parse_emb_packet, parse_raw_packet}
use ikago.Layers.{serialize, flag_ipv4_layer}

pub record FragFlow : Type 0 where
  pub id : ℕ
  pub src : Bytes

pub record FragIndicator : Type 0 where
  pub length : ℕ
  pub offset : ℕ
  pub frags : List PacketIndicator
  pub last_seen : ℕ

-- `newFragIndicator`.
unfoldable pub new_frag_indicator : ℕ → FragIndicator
new_frag_indicator now = record { length = 0; offset = 0; frags = []; last_seen = now }

-- The offset that the sort compares. What is kept is IPv4, since `append` reads its flags first.
unfoldable pub sort_key : PacketIndicator → ℕ
sort_key ind = elim ind.network_layer [ some (Layer.ipv4 ip) ↦ ip.frag_offset | _ ↦ 0 ]

-- The sort by offset, as the list was sorted before its last element came. `sort.Slice` fixes no
-- order of equal offsets; here the older one stays in front.
unfoldable pub insert : PacketIndicator → List PacketIndicator → List PacketIndicator
unfolding sort_key
insert ind [] = ind ∷ []
insert ind (x ∷ xs) = if leb (sort_key x) (sort_key ind) then x ∷ insert ind xs else ind ∷ x ∷ xs

-- `fragIndicator.append`.
unfoldable pub append : Gopacket → ℕ → FragIndicator → PacketIndicator → Result FragIndicator
unfolding more_fragments frag_offset
append g now f ind = do
  more ← more_fragments ind
  offset ← frag_offset ind
  let frags = insert ind f.frags
  let size = to_u16 (length (network_payload g ind))
  ok (
      if more
      then record f { length = add16 f.length size; frags = frags; last_seen = now }
      else record f { offset = offset; frags = frags; last_seen = now })

-- `isCompleted`.
unfoldable pub is_completed : FragIndicator → Bool
is_completed f = f.length / 8 == f.offset

-- The network payloads, one behind the other.
unfoldable pub contents : Gopacket → List PacketIndicator → Bytes
contents g [] = []
contents g (ind ∷ rest) = network_payload g ind ++ contents g rest

-- The header of the first fragment without its offset and flags.
whole_header : PacketIndicator → Result Ipv4
whole_header ind = elim ind.network_layer [
  | none ↦ panic
  | some (Layer.ipv4 ip) ↦ ok (flag_ipv4_layer ip false false 0)
  | some _ ↦ err network_layer_type
]

-- The packet is serialized, and parsed again from its first layer.
reparse : Gopacket → Option Layer → Ipv4 → Bytes → Result PacketIndicator
unfolding parse_packet parse_emb_packet parse_raw_packet serialize
reparse g none ip body = do
  bytes ← serialize g (Layer.ipv4 ip ∷ Layer.payload body ∷ [])
  parse_emb_packet g bytes
reparse g (some link) ip body = do
  bytes ← serialize g (link ∷ Layer.ipv4 ip ∷ Layer.payload body ∷ [])
  packet ← parse_raw_packet g bytes
  parse_packet g packet

put_together : Gopacket → List PacketIndicator → Result PacketIndicator
unfolding whole_header reparse contents
put_together g [] = panic
put_together g (first ∷ rest) = do
  ip ← whole_header first
  reparse g first.link_layer ip (contents g (first ∷ rest))

-- `fragIndicator.concatenate`.
unfoldable pub concatenate : Gopacket → FragIndicator → Result PacketIndicator
unfolding is_completed put_together
concatenate g f = if is_completed f then put_together g f.frags else err incomplete_fragments

-- The map of the flows; an entry may be nil, and reads as none.
pub record EasyDefragmenter : Type 0 where
  pub frags : List (FragFlow × Option FragIndicator)
  pub deadline : ℕ

-- `NewEasyDefragmenter` and `SetDeadline`.
unfoldable pub new_easy_defragmenter : EasyDefragmenter
new_easy_defragmenter = record { frags = []; deadline = 0 }

unfoldable pub set_deadline : EasyDefragmenter → ℕ → EasyDefragmenter
set_deadline d deadline = record d { deadline = deadline }

unfoldable pub flow_eq : FragFlow → FragFlow → Bool
flow_eq a b = (a.id == b.id) && text_eq a.src b.src

unfoldable pub find_flow : FragFlow → List (FragFlow × Option FragIndicator) → Option FragIndicator
unfolding flow_eq
find_flow flow [] = none
find_flow flow ((key, value) ∷ rest) = if flow_eq flow key then value else find_flow flow rest

unfoldable pub put_flow :
    FragFlow
    → Option FragIndicator
    → List (FragFlow × Option FragIndicator)
    → List (FragFlow × Option FragIndicator)
unfolding flow_eq
put_flow flow value [] = (flow, value) ∷ []
put_flow flow value ((key, old) ∷ rest) =
    if flow_eq flow key then (flow, value) ∷ rest else (key, old) ∷ put_flow flow value rest

-- The flow's indicator: a new one where there is none, and where the last fragment is too old.
unfoldable pub current : ℕ → EasyDefragmenter → FragFlow → FragIndicator
unfolding new_frag_indicator find_flow
current now d flow = elim (find_flow flow d.frags) [
  | none ↦ new_frag_indicator now
  | some f ↦
      if ltb 0 d.deadline && ltb d.deadline (now - f.last_seen) then new_frag_indicator now else f
]

-- What `AppendOriginal` returns, nothing (nil) or a packet with its fragments, and the defragmenter.
abbrev pub Appended : Type 0
Appended = Result (Option (PacketIndicator × List PacketIndicator)) × EasyDefragmenter

-- A fragment that was added: kept, or taken out and concatenated.
settle : Gopacket → EasyDefragmenter → FragFlow → FragIndicator → Appended
unfolding is_completed concatenate put_flow
settle g d flow f =
    if is_completed f
    then (
      concatenate g f >>= (λ ind. ok (some (ind, f.frags))),
      record d { frags = put_flow flow none d.frags },
    )
    else (ok none, record d { frags = put_flow flow (some f) d.frags })

add_fragment : Gopacket → ℕ → EasyDefragmenter → PacketIndicator → FragFlow → Appended
unfolding append current settle
add_fragment g now d ind flow = elim (append g now (current now d flow) ind) [
  | panic ↦ (panic, d)
  | err e ↦ (err e, d)
  | ok f ↦ settle g d flow f
]

-- `AppendOriginal`.
unfoldable pub append_original : Gopacket → ℕ → EasyDefragmenter → PacketIndicator → Appended
unfolding is_frag network_id src_ip add_fragment
append_original g now d ind =
    let flow = (do
      id ← network_id ind
      src ← src_ip ind
      ok (record { id = id; src = ip_string src })) in
    elim (is_frag ind) [
      | panic ↦ (panic, d)
      | err e ↦ (err e, d)
      | ok false ↦ (ok (some (ind, ind ∷ [])), d)
      | ok true ↦ elim flow [
        | panic ↦ (panic, d)
        | err e ↦ (err e, d)
        | ok key ↦ add_fragment g now d ind key
      ]
    ]
