-- ===== src/Fragment/Create.antt =====
-- `CreateFragmentPackets`, `CreateIPv4FragmentPackets` and `CreateTCPSegmentPackets`. The program
-- checks that the fragment size is at least 576, and a header has at most 60 bytes, so the room
-- that a header leaves is not negative; for a smaller size the model takes it to be 0.
pub mod Pieces
pub mod Segments
use ikago.Base.{
  ℕ, zero, suc, ◌+◌, ◌-◌, ◌*◌, ◌/◌, ◌%◌, Bool, true, false, ◌&&◌, Bytes, List, [], ◌∷◌, ◌++◌,
  length, take, drop, Option, none, some, Result, ok, err, panic, ◌>>=◌, diverges,
  network_layer_type, min, to_u16, add16, add32, to_u32, ltb, if◌then◌else◌,
}
use ikago.Gopacket.{Gopacket, Layer, Ipv4, Tcp}
use ikago.Layers.{serialize, serialize_raw, flag_ipv4_layer}

-- The layers in front of which the link layer stands, unless it is nil.
abbrev pub with_link : Option Layer → List Layer → List Layer
with_link none ls = ls
with_link (some link) ls = link ∷ ls

-- `payload[i:i+length]`.
abbrev pub slice : ℕ → ℕ → Bytes → Bytes
slice i n payload = take n (drop i payload)

-- The length of the next fragment, when `left` bytes are left: a multiple of 8 unless it is the
-- last, and such that the last one has at least 8 bytes. `none` is a negative length, at which the
-- slice panics.
unfoldable pub piece_length : ℕ → ℕ → Option ℕ
piece_length room left =
    let n = min room left in
    let aligned = if ltb 0 (left - n) then n / 8 * 8 else n in
    let remain = left - aligned in
    if ltb 0 remain && ltb remain 8
    then (if ltb aligned 8 then none else some (aligned - 8))
    else some aligned

-- The header of the fragment of `n` bytes at `i`. FlagIPv4Layer overwrites what the loop left in
-- the one copy of the header that it works on.
piece_header : Ipv4 → Bytes → ℕ → ℕ → Ipv4
piece_header ip payload i n =
    flag_ipv4_layer ip false (ltb 0 (length payload - i - n)) (to_u16 (i / 8))

-- One round: the fragment is serialized, and the loop goes on behind it.
ipv4_round :
    Gopacket → Option Layer → Ipv4 → Bytes → ℕ → ℕ → (ℕ → Result (List Bytes)) → Result (List Bytes)
unfolding piece_header serialize
ipv4_round g link ip payload i n again = do
  bytes ← serialize g (
      with_link link
        (Layer.ipv4 (piece_header ip payload i n) ∷ Layer.payload (slice i n payload) ∷ []))
  rest ← again (i + n)
  ok (bytes ∷ rest)

-- The loop, on fuel: a length of 0 would never end it.
unfoldable pub ipv4_loop : Gopacket → Option Layer → Ipv4 → Bytes → ℕ → ℕ → ℕ → Result (List Bytes)
unfolding piece_length ipv4_round
ipv4_loop g link ip payload room zero i = err diverges
ipv4_loop g link ip payload room (suc fuel) i =
    let more = elim (piece_length room (length payload - i)) as (λ _. Result (List Bytes)) [
      | none ↦ panic
      | some n ↦ ipv4_round g link ip payload i n (ipv4_loop g link ip payload room fuel)
    ] in
    if ltb i (length payload) then more else ok []

-- `CreateIPv4FragmentPackets`. Every round takes at least a byte where the loop ends at all, so the
-- fuel suffices.
unfoldable pub create_ipv4_fragment_packets :
    Gopacket → Option Layer → Ipv4 → Bytes → ℕ → Result (List Bytes)
unfolding serialize
create_ipv4_fragment_packets g link ip payload fragment = do
  header ← serialize g (Layer.ipv4 ip ∷ [])
  if ltb fragment (length header + length payload)
      then ipv4_loop g link ip payload (fragment - length header) (suc (length payload)) 0
      else (do
        whole ← serialize g (with_link link (Layer.ipv4 ip ∷ Layer.payload payload ∷ []))
        ok (whole ∷ []))

-- The copy of the network layer for the segment `n`, and the transport layer summed under it.
segment_layers : Gopacket → Layer → Tcp → ℕ → ℕ → Result (Layer × Tcp)
segment_layers g (Layer.ipv4 ip) t i n = do
  let network = record ip { id = add16 ip.id n }
  summed ← g.tcp_checksum network (record t { seq = add32 t.seq (to_u32 i) })
  ok (Layer.ipv4 network, summed)
segment_layers g (Layer.ipv6 b) t i n = do
  summed ← g.tcp_checksum_ipv6 b (record t { seq = add32 t.seq (to_u32 i) })
  ok (Layer.ipv6 b, summed)
segment_layers g _ t i n = err network_layer_type

-- What is serialized for a segment. Behind a link layer it is the transport layer that was handed
-- in, and not the copy whose sequence number was moved on.
segment_stack : Option Layer → Layer → Tcp → Tcp → Bytes → List Layer
segment_stack none network new t b = network ∷ Layer.tcp new ∷ Layer.payload b ∷ []
segment_stack (some link) network new t b = link ∷ network ∷ Layer.tcp t ∷ Layer.payload b ∷ []

segment_round :
    Gopacket
    → Option Layer
    → Layer
    → Tcp
    → Bytes
    → ℕ
    → ℕ
    → ℕ
    → (ℕ → Result (List Bytes))
    → Result (List Bytes)
unfolding segment_layers segment_stack serialize
segment_round g link network t payload len i n again = do
  (new_network, new_tcp) ← segment_layers g network t i n
  bytes ← serialize g (segment_stack link new_network new_tcp t (slice i len payload))
  rest ← again (i + len)
  ok (bytes ∷ rest)

unfoldable pub segment_loop :
    Gopacket → Option Layer → Layer → Tcp → Bytes → ℕ → ℕ → ℕ → ℕ → Result (List Bytes)
unfolding segment_round
segment_loop g link network t payload room zero n i = err diverges
segment_loop g link network t payload room (suc fuel) n i =
    let len = min room (length payload - i) in
    let more =
      segment_round g link network t payload len i n
        (segment_loop g link network t payload room fuel (add16 n 1)) in
    if ltb i (length payload) then more else ok []

-- `CreateTCPSegmentPackets`.
unfoldable pub create_tcp_segment_packets :
    Gopacket → Option Layer → Layer → Tcp → Bytes → ℕ → Result (List Bytes)
unfolding serialize serialize_raw
create_tcp_segment_packets g link network t payload fragment = do
  network_header ← serialize g (network ∷ [])
  tcp_header ← serialize_raw g (Layer.tcp t ∷ [])
  let headers = length network_header + length tcp_header
  if ltb fragment (headers + length payload)
      then segment_loop g link network t payload (fragment - headers) (suc (length payload)) 0 0
      else (do
        whole ← serialize g (with_link link (network ∷ Layer.tcp t ∷ Layer.payload payload ∷ []))
        ok (whole ∷ []))

-- `networkLayer.(gopacket.NetworkLayer)`.
as_network : Layer → Result Layer
as_network (Layer.ipv4 ip) = ok (Layer.ipv4 ip)
as_network (Layer.ipv6 b) = ok (Layer.ipv6 b)
as_network _ = panic

-- `transportLayer.(gopacket.SerializableLayer)` panics at nil.
by_network : Gopacket → Option Layer → Layer → Option Layer → Bytes → ℕ → Result (List Bytes)
unfolding serialize
by_network g link (Layer.ipv4 ip) none payload fragment = panic
by_network g link (Layer.ipv4 ip) (some t) payload fragment = do
  network_payload ← serialize g (t ∷ Layer.payload payload ∷ [])
  create_ipv4_fragment_packets g link ip network_payload fragment
by_network g link _ transport payload fragment = err network_layer_type

-- `CreateFragmentPackets`.
unfoldable pub create_fragment_packets :
    Gopacket → Option Layer → Layer → Option Layer → Bytes → ℕ → Result (List Bytes)
unfolding as_network by_network create_ipv4_fragment_packets create_tcp_segment_packets
create_fragment_packets g link network (some (Layer.tcp t)) payload fragment = do
  n ← as_network network
  create_tcp_segment_packets g link n t payload fragment
create_fragment_packets g link network transport payload fragment =
    by_network g link network transport payload fragment
