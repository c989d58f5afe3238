-- ===== src/Fragment/Create/Segments.antt =====
-- What the TCP segments of a packet are: consecutive slices of the payload, each under a copy of
-- the network layer with an identification of its own.
use ikago.Base.{
  ℕ, zero, suc, ◌+◌, ◌-◌, ◌≤◌, ◌<◌, ◌≡◌, refl, inl, inr, true, false, Bytes, List, [], ◌∷◌, ◌++◌,
  length, take, drop, length-take, length-drop, take-append-drop, drop-all, drop-drop, Option, none,
  some, Bool-cases, Result, ok, err, panic, ◌>>=◌, add16, add32, to_u32, ltb, min, arith,
}
use ikago.Gopacket.{Gopacket, Layer, Ipv4, Tcp}
use ikago.Layers.{serialize, serialize_raw}
use ikago.Fragment.Create.{
  with_link, slice, segment_layers, segment_stack, segment_round, segment_loop,
  create_tcp_segment_packets,
}

-- A segment: its number, its position in the payload, and its bytes.
pub record Segment : Type 0 where
  pub number : ℕ
  pub position : ℕ
  pub bytes : Bytes

-- The segments stand for `left`, which begins at position `i`: they are numbered from `n` on
-- (mod 2^16), each but the last fills `room`, and none is empty.
abbrev pub Run : ℕ → ℕ → ℕ → List Segment → Bytes → Type 0
Run room n i [] left = left ≡ []
Run room n i (s ∷ rest) left =
    (s.number ≡ n)
    × (s.position ≡ i)
    × (0 < length s.bytes)
    × (length s.bytes ≡ min room (length left))
    × (s.bytes ++ drop (length s.bytes) left ≡ left)
    × Run room (add16 n 1) (i + length s.bytes) rest (drop (length s.bytes) left)

-- The transport layer that is sent: behind a link layer the one handed in, and else the copy.
pub sent : Option Layer → Tcp → Tcp → Tcp
sent none old new = new
sent (some link) old new = old

-- The serialized segments. The copy of the transport layer has the sequence number of the
-- segment's first byte, and is summed under the segment's own network layer.
pub serialize_segments : Gopacket → Option Layer → Ipv4 → Tcp → List Segment → Result (List Bytes)
unfolding sent
serialize_segments g link ip t [] = ok []
serialize_segments g link ip t (s ∷ ss) =
    let network = record ip { id = add16 ip.id s.number } in
    do
      new ← g.tcp_checksum network (record t { seq = add32 t.seq (to_u32 s.position) })
      bytes ← serialize g (
          with_link link
            (Layer.ipv4 network ∷ Layer.tcp (sent link t new) ∷ Layer.payload s.bytes ∷ []))
      rest ← serialize_segments g link ip t ss
      ok (bytes ∷ rest)

segment_at : ℕ → ℕ → ℕ → Bytes → Segment
segment_at n i len payload = record { number = n; position = i; bytes = slice i len payload }

>>=-pair {ℓ κ μ} :
    {A : Type ℓ} {N : Type κ} {C : Type μ} (m : Result A) (x : N) (k : N × A → Result C)
    → ((m >>= λ a. ok (x, a)) >>= k) ≡ (m >>= λ a. k (x, a))
>>=-pair (ok a) x k = refl
>>=-pair (err e) x k = refl
>>=-pair panic x k = refl

segment_loop-step :
    (g : Gopacket) (link : Option Layer) (ip : Ipv4) (t : Tcp) (payload : Bytes) (room fuel n i : ℕ)
    (ss : List Segment)
    → i < length payload
    → segment_loop g link
        (Layer.ipv4 ip)
        t
        payload
        room
        fuel
        (add16 n 1)
        (i + min room (length payload - i))
      ≡ serialize_segments g link ip t ss
    → segment_loop g link (Layer.ipv4 ip) t payload room (suc fuel) n i
      ≡ serialize_segments g link ip t (segment_at n i (min room (length payload - i)) payload ∷ ss)
unfolding segment_loop segment_round segment_layers segment_stack serialize_segments segment_at sent
segment_loop-step g none ip t payload room fuel n i ss h e =
    let b : ltb i (length payload) ≡ true = ground arith in
    let network : Ipv4 = record ip { id = add16 ip.id n } in
    let new : Tcp = record t { seq = add32 t.seq (to_u32 i) } in
    rw (b, e, >>=-pair (g.tcp_checksum network new) (Layer.ipv4 network))
segment_loop-step g (some l) ip t payload room fuel n i ss h e =
    let b : ltb i (length payload) ≡ true = ground arith in
    let network : Ipv4 = record ip { id = add16 ip.id n } in
    let new : Tcp = record t { seq = add32 t.seq (to_u32 i) } in
    rw (b, e, >>=-pair (g.tcp_checksum network new) (Layer.ipv4 network))

segment_loop-end :
    (g : Gopacket) (link : Option Layer) (network : Layer) (t : Tcp) (payload : Bytes)
    (room fuel n i : ℕ)
    → 0 < fuel
    → length payload ≤ i
    → segment_loop g link network t payload room fuel n i ≡ ok []
unfolding segment_loop
segment_loop-end g link network t payload room zero n i hf h = absurd (omega arith)
segment_loop-end g link network t payload room (suc fuel) n i hf h = ground arith

Run-cons :
    (room n i : ℕ) (payload : Bytes) (ss : List Segment)
    → 0 < room
    → i < length payload
    → Run room
        (add16 n 1)
        (i + min room (length payload - i))
        ss
        (drop (i + min room (length payload - i)) payload)
    → Run room n i (segment_at n i (min room (length payload - i)) payload ∷ ss) (drop i payload)
unfolding segment_at
Run-cons room n i payload ss hr hi r =
    let len = min room (length payload - i) in
    let e : length (take len (drop i payload)) ≡ len =
      omega (arith, length-take len (drop i payload), length-drop i payload) in
    let d : drop len (drop i payload) ≡ drop (i + len) payload = drop-drop i len payload in
    rw e (
      refl,
      refl,
      omega arith,
      omega (arith, length-drop i payload),
      take-append-drop len (drop i payload),
      rw d r,
    )

segment_loop-Run :
    (g : Gopacket) (link : Option Layer) (ip : Ipv4) (t : Tcp) (payload : Bytes) (room fuel n i : ℕ)
    → 0 < room
    → length payload - i < fuel
    → (ss : List Segment) × Run room n i ss (drop i payload)
      × (segment_loop g link (Layer.ipv4 ip) t payload room fuel n i
          ≡ serialize_segments g link ip t ss)
unfolding serialize_segments
segment_loop-Run g link ip t payload room zero n i hr hf = absurd (omega arith)
segment_loop-Run g link ip t payload room (suc fuel) n i hr hf =
    elim (Bool-cases (ltb i (length payload))) [
      | inl b ↦
          let hi : i < length payload = ground arith in
          let len = min room (length payload - i) in
          let (ss, r, e) =
            segment_loop-Run g link ip t payload room fuel (add16 n 1) (i + len) hr (omega arith) in
          (
            segment_at n i len payload ∷ ss,
            Run-cons room n i payload ss hr hi r,
            segment_loop-step g link ip t payload room fuel n i ss hi e,
          )
      | inr b ↦ (
        [],
        drop-all i payload (ground arith),
        segment_loop-end g link (Layer.ipv4 ip) t payload room (suc fuel) n i (omega arith)
            (ground arith),
      )
    ]

-- Over IPv4, when headers and payload are longer than the fragment size, and the size leaves room
-- behind the headers, `CreateTCPSegmentPackets` ends, and returns what the segments of a run from
-- number 0 and position 0 for the whole payload serialize to; else it returns one packet with the
-- layers that were handed in.
pub create_tcp_segment_packets-Run :
    (g : Gopacket) (link : Option Layer) (ip : Ipv4) (t : Tcp)
    (payload network_header tcp_header : Bytes) (fragment : ℕ)
    → serialize g (Layer.ipv4 ip ∷ []) ≡ ok network_header
    → serialize_raw g (Layer.tcp t ∷ []) ≡ ok tcp_header
    → length network_header + length tcp_header < fragment
    → (fragment < length network_header + length tcp_header + length payload
        → (ss : List Segment) × Run
            (fragment - (length network_header + length tcp_header))
            0
            0
            ss
            payload
          × (create_tcp_segment_packets g link (Layer.ipv4 ip) t payload fragment
              ≡ serialize_segments g link ip t ss))
      × (length network_header + length tcp_header + length payload ≤ fragment
          → create_tcp_segment_packets g link (Layer.ipv4 ip) t payload fragment ≡ (
              serialize g
                (with_link link (Layer.ipv4 ip ∷ Layer.tcp t ∷ Layer.payload payload ∷ []))
              >>= λ whole. ok (whole ∷ [])))
unfolding create_tcp_segment_packets
create_tcp_segment_packets-Run g link ip t payload network_header tcp_header fragment hn ht hr = (
  λ lt.
      let (ss, r, e) =
        segment_loop-Run g link ip t payload
          (fragment - (length network_header + length tcp_header)) (suc (length payload)) 0 0
          (omega arith) (omega arith) in
      let b : ltb fragment (length network_header + length tcp_header + length payload) ≡ true =
        ground arith in
      (ss, r, rw (hn, ht, b) e),
  λ le.
      let b : ltb fragment (length network_header + length tcp_header + length payload) ≡ false =
        ground arith in
      rw (hn, ht, b),
)
