-- ===== src/Fragment/Create/Pieces.antt =====
-- What the fragments of a packet are: consecutive slices of the payload, with the offsets and the
-- flags that put them together again.
use ikago.Base.{
  ℕ, zero, suc, ◌+◌, ◌-◌, ◌/◌, ◌%◌, ◌≤◌, ◌<◌, ◌≡◌, refl, inl, inr, Bool, true, false, Bytes, List,
  [], ◌∷◌, ◌++◌, length, take, drop, length-take, length-drop, take-append-drop, take-all,
  drop-drop, Option, some, Option-cases, Bool-cases, Result, ok, ◌>>=◌, to_u16, ltb, arith,
}
use ikago.Gopacket.{Gopacket, Layer, Ipv4}
use ikago.Layers.{serialize, flag_ipv4_layer}
use ikago.Fragment.Create.{
  with_link, slice, piece_length, piece_header, ipv4_round, ipv4_loop, create_ipv4_fragment_packets,
}

-- A fragment: its offset in units of 8 bytes, whether more follow, and its bytes.
pub record Piece : Type 0 where
  pub offset : ℕ
  pub more : Bool
  pub bytes : Bytes

-- The pieces stand for `left`, which begins at position `i`: each but the last is a positive
-- multiple of 8 bytes with at least 8 bytes behind it, and none is longer than `room`.
abbrev pub Chain : ℕ → ℕ → List Piece → Bytes → Type 0
Chain room i [] left = ⊥
Chain room i (p ∷ []) left =
    (p.offset ≡ to_u16 (i / 8))
    × (p.more ≡ false)
    × (p.bytes ≡ left)
    × (length p.bytes ≤ room)
    × (0 < length p.bytes)
Chain room i (p ∷ q ∷ rest) left =
    (p.offset ≡ to_u16 (i / 8))
    × (p.more ≡ true)
    × (p.bytes ++ drop (length p.bytes) left ≡ left)
    × (length p.bytes ≤ room)
    × (0 < length p.bytes)
    × (length p.bytes % 8 ≡ 0)
    × (8 ≤ length (drop (length p.bytes) left))
    × Chain room (i + length p.bytes) (q ∷ rest) (drop (length p.bytes) left)

-- The serialized pieces, each behind the packet's header with its own offset and flag.
pub serialize_pieces : Gopacket → Option Layer → Ipv4 → List Piece → Result (List Bytes)
serialize_pieces g link ip [] = ok []
serialize_pieces g link ip (p ∷ ps) = do
  bytes ← serialize g (
      with_link link
        (Layer.ipv4 (flag_ipv4_layer ip false p.more p.offset) ∷ Layer.payload p.bytes ∷ []))
  rest ← serialize_pieces g link ip ps
  ok (bytes ∷ rest)

-- The length of a piece: enough to go on with, and aligned unless it is the last.
piece_length-some :
    (room left : ℕ)
    → 16 ≤ room
    → 0 < left
    → (n : ℕ) × (piece_length room left ≡ some n)
      × (0 < n)
      × (n ≤ room)
      × (n ≤ left)
      × (n < left → (n % 8 ≡ 0) × (8 ≤ left - n))
unfolding piece_length
piece_length-some room left hr hl = elim (Option-cases (piece_length room left)) [
  | inl e ↦ absurd (ground arith)
  | inr (n, e) ↦ (n, e, ground arith, ground arith, ground arith, ground arith)
]

-- The piece that a round makes.
piece_at : Bytes → ℕ → ℕ → Piece
piece_at payload i n = record {
  offset = to_u16 (i / 8);
  more = ltb 0 (length payload - i - n);
  bytes = slice i n payload;
}

ltb-eq-true : {a b : ℕ} → a < b → ltb a b ≡ true
ltb-eq-true h = ground arith

ipv4_loop-end :
    (g : Gopacket) (link : Option Layer) (ip : Ipv4) (payload : Bytes) (room fuel i : ℕ)
    → 0 < fuel
    → length payload ≤ i
    → ipv4_loop g link ip payload room fuel i ≡ ok []
unfolding ipv4_loop
ipv4_loop-end g link ip payload room zero i hf h = absurd (omega arith)
ipv4_loop-end g link ip payload room (suc fuel) i hf h = ground arith

ipv4_loop-step :
    (g : Gopacket) (link : Option Layer) (ip : Ipv4) (payload : Bytes) (room fuel i : ℕ) {n : ℕ}
    (ps : List Piece)
    → i < length payload
    → piece_length room (length payload - i) ≡ some n
    → ipv4_loop g link ip payload room fuel (i + n) ≡ serialize_pieces g link ip ps
    → ipv4_loop g link ip payload room (suc fuel) i
      ≡ serialize_pieces g link ip (piece_at payload i n ∷ ps)
unfolding ipv4_loop ipv4_round piece_header serialize_pieces piece_at
ipv4_loop-step g link ip payload room fuel i ps h e hl = rw (ltb-eq-true h, e, hl)

Chain-cons :
    (room i n : ℕ) (payload : Bytes) (ps : List Piece)
    → 0 < n
    → n ≤ room
    → i + n < length payload
    → n % 8 ≡ 0
    → 8 ≤ length payload - (i + n)
    → Chain room (i + n) ps (drop (i + n) payload)
    → Chain room i (piece_at payload i n ∷ ps) (drop i payload)
unfolding piece_at
Chain-cons room i n payload [] h0 hr hn h8 ht c = absurd c
Chain-cons room i n payload (q ∷ ps) h0 hr hn h8 ht c =
    let e : length (take n (drop i payload)) ≡ n =
      omega (arith, length-take n (drop i payload), length-drop i payload) in
    let d : drop n (drop i payload) ≡ drop (i + n) payload = drop-drop i n payload in
    rw e (
      refl,
      ltb-eq-true (omega arith),
      take-append-drop n (drop i payload),
      hr,
      h0,
      h8,
      omega (arith, length-drop n (drop i payload), length-drop i payload),
      rw d c,
    )

Chain-last :
    (room i n : ℕ) (payload : Bytes)
    → 0 < n
    → n ≤ room
    → n ≡ length payload - i
    → Chain room i (piece_at payload i n ∷ []) (drop i payload)
unfolding piece_at
Chain-last room i n payload h0 hr hn =
    let e : take n (drop i payload) ≡ drop i payload =
      take-all n (drop i payload) (omega (arith, length-drop i payload)) in
    rw e (
      refl,
      ground arith,
      refl,
      omega (arith, length-drop i payload),
      omega (arith, length-drop i payload),
    )

ipv4_loop-Chain :
    (g : Gopacket) (link : Option Layer) (ip : Ipv4) (payload : Bytes) (room fuel i : ℕ)
    → 16 ≤ room
    → i < length payload
    → length payload - i < fuel
    → (ps : List Piece) × Chain room i ps (drop i payload)
      × (ipv4_loop g link ip payload room fuel i ≡ serialize_pieces g link ip ps)
unfolding serialize_pieces
ipv4_loop-Chain g link ip payload room zero i hr hi hf = absurd (omega arith)
ipv4_loop-Chain g link ip payload room (suc fuel) i hr hi hf =
    let (n, e, h0, hn, hl, hm) = piece_length-some room (length payload - i) hr (omega arith) in
    elim (Bool-cases (ltb n (length payload - i))) [
      | inl b ↦
          let lt : n < length payload - i = ground arith in
          let (ps, c, q) =
            ipv4_loop-Chain g link ip payload room fuel (i + n) hr (omega arith) (omega arith) in
          (
            piece_at payload i n ∷ ps,
            Chain-cons room i n payload ps h0 hn (omega arith) (hm lt).0 (omega (arith, (hm lt).1))
                c,
            ipv4_loop-step g link ip payload room fuel i ps hi e q,
          )
      | inr b ↦ (
        piece_at payload i n ∷ [],
        Chain-last room i n payload h0 hn (ground arith),
        ipv4_loop-step g link ip payload room fuel i [] hi e
            (ipv4_loop-end g link ip payload room fuel (i + n) (omega arith) (ground arith)),
      )
    ]

-- When the packet is longer than the fragment size, and a fragment has at least 16 bytes of room
-- behind the header, `CreateIPv4FragmentPackets` ends, and returns what the pieces of a chain from
-- position 0 for the whole payload serialize to; else it returns one packet with the payload.
pub create_ipv4_fragment_packets-Chain :
    (g : Gopacket) (link : Option Layer) (ip : Ipv4) (payload header : Bytes) (fragment : ℕ)
    → serialize g (Layer.ipv4 ip ∷ []) ≡ ok header
    → length header + 16 ≤ fragment
    → (fragment < length header + length payload
        → (ps : List Piece) × Chain (fragment - length header) 0 ps payload
          × (create_ipv4_fragment_packets g link ip payload fragment
              ≡ serialize_pieces g link ip ps))
      × (length header + length payload ≤ fragment
          → create_ipv4_fragment_packets g link ip payload fragment ≡ (
              serialize g (with_link link (Layer.ipv4 ip ∷ Layer.payload payload ∷ [])) >>= λ whole.
              ok (whole ∷ [])))
unfolding create_ipv4_fragment_packets
create_ipv4_fragment_packets-Chain g link ip payload header fragment hh hr = (
  λ lt.
      let (ps, c, e) =
        ipv4_loop-Chain g link ip payload (fragment - length header) (suc (length payload)) 0
          (omega arith) (omega arith) (omega arith) in
      (ps, c, rw (hh, ltb-eq-true lt) e),
  λ le. let b : ltb fragment (length header + length payload) ≡ false = ground arith in rw (hh, b),
)
