-- ===== src/Fragment/Tests.antt =====
-- A packet of 100 bytes of payload, cut for a fragment size of 64.
use ikago.Base.{
  ◌+◌, ◌≤◌, ◌<◌, ◌≡◌, refl, Bytes, List, [], ◌∷◌, length, replicate, none, some, ok, ◌>>=◌, arith,
}
use ikago.Gopacket.{Layer}
use ikago.Layers.{serialize, serialize_raw}
use ikago.Fragment.Create.{
  with_link, piece_length, ipv4_loop, create_ipv4_fragment_packets, create_tcp_segment_packets,
}
use ikago.Fragment.Create.Pieces.{
  Piece, Chain, serialize_pieces, create_ipv4_fragment_packets-Chain,
}
use ikago.Fragment.Create.Segments.{
  Segment, Run, serialize_segments, create_tcp_segment_packets-Run,
}
use ikago.Samples.{flat, ipv4_header, tcp_header}

abbrev body : Bytes
body = replicate 100 9

-- 40 of 44 bytes, and the alignment that leaves at least 8 for the last fragment.
first_length : piece_length 44 100 ≡ some 40
unfolding piece_length
first_length = refl

held_back : piece_length 44 46 ≡ some 32
unfolding piece_length
held_back = refl

three_fragments :
    (create_ipv4_fragment_packets flat none ipv4_header body 64 >>= λ ps. ok (length ps)) ≡ ok 3
unfolding create_ipv4_fragment_packets ipv4_loop
three_fragments = refl

create_ipv4_fragment_packets-Chain_example :
    (64 < 20 + 100
      → (ps : List Piece) × Chain 44 0 ps body
        × (create_ipv4_fragment_packets flat none ipv4_header body 64
            ≡ serialize_pieces flat none ipv4_header ps))
    × (20 + 100 ≤ 64
        → create_ipv4_fragment_packets flat none ipv4_header body 64 ≡ (
            serialize flat (with_link none (Layer.ipv4 ipv4_header ∷ Layer.payload body ∷ []))
            >>= λ whole. ok (whole ∷ [])))
create_ipv4_fragment_packets-Chain_example =
    create_ipv4_fragment_packets-Chain flat none ipv4_header body (replicate 20 0) 64
      (unfold serialize in refl) (omega arith)

create_tcp_segment_packets-Run_example :
    (64 < 40 + 100
      → (ss : List Segment) × Run 24 0 0 ss body
        × (create_tcp_segment_packets flat none (Layer.ipv4 ipv4_header) tcp_header body 64
            ≡ serialize_segments flat none ipv4_header tcp_header ss))
    × (40 + 100 ≤ 64
        → create_tcp_segment_packets flat none (Layer.ipv4 ipv4_header) tcp_header body 64 ≡ (
            serialize flat (
              with_link none
                (Layer.ipv4 ipv4_header ∷ Layer.tcp tcp_header ∷ Layer.payload body ∷ []))
            >>= λ whole. ok (whole ∷ [])))
create_tcp_segment_packets-Run_example =
    create_tcp_segment_packets-Run flat none ipv4_header tcp_header body (replicate 20 0)
      (replicate 20 0) 64 (unfold serialize in refl) (unfold serialize_raw in refl) (omega arith)
