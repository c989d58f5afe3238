-- ===== src/Sticky/Tests.antt =====
-- A decoder of packets whose first byte is their length, and a stream of two of them.
use ikago.Base.{
  ℕ, zero, suc, ◌<◌, ◌≡◌, refl, inl, inr, ◌⊎◌, Bytes, [], ◌∷◌, ◌++◌, length, take, none, some,
  Error, ok, err, missing_network_layer, arith,
}
use ikago.Gopacket.{Layer}
use ikago.Packet.{PacketIndicator, need_ipv4}
use ikago.Packet.Parse.{parse_emb_packet}
use ikago.Sticky.{Desticker, new_desticker}
use ikago.Sticky.Frames.{Reads, IsFrame}
use ikago.Sticky.Frames.Stream.{feed, feed-flatten}
use ikago.Samples.{udp_packet, udp_header, header_of, counting}

abbrev found : ℕ → PacketIndicator
found n = record {
  packet = some (record udp_packet { network_layer = some (Layer.ipv4 (header_of n)) });
  link_layer = none;
  network_layer = some (Layer.ipv4 (header_of n));
  transport_layer = some (Layer.udp udp_header);
  icmpv4_indicator = none;
  application_layer = none;
  dns_indicator = none;
}

Reads-first : (n : ℕ) (rest : Bytes) → Reads counting (n ∷ rest) n
unfolding parse_emb_packet need_ipv4
Reads-first n rest = record {
  ind = found n;
  ip = header_of n;
  parsed = refl;
  layer = refl;
  len = refl;
}

refuses_empty : parse_emb_packet counting [] ≡ err missing_network_layer
unfolding parse_emb_packet
refuses_empty = refl

framed : (n : ℕ) (rest : Bytes) → n ≡ suc (length rest) → IsFrame counting (n ∷ rest)
framed n rest h = record {
  some_bytes = omega arith;
  whole = λ tail. rw (← h) (Reads-first n (rest ++ tail));
  part = part_of;
}
  where
    part_of :
        (k : ℕ)
        → k < length (n ∷ rest)
        → ((e : Error) × (parse_emb_packet counting (take k (n ∷ rest)) ≡ err e))
          ⊎ Reads counting (take k (n ∷ rest)) (length (n ∷ rest))
    part_of zero lt = inl (missing_network_layer, refuses_empty)
    part_of (suc k) lt = inr (rw (← h) (Reads-first n (take k rest)))

feed-flatten_example :
    (last : Desticker) × (feed counting
        ((1, 2 ∷ []) ∷ (5, 7 ∷ 3 ∷ 0 ∷ []) ∷ (8, 0 ∷ []) ∷ [])
        (new_desticker 0)
      ≡ ok ((2 ∷ 7 ∷ []) ∷ (3 ∷ 0 ∷ 0 ∷ []) ∷ [], last))
    × (last.bytes ≡ [])
feed-flatten_example =
    feed-flatten counting 0 ((1, 2 ∷ []) ∷ (5, 7 ∷ 3 ∷ 0 ∷ []) ∷ (8, 0 ∷ []) ∷ [])
      ((2 ∷ 7 ∷ []) ∷ (3 ∷ 0 ∷ 0 ∷ []) ∷ []) (missing_network_layer, refuses_empty)
      (framed 2 (7 ∷ []) refl, (framed 3 (0 ∷ 0 ∷ []) refl, tt)) refl
