-- ===== src/Fragment/Defrag/Tests.antt =====
-- A packet in two fragments of 16 and 5 bytes, the second of which comes first.
use mathlib.Core.List.{Permᴰ}
use ikago.Base.{◌≡◌, refl, true, false, [], ◌∷◌, replicate, ok, arith}
use ikago.Addr.{ip_string}
use ikago.Packet.{PacketIndicator, network_id, src_ip}
use ikago.Packet.Nat.{network_payload}
use ikago.Fragment.Defrag.{
  FragFlow, FragIndicator, new_frag_indicator, sort_key, append, is_completed, flow_eq, find_flow,
  current, new_easy_defragmenter, append_original, insert,
}
use ikago.Fragment.Defrag.Core.{append_all}
use ikago.Fragment.Defrag.Arrival.{Parts, append_all-Parts}
use ikago.Fragment.Defrag.Missing.{append_all-missing}
use ikago.Fragment.Defrag.Flows.{append_original-other}
use ikago.Samples.{blank, console_ip, ipv4_header, fragment_of}

abbrev first_fragment : PacketIndicator
first_fragment =
    fragment_of (record ipv4_header { more_fragments = true; payload = replicate 16 1 })

abbrev last_fragment : PacketIndicator
last_fragment = fragment_of (record ipv4_header { frag_offset = 2; payload = replicate 5 2 })

abbrev flow : FragFlow
flow = record { id = 7; src = ip_string console_ip }

abbrev waiting : FragIndicator
waiting = record { length = 0; offset = 2; frags = last_fragment ∷ []; last_seen = 5 }

two-Parts : Parts blank 0 (first_fragment ∷ last_fragment ∷ [])
unfolding sort_key network_payload
two-Parts = (
  (record ipv4_header { more_fragments = true; payload = replicate 16 1 }, refl),
  refl,
  refl,
  omega arith,
  refl,
  (
    (record ipv4_header { frag_offset = 2; payload = replicate 5 2 }, refl),
    refl,
    refl,
    omega arith,
  ),
)

append_all-Parts_example :
    (f : FragIndicator) × (append_all blank
        ((5, last_fragment) ∷ (9, first_fragment) ∷ [])
        (new_frag_indicator 1)
      ≡ ok f)
    × (f.frags ≡ first_fragment ∷ last_fragment ∷ [])
    × (is_completed f ≡ true)
append_all-Parts_example =
    append_all-Parts blank 1 ((5, last_fragment) ∷ (9, first_fragment) ∷ [])
      (first_fragment ∷ last_fragment ∷ []) (Permᴰ.swap refl refl) two-Parts

append_all-missing_example :
    (f : FragIndicator) × (append_all blank ((5, last_fragment) ∷ []) (new_frag_indicator 1) ≡ ok f)
    × (is_completed f ≡ false)
append_all-missing_example =
    append_all-missing blank 1 ((5, last_fragment) ∷ []) (first_fragment ∷ [])
      (first_fragment ∷ last_fragment ∷ []) (Permᴰ.swap refl refl) two-Parts (omega arith)
      (omega arith)

append_original-other_example :
    find_flow
      (record { id = 8; src = ip_string console_ip })
      (append_original blank 5 new_easy_defragmenter last_fragment).1.frags
    ≡ find_flow (record { id = 8; src = ip_string console_ip }) new_easy_defragmenter.frags
append_original-other_example =
    append_original-other blank 5 new_easy_defragmenter last_fragment 7 console_ip
      (record { id = 8; src = ip_string console_ip }) (unfold network_id in refl)
      (unfold src_ip in refl) (unfold flow_eq in refl)

appended : append blank 5 (current 5 new_easy_defragmenter flow) last_fragment ≡ ok waiting
unfolding append current find_flow new_easy_defragmenter new_frag_indicator insert
appended = refl
