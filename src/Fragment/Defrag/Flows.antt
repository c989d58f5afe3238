-- ===== src/Fragment/Defrag/Flows.antt =====
-- The map of the flows: a fragment touches no flow but its own.
use ikago.Base.{
  ℕ, ◌≡◌, refl, Bool, true, false, inl, inr, List, [], ◌∷◌, Option, none, some, Result, ok, err,
  panic, Bool-cases, text_eq_sound, arith,
}
use ikago.Addr.{Ip, ip_string}
use ikago.Gopacket.{Gopacket}
use ikago.Packet.{PacketIndicator, is_frag, network_id, src_ip}
use ikago.Fragment.Defrag.{
  FragFlow, FragIndicator, EasyDefragmenter, append, is_completed, flow_eq, find_flow, put_flow,
  current, settle, add_fragment, append_original,
}

flow_eq_sound : (a b : FragFlow) → flow_eq a b ≡ true → a ≡ b
unfolding flow_eq
flow_eq_sound a b h =
    let i : a.id ≡ b.id = ground arith in
    let s : a.src ≡ b.src = text_eq_sound a.src b.src (ground arith) in cc

find_flow-put_ne :
    (k k' : FragFlow) (v : Option FragIndicator) (m : List (FragFlow × Option FragIndicator))
    → flow_eq k' k ≡ false
    → find_flow k' (put_flow k v m) ≡ find_flow k' m
unfolding find_flow put_flow
find_flow-put_ne k k' v [] h = rw h
find_flow-put_ne k k' v ((key, old) ∷ rest) h = elim (Bool-cases (flow_eq k key)) [
  | inl e ↦ let same : flow_eq k' key ≡ false = rw (← flow_eq_sound k key e) h in rw (e, h, same)
  | inr e ↦ elim (Bool-cases (flow_eq k' key)) [
    | inl f ↦ rw (e, f)
    | inr f ↦ rw (e, f) (find_flow-put_ne k k' v rest h)
  ]
]

settle-ne :
    (g : Gopacket) (d : EasyDefragmenter) (k k' : FragFlow) (f : FragIndicator)
    → flow_eq k' k ≡ false
    → find_flow k' (settle g d k f).1.frags ≡ find_flow k' d.frags
unfolding settle
settle-ne g d k k' f h = elim (Bool-cases (is_completed f)) [
  | inl c ↦ rw c (find_flow-put_ne k k' none d.frags h)
  | inr c ↦ rw c (find_flow-put_ne k k' (some f) d.frags h)
]

-- `AppendOriginal` with a packet of one flow leaves the indicator of every other flow as it is.
pub append_original-other :
    (g : Gopacket) (now : ℕ) (d : EasyDefragmenter) (ind : PacketIndicator) (id : ℕ) (ip : Ip)
    (k : FragFlow)
    → network_id ind ≡ ok id
    → src_ip ind ≡ ok ip
    → flow_eq k (record { id = id; src = ip_string ip }) ≡ false
    → find_flow k (append_original g now d ind).1.frags ≡ find_flow k d.frags
unfolding append_original add_fragment
append_original-other g now d ind id ip k hi hs hk = by (is_frag ind) refl
  where
    own : FragFlow
    own = record { id = id; src = ip_string ip }

    add :
        (r : Result FragIndicator)
        → append g now (current now d own) ind ≡ r
        → find_flow k (add_fragment g now d ind own).1.frags ≡ find_flow k d.frags
    add panic e = rw (e, add_fragment)
    add (err x) e = rw (e, add_fragment)
    add (ok f) e = rw (e, add_fragment) (settle-ne g d own k f hk)

    by :
        (r : Result Bool)
        → is_frag ind ≡ r
        → find_flow k (append_original g now d ind).1.frags ≡ find_flow k d.frags
    by panic e = rw (e, append_original)
    by (err x) e = rw (e, append_original)
    by (ok false) e = rw (e, append_original)
    by (ok true) e =
        rw (e, hi, hs, append_original) (add (append g now (current now d own) ind) refl)
