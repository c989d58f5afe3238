-- ===== src/Fragment/Defrag/Arrival.antt =====
-- The fragments of a packet, in whatever order they arrive, are put in the packet's order, and the
-- packet is complete once they all are there.
use mathlib.Core.List.{Permᴰ}
use ikago.Base.{
  ℕ, ◌+◌, ◌/◌, ◌%◌, ◌≤◌, ◌<◌, ◌≡◌, sym, ap, ◌∙◌, true, false, inl, List, [], ◌∷◌, ◌++◌,
  append_assoc, ok, u16_mod, All, All-append, All-mono, arith,
}
use ikago.Gopacket.{Gopacket}
use ikago.Packet.{PacketIndicator}
use ikago.Fragment.Defrag.{FragIndicator, new_frag_indicator, sort_key, insert, is_completed}
use ikago.Fragment.Defrag.Order.{insert-last}
use ikago.Fragment.Defrag.Core.{
  follows, IsIpv4, span, append_all, arrived, Core, core_of, step, steps, append_all-steps,
  AllApart, All-perm, steps-perm,
}

-- The fragments of one packet in order, from position `i` on: each says how far it is from the
-- front in units of 8 bytes; each but the last says that more follow, and has a positive multiple
-- of 8 bytes. No position reaches 2^16.
abbrev pub Parts : Gopacket → ℕ → List PacketIndicator → Type 0
Parts g i [] = ⊥
Parts g i (x ∷ []) = IsIpv4 x × (follows x ≡ false) × (sort_key x ≡ i / 8) × (i < u16_mod)
Parts g i (x ∷ y ∷ rest) =
    IsIpv4 x
    × (follows x ≡ true)
    × (sort_key x ≡ i / 8)
    × (0 < span g x)
    × (span g x % 8 ≡ 0)
    × Parts g (i + span g x) (y ∷ rest)

-- The state once the fragments up to position `i` came in order.
front : ℕ → List PacketIndicator → Core
front i done = record { total = i % u16_mod; final = 0; sorted = done }

full : ℕ → List PacketIndicator → Core
full n all = record { total = n; final = n / 8; sorted = all }

step-follows :
    (g : Gopacket) (i : ℕ) (done : List PacketIndicator) (x : PacketIndicator)
    → All (λ y. sort_key y ≤ i / 8) done
    → follows x ≡ true
    → sort_key x ≡ i / 8
    → step g (front i done) x ≡ front (i + span g x) (done ++ x ∷ [])
unfolding step front
step-follows g i done x hd f k =
    let e : insert x done ≡ done ++ x ∷ [] =
      insert-last x done (All-mono (λ y h. omega (arith, k)) done hd) in
    let m : (i % u16_mod + span g x % u16_mod) % u16_mod ≡ (i + span g x) % u16_mod = omega arith in
    rw (f, e, m)

step-final :
    (g : Gopacket) (i : ℕ) (done : List PacketIndicator) (x : PacketIndicator)
    → All (λ y. sort_key y ≤ i / 8) done
    → follows x ≡ false
    → sort_key x ≡ i / 8
    → i < u16_mod
    → step g (front i done) x ≡ full i (done ++ x ∷ [])
unfolding step front full
step-final g i done x hd f k b =
    let e : insert x done ≡ done ++ x ∷ [] =
      insert-last x done (All-mono (λ y h. omega (arith, k)) done hd) in
    let m : i % u16_mod ≡ i = omega arith in rw (f, e, k, m)

-- In order, every fragment goes to the end.
steps-Parts :
    (g : Gopacket) (i : ℕ) (done rest : List PacketIndicator)
    → All (λ x. sort_key x ≤ i / 8) done
    → Parts g i rest
    → (n : ℕ) × (steps g (front i done) rest ≡ full n (done ++ rest))
unfolding steps
steps-Parts g i done [] hd p = absurd p
steps-Parts g i done (x ∷ []) hd (v, f, k, b) = (i, step-final g i done x hd f k b)
steps-Parts g i done (x ∷ y ∷ rest) hd (v, f, k, h0, hm, p) =
    let grown : All (λ z. sort_key z ≤ (i + span g x) / 8) (done ++ x ∷ []) =
      All-append _ done (x ∷ []) (All-mono (λ z h. omega arith) done hd) (omega arith, tt) in
    let q = steps-Parts g (i + span g x) (done ++ x ∷ []) (y ∷ rest) grown p in
    (
      q.0,
      ap (λ c. steps g c (y ∷ rest)) (step-follows g i done x hd f k)
          ∙ q.1
          ∙ ap (full q.0) (append_assoc done (x ∷ []) (y ∷ rest)),
    )

-- The offsets of the fragments from position `i` on are not below it.
Parts-from :
    (g : Gopacket) (i : ℕ) (xs : List PacketIndicator)
    → Parts g i xs
    → All (λ x. i / 8 ≤ sort_key x) xs
Parts-from g i [] p = tt
Parts-from g i (x ∷ []) (v, f, k, b) = (omega (arith, k), tt)
Parts-from g i (x ∷ y ∷ rest) (v, f, k, h0, hm, p) = (
  omega (arith, k),
  All-mono (λ z h. omega arith) (y ∷ rest) (Parts-from g (i + span g x) (y ∷ rest) p),
)

Parts-AllApart : (g : Gopacket) (i : ℕ) (xs : List PacketIndicator) → Parts g i xs → AllApart xs
Parts-AllApart g i [] p = tt
Parts-AllApart g i (x ∷ []) p = (tt, tt)
Parts-AllApart g i (x ∷ y ∷ rest) (v, f, k, h0, hm, p) = (
  All-mono (λ z h. ((λ e. absurd (omega arith)), inl f)) (y ∷ rest)
      (Parts-from g (i + span g x) (y ∷ rest) p),
  Parts-AllApart g (i + span g x) (y ∷ rest) p,
)

pub Parts-IsIpv4 : (g : Gopacket) (i : ℕ) (xs : List PacketIndicator) → Parts g i xs → All IsIpv4 xs
Parts-IsIpv4 g i [] p = tt
Parts-IsIpv4 g i (x ∷ []) p = (p.0, tt)
Parts-IsIpv4 g i (x ∷ y ∷ rest) (v, f, k, h0, hm, p) =
    (v, Parts-IsIpv4 g (i + span g x) (y ∷ rest) p)

-- The fragments of one packet, appended to a new indicator in any order and at any times, are
-- complete, and stand in the packet's order.
pub append_all-Parts :
    (g : Gopacket) (start : ℕ) (l : List (ℕ × PacketIndicator)) (xs : List PacketIndicator)
    → Permᴰ xs (arrived l)
    → Parts g 0 xs
    → (f : FragIndicator) × (append_all g l (new_frag_indicator start) ≡ ok f)
      × (f.frags ≡ xs)
      × (is_completed f ≡ true)
unfolding new_frag_indicator is_completed core_of full front
append_all-Parts g start l xs d p =
    let v = All-perm IsIpv4 d (Parts-IsIpv4 g 0 xs p) in
    let (f, e, c) = append_all-steps g l (new_frag_indicator start) v in
    let (n, q) = steps-Parts g 0 [] xs tt p in
    let same : core_of f ≡ full n xs =
      c ∙ sym (steps-perm g (front 0 []) d (Parts-AllApart g 0 xs p)) ∙ q in
    let total : f.length ≡ n = ap (λ k. k.total) same in
    let final : f.offset ≡ n / 8 = ap (λ k. k.final) same in
    (f, e, ap (λ k. k.sorted) same, rw (total, final) (ground arith))
