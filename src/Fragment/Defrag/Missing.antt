-- ===== src/Fragment/Defrag/Missing.antt =====
-- A packet is not complete while one of its fragments is missing.
use mathlib.Core.List.{Permᴰ}
use ikago.Base.{
  ℕ, ◌+◌, ◌*◌, ◌/◌, ◌%◌, ◌≤◌, ◌<◌, ◌≡◌, refl, ap, ◌∙◌, true, false, inl, inr, ◌⊎◌, List, [], ◌∷◌,
  ◌++◌, length, ok, u16_mod, All, Bool-cases, if◌then◌else◌, arith,
}
use ikago.Gopacket.{Gopacket}
use ikago.Packet.{PacketIndicator}
use ikago.Fragment.Defrag.{FragIndicator, new_frag_indicator, sort_key, is_completed}
use ikago.Fragment.Defrag.Core.{
  follows, IsIpv4, span, append_all, arrived, Core, core_of, step, steps, append_all-steps,
  All-perm,
}
use ikago.Fragment.Defrag.Arrival.{Parts, Parts-IsIpv4}

-- The bytes that a fragment adds to the total, and whether it is a final one.
abbrev weight : Gopacket → PacketIndicator → ℕ
weight g x = if follows x then span g x else 0

abbrev finals_of : PacketIndicator → ℕ
finals_of x = if follows x then 0 else 1

abbrev sum : (PacketIndicator → ℕ) → List PacketIndicator → ℕ
sum w [] = 0
sum w (x ∷ xs) = w x + sum w xs

sum-append :
    (w : PacketIndicator → ℕ) (xs ys : List PacketIndicator)
    → sum w (xs ++ ys) ≡ sum w xs + sum w ys
sum-append w [] ys = omega arith
sum-append w (x ∷ xs) ys = omega (arith, sum-append w xs ys)

sum-perm :
    (w : PacketIndicator → ℕ) {xs ys : List PacketIndicator} → Permᴰ xs ys → sum w xs ≡ sum w ys
sum-perm w Permᴰ.nil = refl
sum-perm w (Permᴰ.cons e d) = omega (arith, ap w e, sum-perm w d)
sum-perm w (Permᴰ.swap e e') = omega (arith, ap w e, ap w e')
sum-perm w (Permᴰ.trans d d') = sum-perm w d ∙ sum-perm w d'

All-append_left :
    (P : PacketIndicator → Type 0) (xs ys : List PacketIndicator)
    → All P (xs ++ ys)
    → All P xs × All P ys
All-append_left P [] ys h = (tt, h)
All-append_left P (x ∷ xs) ys h = let (a, b) = All-append_left P xs ys h.1 in ((h.0, a), b)

-- What holds of each fragment of a packet whose final one is at position `n`.
abbrev Fits : Gopacket → ℕ → PacketIndicator → Type 0
Fits g n x = (follows x ≡ true → 8 ≤ span g x) × (follows x ≡ false → sort_key x ≡ n / 8)

sum-Fits :
    (g : Gopacket) (n : ℕ) (xs : List PacketIndicator)
    → All (Fits g n) xs
    → 8 * length xs ≤ sum (weight g) xs + 8 * sum finals_of xs
sum-Fits g n [] h = omega arith
sum-Fits g n (x ∷ xs) h = elim (Bool-cases (follows x)) [
  | inl f ↦
      let a = h.0.0 f in let w : weight g x ≡ span g x = rw f in omega (arith, sum-Fits g n xs h.1)
  | inr f ↦ let w : finals_of x ≡ 1 = rw f in omega (arith, sum-Fits g n xs h.1)
]

step-total :
    (g : Gopacket) (c : Core) (x : PacketIndicator)
    → c.total < u16_mod
    → (step g c x).total ≡ (c.total + weight g x) % u16_mod
unfolding step
step-total g c x h = elim (Bool-cases (follows x)) [
  | inl f ↦ rw f (omega arith)
  | inr f ↦ rw f (omega arith)
]

steps-total :
    (g : Gopacket) (c : Core) (xs : List PacketIndicator)
    → c.total < u16_mod
    → (steps g c xs).total ≡ (c.total + sum (weight g) xs) % u16_mod
unfolding steps
steps-total g c [] h = omega arith
steps-total g c (x ∷ xs) h =
    let e = step-total g c x h in
    let b : (step g c x).total < u16_mod = omega arith in
    omega (arith, steps-total g (step g c x) xs b)

step-final :
    (g : Gopacket) (c : Core) (x : PacketIndicator)
    → ((follows x ≡ true) × (finals_of x ≡ 0) × ((step g c x).final ≡ c.final))
      ⊎ ((follows x ≡ false) × (finals_of x ≡ 1) × ((step g c x).final ≡ sort_key x))
unfolding step
step-final g c x = elim (Bool-cases (follows x)) [
  | inl f ↦ inl (f, rw f, rw f)
  | inr f ↦ inr (f, rw f, rw f)
]

steps-final :
    (g : Gopacket) (n : ℕ) (c : Core) (xs : List PacketIndicator)
    → All (Fits g n) xs
    → ((sum finals_of xs ≡ 0) × ((steps g c xs).final ≡ c.final))
      ⊎ ((0 < sum finals_of xs) × ((steps g c xs).final ≡ n / 8))
unfolding steps
steps-final g n c [] h = inl (refl, refl)
steps-final g n c (x ∷ xs) h = elim (steps-final g n (step g c x) xs h.1) [
  | inr (a, b) ↦ inr (omega arith, b)
  | inl (a, b) ↦ elim (step-final g c x) [
    | inl (f, w, e) ↦ inl (omega arith, b ∙ e)
    | inr (f, w, e) ↦ inr (omega arith, b ∙ e ∙ h.0.1 f)
  ]
]

Parts-Fits :
    (g : Gopacket) (i : ℕ) (xs : List PacketIndicator)
    → Parts g i xs
    → (n : ℕ) × (n < u16_mod)
      × (i + sum (weight g) xs ≡ n)
      × (sum finals_of xs ≡ 1)
      × All (Fits g n) xs
Parts-Fits g i [] p = absurd p
Parts-Fits g i (x ∷ []) (v, f, k, b) =
    let w : weight g x ≡ 0 = rw f in
    let u : finals_of x ≡ 1 = rw f in (i, b, omega arith, omega arith, (((λ e. cc), λ e. k), tt))
Parts-Fits g i (x ∷ y ∷ rest) (v, f, k, h0, hm, p) =
    let w : weight g x ≡ span g x = rw f in
    let u : finals_of x ≡ 0 = rw f in
    let (n, b, s, t, fs) = Parts-Fits g (i + span g x) (y ∷ rest) p in
    (n, b, omega (arith, s), omega (arith, t), (((λ e. omega arith), λ e. cc), fs))

-- While some fragments of a packet have arrived, in any order and at any times, and some have not,
-- the indicator is not complete.
pub append_all-missing :
    (g : Gopacket) (start : ℕ) (l : List (ℕ × PacketIndicator)) (missing xs : List PacketIndicator)
    → Permᴰ xs (arrived l ++ missing)
    → Parts g 0 xs
    → 0 < length (arrived l)
    → 0 < length missing
    → (f : FragIndicator) × (append_all g l (new_frag_indicator start) ≡ ok f)
      × (is_completed f ≡ false)
unfolding new_frag_indicator is_completed core_of
append_all-missing g start l missing xs d p ha hm =
    let here = arrived l in
    let (n, b, s, t, fits) = Parts-Fits g 0 xs p in
    let (fa, fm) = All-append_left (Fits g n) here missing (All-perm (Fits g n) d fits) in
    let v = All-append_left IsIpv4 here missing (All-perm IsIpv4 d (Parts-IsIpv4 g 0 xs p)) in
    let (f, e, c) = append_all-steps g l (new_frag_indicator start) v.0 in
    let begin = core_of (new_frag_indicator start) in
    let bytes = sum-perm (weight g) d ∙ sum-append (weight g) here missing in
    let ends = sum-perm finals_of d ∙ sum-append finals_of here missing in
    let sa = sum-Fits g n here fa in
    let sm = sum-Fits g n missing fm in
    let total : f.length ≡ (0 + sum (weight g) here) % u16_mod =
      ap (λ k. k.total) c ∙ steps-total g begin here (omega arith) in
    elim (steps-final g n begin here fa) [
      | inl (z, q) ↦
          let final : f.offset ≡ 0 = ap (λ k. k.final) c ∙ q in
          let lt : 0 < f.length / 8 = omega arith in (f, e, ground arith)
      | inr (z, q) ↦
          let final : f.offset ≡ n / 8 = ap (λ k. k.final) c ∙ q in
          let lt : f.length / 8 < n / 8 = omega arith in (f, e, ground arith)
    ]
