-- ===== src/Fragment/Defrag/Core.antt =====
-- What of an indicator does not depend on the clock, and that it does not depend on the order of
-- the arrivals.
use mathlib.Core.List.{Permᴰ}
use mathlib.Core.Path.{subst}
use ikago.Base.{
  ℕ, ◌+◌, ◌%◌, ◌≡◌, ◌≢◌, refl, sym, ap, ◌∙◌, Bool, true, false, inl, inr, ◌⊎◌, List, [], ◌∷◌,
  length, some, Result, ok, ◌>>=◌, add16, to_u16, u16_mod, All, Bool-cases, if◌then◌else◌, arith,
}
use ikago.Gopacket.{Gopacket, Layer, Ipv4}
use ikago.Packet.{PacketIndicator, more_fragments, frag_offset}
use ikago.Packet.Nat.{network_payload}
use ikago.Fragment.Defrag.{FragIndicator, sort_key, insert, append}
use ikago.Fragment.Defrag.Order.{insert_comm}

-- The flag of a fragment, and that it has an IPv4 header.
abbrev pub follows : PacketIndicator → Bool
follows ind = elim ind.network_layer [ some (Layer.ipv4 ip) ↦ ip.more_fragments | _ ↦ false ]

abbrev pub IsIpv4 : PacketIndicator → Type 0
IsIpv4 ind = (ip : Ipv4) × (ind.network_layer ≡ some (Layer.ipv4 ip))

-- The payload's length.
abbrev pub span : Gopacket → PacketIndicator → ℕ
span g ind = length (network_payload g ind)

-- The fragments of a list of arrivals, each with its time, are appended in turn.
unfoldable pub append_all :
    Gopacket → List (ℕ × PacketIndicator) → FragIndicator → Result FragIndicator
append_all g [] f = ok f
append_all g ((now, ind) ∷ rest) f = do next ← append g now f ind; append_all g rest next

abbrev pub arrived : List (ℕ × PacketIndicator) → List PacketIndicator
arrived [] = []
arrived ((now, ind) ∷ rest) = ind ∷ arrived rest

-- What of an indicator does not depend on the clock.
pub record Core : Type 0 where
  pub total : ℕ
  pub final : ℕ
  pub sorted : List PacketIndicator

unfoldable pub core_of : FragIndicator → Core
core_of f = record { total = f.length; final = f.offset; sorted = f.frags }

unfoldable pub step : Gopacket → Core → PacketIndicator → Core
step g c x =
    if follows x
    then record {
      total = add16 c.total (to_u16 (span g x));
      final = c.final;
      sorted = insert x c.sorted;
    }
    else record { total = c.total; final = sort_key x; sorted = insert x c.sorted }

unfoldable pub steps : Gopacket → Core → List PacketIndicator → Core
steps g c [] = c
steps g c (x ∷ xs) = steps g (step g c x) xs

append-step :
    (g : Gopacket) (now : ℕ) (f : FragIndicator) (x : PacketIndicator)
    → IsIpv4 x
    → (f' : FragIndicator) × (append g now f x ≡ ok f') × (core_of f' ≡ step g (core_of f) x)
unfolding append step core_of more_fragments frag_offset sort_key
append-step g now f x (ip, e) = elim (Bool-cases ip.more_fragments) [
  | inl m ↦ (
    record f {
      length = add16 f.length (to_u16 (span g x));
      frags = insert x f.frags;
      last_seen = now;
    },
    rw (e, m),
    rw (e, m),
  )
  | inr m ↦ (
    record f { offset = ip.frag_offset; frags = insert x f.frags; last_seen = now },
    rw (e, m),
    rw (e, m),
  )
]

pub append_all-steps :
    (g : Gopacket) (l : List (ℕ × PacketIndicator)) (f : FragIndicator)
    → All IsIpv4 (arrived l)
    → (f' : FragIndicator) × (append_all g l f ≡ ok f')
      × (core_of f' ≡ steps g (core_of f) (arrived l))
unfolding append_all steps
append_all-steps g [] f h = (f, refl, refl)
append_all-steps g ((now, x) ∷ rest) f h =
    let (f1, e, c) = append-step g now f x h.0 in
    let (f2, e', c') = append_all-steps g rest f1 h.1 in
    (f2, rw e e', c' ∙ ap (λ k. steps g k (arrived rest)) c)

-- Two fragments that may be swapped: their offsets differ, and one of them is not the final one.
abbrev pub Apart : PacketIndicator → PacketIndicator → Type 0
Apart x y = (sort_key x ≢ sort_key y) × ((follows x ≡ true) ⊎ (follows y ≡ true))

step_comm :
    (g : Gopacket) (c : Core) (x y : PacketIndicator)
    → Apart x y
    → step g (step g c x) y ≡ step g (step g c y) x
unfolding step
step_comm g c x y (n, m) =
    let e = insert_comm x y c.sorted n in
    let a : ((c.total + span g x % u16_mod) % u16_mod + span g y % u16_mod) % u16_mod
        ≡ ((c.total + span g y % u16_mod) % u16_mod + span g x % u16_mod) % u16_mod =
      omega arith in
    elim (Bool-cases (follows x)) [
      | inl hx ↦ elim (Bool-cases (follows y)) [
        | inl hy ↦ rw (hx, hy, a, e)
        | inr hy ↦ rw (hx, hy, e)
      ]
      | inr hx ↦ elim (Bool-cases (follows y)) [
        | inl hy ↦ rw (hx, hy, e)
        | inr hy ↦ absurd (ground arith)
      ]
    ]

abbrev pub AllApart : List PacketIndicator → Type 0
AllApart [] = Unit
AllApart (x ∷ xs) = All (λ y. Apart x y) xs × AllApart xs

pub All-perm {ℓ} :
    (P : PacketIndicator → Type ℓ) {xs ys : List PacketIndicator}
    → Permᴰ xs ys
    → All P xs
    → All P ys
All-perm P Permᴰ.nil h = h
All-perm P (Permᴰ.cons e d) h = (subst P e h.0, All-perm P d h.1)
All-perm P (Permᴰ.swap e e') h = (subst P e' h.1.0, (subst P e h.0, h.1.1))
All-perm P (Permᴰ.trans d d') h = All-perm P d' (All-perm P d h)

pub Apart-symm : (x y : PacketIndicator) → Apart x y → Apart y x
Apart-symm x y (n, inl h) = (λ e. n (sym e), inr h)
Apart-symm x y (n, inr h) = (λ e. n (sym e), inl h)

pub AllApart-perm : {xs ys : List PacketIndicator} → Permᴰ xs ys → AllApart xs → AllApart ys
AllApart-perm Permᴰ.nil h = h
AllApart-perm (Permᴰ.cons {l₂} e d) h =
    (subst (λ z. All (λ y. Apart z y) l₂) e (All-perm _ d h.0), AllApart-perm d h.1)
AllApart-perm (Permᴰ.swap {a} {b} {a'} {b'} {l} e e') ((ab, al), (bl, r)) = (
  (
    subst (λ z. Apart z b') e' (subst (λ z. Apart b z) e (Apart-symm a b ab)),
    subst (λ z. All (λ y. Apart z y) l) e' bl,
  ),
  (subst (λ z. All (λ y. Apart z y) l) e al, r),
)
AllApart-perm (Permᴰ.trans d d') h = AllApart-perm d' (AllApart-perm d h)

pub steps-perm :
    (g : Gopacket) (c : Core) {xs ys : List PacketIndicator}
    → Permᴰ xs ys
    → AllApart xs
    → steps g c xs ≡ steps g c ys
unfolding steps
steps-perm g c Permᴰ.nil h = refl
steps-perm g c (Permᴰ.cons {a} {l₂} e d) h =
    steps-perm g (step g c a) d h.1 ∙ ap (λ z. steps g (step g c z) l₂) e
steps-perm g c (Permᴰ.swap {a} {b} {a'} {l} e e') h =
    ap (λ k. steps g k l) (step_comm g c a b h.0.0)
    ∙ ap (λ z. steps g (step g (step g c z) a) l) e'
    ∙ ap (λ z. steps g (step g (step g c a') z) l) e
steps-perm g c (Permᴰ.trans d d') h = steps-perm g c d h ∙ steps-perm g c d' (AllApart-perm d h)
