-- ===== src/Server/Keys.antt =====
-- Go maps whose keys are structs, as lists of keys and values, for every type of keys whose
-- equality is decided by `eq`.
use ikago.Base.{
  ℕ, zero, suc, ◌≡◌, refl, sym, ap, ◌∙◌, Bool, true, false, List, [], ◌∷◌, Option, none, some, inl,
  inr, ◌==◌, if◌then◌else◌, Bool-cases, arith,
}
use ikago.Gopacket.{LayerType}

-- Go's `==` on a type of keys.
pub record Key {ℓ} (K : Type ℓ) : Type ℓ where
  pub eq : K → K → Bool
  pub sound : (a b : K) → eq a b ≡ true → a ≡ b
  pub self : (a : K) → eq a a ≡ true

module _ {ℓ κ} {K : Type ℓ} {V : Type κ} ⦃key : Key K⦄ where
  unfoldable pub find : K → List (K × V) → Option V
  find k [] = none
  find k ((j, v) ∷ rest) = if key.eq k j then some v else find k rest

  unfoldable pub put : K → V → List (K × V) → List (K × V)
  put k v [] = (k, v) ∷ []
  put k v ((j, old) ∷ rest) = if key.eq k j then (k, v) ∷ rest else (j, old) ∷ put k v rest

  pub find-put_self : (k : K) (v : V) (m : List (K × V)) → find k (put k v m) ≡ some v
  unfolding find put
  find-put_self k v [] = rw (key.self k)
  find-put_self k v ((j, old) ∷ rest) = elim (Bool-cases (key.eq k j)) [
    | inl e ↦ rw (e, key.self k)
    | inr e ↦ rw (e, e) (find-put_self k v rest)
  ]

  pub find-put_ne :
      (k other : K) (v : V) (m : List (K × V))
      → key.eq other k ≡ false
      → find other (put k v m) ≡ find other m
  unfolding find put
  find-put_ne k other v [] h = rw h
  find-put_ne k other v ((j, old) ∷ rest) h = elim (Bool-cases (key.eq k j)) [
    | inl e ↦ let apart : key.eq other j ≡ false = rw (← key.sound k j e) h in rw (e, h, apart)
    | inr e ↦ elim (Bool-cases (key.eq other j)) [
      | inl f ↦ rw (e, f)
      | inr f ↦ rw (e, f) (find-put_ne k other v rest h)
    ]
  ]

  -- Every entry that the map gives back satisfies `P`.
  abbrev pub Entries {μ} : (K → V → Type μ) → List (K × V) → Type (ℓ ⊔ κ ⊔ μ)
  Entries P m = (k : K) (v : V) → find k m ≡ some v → P k v

  pub Entries-put {μ} :
      (P : K → V → Type μ) (k : K) (v : V) (m : List (K × V))
      → P k v
      → Entries P m
      → Entries P (put k v m)
  Entries-put P k v m here all other w e = elim (Bool-cases (key.eq other k)) [
    | inl f ↦
        let same : other ≡ k = key.sound other k f in
        let e' : some w ≡ some v =
          sym e ∙ ap (λ x. find x (put k v m)) same ∙ find-put_self k v m in
        let w_v : w ≡ v = cc in rw (same, w_v) here
    | inr f ↦ all other w (sym (find-put_ne k other v m f) ∙ e)
  ]

-- The numbers that the layer types have here: the place in a list, and the others behind it.
abbrev plain : List LayerType
plain =
    LayerType.loopback ∷ LayerType.ethernet ∷ LayerType.arp ∷ LayerType.ipv4 ∷ LayerType.ipv6
    ∷ LayerType.tcp ∷ LayerType.udp ∷ LayerType.icmpv4 ∷ LayerType.dns ∷ LayerType.fragment
    ∷ LayerType.payload ∷ LayerType.zero ∷ []

behind : List LayerType → ℕ → ℕ
behind [] n = n
behind (t ∷ ts) n = suc (behind ts n)

number : LayerType → ℕ
unfolding behind
number LayerType.loopback = 0
number LayerType.ethernet = 1
number LayerType.arp = 2
number LayerType.ipv4 = 3
number LayerType.ipv6 = 4
number LayerType.tcp = 5
number LayerType.udp = 6
number LayerType.icmpv4 = 7
number LayerType.dns = 8
number LayerType.fragment = 9
number LayerType.payload = 10
number LayerType.zero = 11
number (LayerType.other n) = behind plain n

numbered_from : List LayerType → ℕ → LayerType
numbered_from [] n = LayerType.other n
numbered_from (t ∷ ts) zero = t
numbered_from (t ∷ ts) (suc n) = numbered_from ts n

numbered : ℕ → LayerType
unfolding numbered_from
numbered n = numbered_from plain n

numbered-number : (t : LayerType) → numbered (number t) ≡ t
unfolding number numbered
numbered-number LayerType.loopback = refl
numbered-number LayerType.ethernet = refl
numbered-number LayerType.arp = refl
numbered-number LayerType.ipv4 = refl
numbered-number LayerType.ipv6 = refl
numbered-number LayerType.tcp = refl
numbered-number LayerType.udp = refl
numbered-number LayerType.icmpv4 = refl
numbered-number LayerType.dns = refl
numbered-number LayerType.fragment = refl
numbered-number LayerType.payload = refl
numbered-number LayerType.zero = refl
numbered-number (LayerType.other n) = refl

unfoldable pub type_eq : LayerType → LayerType → Bool
unfolding number
type_eq a b = number a == number b

pub type_eq_sound : (a b : LayerType) → type_eq a b ≡ true → a ≡ b
unfolding type_eq
type_eq_sound a b h =
    let same : number a ≡ number b = ground arith in
    sym (numbered-number a) ∙ ap numbered same ∙ numbered-number b

pub type_eq_self : (a : LayerType) → type_eq a a ≡ true
unfolding type_eq
type_eq_self a = ground arith

instance abbrev pub type_key : Key LayerType
type_key = record { eq = type_eq; sound = type_eq_sound; self = type_eq_self }
