-- ===== src/Base/Maps.antt =====
-- A Go map with texts for keys, as a list of keys and values.
use mathlib.Core.Path.{◌≡◌}
use mathlib.Core.Logic.{inl, inr}
use mathlib.Core.Bool.{false}
use mathlib.Core.List.{List, [], ◌∷◌}
use mathlib.Core.Option.{Option, none, some}
use ikago.Base.Tests.{if◌then◌else◌, Bool-cases}
use ikago.Base.Lists.{Bytes}
use ikago.Base.Texts.{text_eq, text_eq_sound, text_eq_self}

module _ {ℓ} {V : Type ℓ} where
  abbrev pub lookup : Bytes → List (Bytes × V) → Option V
  lookup key [] = none
  lookup key ((k, v) ∷ rest) = if text_eq key k then some v else lookup key rest

  abbrev pub store : Bytes → V → List (Bytes × V) → List (Bytes × V)
  store key v [] = (key, v) ∷ []
  store key v ((k, old) ∷ rest) =
      if text_eq key k then (key, v) ∷ rest else (k, old) ∷ store key v rest

module _ {ℓ} {V : Type ℓ} where
  pub lookup-store_self :
      (key : Bytes) (v : V) (m : List (Bytes × V)) → lookup key (store key v m) ≡ some v
  lookup-store_self key v [] = rw (text_eq_self key)
  lookup-store_self key v ((k, old) ∷ rest) = elim (Bool-cases (text_eq key k)) [
    | inl e ↦ rw (e, text_eq_self key)
    | inr e ↦ rw (e, e) (lookup-store_self key v rest)
  ]

  pub lookup-store_ne :
      (key other : Bytes) (v : V) (m : List (Bytes × V))
      → text_eq other key ≡ false
      → lookup other (store key v m) ≡ lookup other m
  lookup-store_ne key other v [] h = rw h
  lookup-store_ne key other v ((k, old) ∷ rest) h = elim (Bool-cases (text_eq key k)) [
    | inl e ↦
        let apart : text_eq other k ≡ false = rw (← text_eq_sound key k e) h in rw (e, h, apart)
    | inr e ↦ elim (Bool-cases (text_eq other k)) [
      | inl f ↦ rw (e, f)
      | inr f ↦ rw (e, f) (lookup-store_ne key other v rest h)
    ]
  ]
