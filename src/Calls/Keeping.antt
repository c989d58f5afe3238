-- ===== src/Calls/Keeping.antt =====
-- How the parts of an operation compose: what each returned when the whole ended well, and what all
-- of them keep, however it ends.
use ikago.Base.{◌≡◌, refl, ap, Result, ok, err, panic}
use ikago.Calls.{Act, go_on, lift, ◌>>=◌}

-- A part of an operation that keeps `P`, whether it ends well, with an error or with a panic.
abbrev pub Keeps {σ ℓ κ} : {S : Type σ} {A : Type ℓ} → (S → Type κ) → Act S A → Type (σ ⊔ κ)
Keeps {S} P m = (s : S) → P s → P (m s).1

pub Keeps-to {σ ℓ κ} :
    {S : Type σ} {A : Type ℓ} {P : S → Type κ} {s t : S} {r : Result A} (m : Act S A)
    → Keeps P m
    → m s ≡ (r, t)
    → P s
    → P t
Keeps-to {s} m h e p = rw (← ap (λ x. x.1) e) (h s p)

module _ {σ ℓ κ} {S : Type σ} {A : Type ℓ} {B : Type κ} where
  pub act-ok :
      (first : Act S A) (next : A → Act S B) (s : S) {b : B} {t : S}
      → (first >>= next) s ≡ (ok b, t)
      → (a : A) × (mid : S) × (first s ≡ (ok a, mid)) × (next a mid ≡ (ok b, t))
  act-ok first next s {b} {t} e = by_end (first s) refl e
    where
      by_end :
          (r : Result A × S)
          → first s ≡ r
          → go_on next r ≡ (ok b, t)
          → (a : A) × (mid : S) × (first s ≡ (ok a, mid)) × (next a mid ≡ (ok b, t))
      by_end (ok a, mid) h e = (a, mid, h, e)
      by_end (err x, mid) h e = let f : err x ≡ ok b = ap (λ y. y.0) e in cc
      by_end (panic, mid) h e = let f : panic ≡ ok b = ap (λ y. y.0) e in cc

  pub lift-ok :
      (r : Result A) (next : A → Act S B) (s : S) {b : B} {t : S}
      → (lift r >>= next) s ≡ (ok b, t)
      → (a : A) × (r ≡ ok a) × (next a s ≡ (ok b, t))
  lift-ok (ok a) next s e = (a, refl, e)
  lift-ok (err x) next s {b} e = let f : err x ≡ ok b = ap (λ y. y.0) e in cc
  lift-ok panic next s {b} e = let f : panic ≡ ok b = ap (λ y. y.0) e in cc

  -- What holds behind both parts, when the second is only looked at where the first ended well.
  pub then_holds {μ} :
      (P : S → Type μ) (first : Act S A) (next : A → Act S B) (s : S)
      → P (first s).1
      → ((a : A) (mid : S) → first s ≡ (ok a, mid) → P mid → P (next a mid).1)
      → P ((first >>= next) s).1
  then_holds P first next s p h = by_end (first s) refl p
    where
      by_end : (r : Result A × S) → first s ≡ r → P r.1 → P (go_on next r).1
      by_end (ok a, mid) e q = h a mid e q
      by_end (err x, mid) e q = q
      by_end (panic, mid) e q = q

  pub Keeps-bind {μ} :
      {P : S → Type μ} (first : Act S A) (next : A → Act S B)
      → Keeps P first
      → ((a : A) → Keeps P (next a))
      → Keeps P (first >>= next)
  Keeps-bind {P} first next hf hn s p = then_holds P first next s (hf s p) (λ a mid e q. hn a mid q)

  pub lift_holds {μ} :
      (P : S → Type μ) (r : Result A) (next : A → Act S B) (s : S)
      → P s
      → ((a : A) → r ≡ ok a → P (next a s).1)
      → P ((lift r >>= next) s).1
  lift_holds P (ok a) next s p h = h a refl
  lift_holds P (err x) next s p h = p
  lift_holds P panic next s p h = p

  pub Keeps-lift {μ} :
      {P : S → Type μ} (r : Result A) (next : A → Act S B)
      → ((a : A) → Keeps P (next a))
      → Keeps P (lift r >>= next)
  Keeps-lift {P} r next hn s p = lift_holds P r next s p (λ a _. hn a s p)

  -- The second part is only looked at where the first ended well.
  pub Keeps-lift_ok {μ} :
      {P : S → Type μ} (r : Result A) (next : A → Act S B)
      → ((a : A) → r ≡ ok a → Keeps P (next a))
      → Keeps P (lift r >>= next)
  Keeps-lift_ok {P} r next hn s p = lift_holds P r next s p (λ a e. hn a e s p)
