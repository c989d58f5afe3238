-- ===== src/Calls.antt =====
-- Operations on a state, as the handlers of the two programs are: a Go function that changes
-- variables of its package, and may return an error or panic on its way.
pub mod Keeping
use ikago.Base.{Result, ok, err, panic}

-- A part of an operation on a state `S`: what it returns, and the state behind it, since what was
-- changed stays changed when an error or a panic ends the operation.
abbrev pub Act {σ ℓ} : Type σ → Type ℓ → Type (σ ⊔ ℓ)
Act S A = S → Result A × S

module _ {σ ℓ} {S : Type σ} {A : Type ℓ} where
  abbrev pub pure : A → Act S A
  pure a s = (ok a, s)

  -- A part that changes nothing.
  abbrev pub lift : Result A → Act S A
  lift r s = (r, s)

  abbrev pub reads : (S → A) → Act S A
  reads f s = (ok (f s), s)

abbrev pub modify {σ} : {S : Type σ} → (S → S) → Act S (Unit {0})
modify f s = (ok tt, f s)

module _ {σ ℓ κ} {S : Type σ} {A : Type ℓ} {B : Type κ} where
  abbrev pub go_on : (A → Act S B) → Result A × S → Result B × S
  go_on next (ok a, s) = next a s
  go_on next (err e, s) = (err e, s)
  go_on next (panic, s) = (panic, s)

  infixl 5 ◌>>=◌
  infixl 5 ◌>>◌
  abbrev pub ◌>>=◌ : Act S A → (A → Act S B) → Act S B
  ◌>>=◌ first next s = go_on next (first s)

  abbrev pub ◌>>◌ : Act S A → Act S B → Act S B
  first >> second = first >>= λ value. second
