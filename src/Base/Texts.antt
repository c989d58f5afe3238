-- ===== src/Base/Texts.antt =====
-- Equality of texts, for the keys of maps.
use mathlib.Core.Path.{◌≡◌, refl}
use mathlib.Core.Bool.{Bool, true, false, ◌&&◌}
use mathlib.Core.List.{[], ◌∷◌}
use native.Mathlib.Omega.{arith}
use ikago.Base.Tests.{◌==◌}
use ikago.Base.Lists.{Bytes}

abbrev pub text_eq : Bytes → Bytes → Bool
text_eq [] [] = true
text_eq [] (y ∷ ys) = false
text_eq (x ∷ xs) [] = false
text_eq (x ∷ xs) (y ∷ ys) = (x == y) && text_eq xs ys

pub text_eq_sound : (xs ys : Bytes) → text_eq xs ys ≡ true → xs ≡ ys
text_eq_sound [] [] h = refl
text_eq_sound [] (y ∷ ys) h = cc
text_eq_sound (x ∷ xs) [] h = cc
text_eq_sound (x ∷ xs) (y ∷ ys) h =
    let hx : x ≡ y = ground arith in let hs : xs ≡ ys = text_eq_sound xs ys (ground arith) in cc

pub text_eq_self : (xs : Bytes) → text_eq xs xs ≡ true
text_eq_self [] = refl
text_eq_self (x ∷ xs) = let e = text_eq_self xs in ground arith
