-- ===== src/Addr/Decimal.antt =====
-- The verb %d of Go's fmt on an unsigned number, and why two numbers never share a text.
use ikago.Base.{
  ℕ, zero, suc, ◌+◌, ◌-◌, ◌*◌, ◌/◌, ◌%◌, ◌≤◌, ◌<◌, ◌≡◌, refl, sym, ap, ◌∙◌, [], ◌∷◌, ◌++◌, Bytes,
  All, All-append, ltb, if◌then◌else◌, arith,
}

-- The fuel bounds the digits; `decimal` gives one more than the number.
digits : ℕ → ℕ → Bytes
digits zero n = []
digits (suc fuel) n =
    let longer = digits fuel (n / 10) ++ (b'0' + n % 10) ∷ [] in
    if ltb n 10 then (b'0' + n) ∷ [] else longer

unfoldable pub decimal : ℕ → Bytes
unfolding digits
decimal n = digits (suc n) n

abbrev pub IsDigit : ℕ → Type 0
IsDigit c = (b'0' ≤ c) × (c ≤ b'9')

value : ℕ → Bytes → ℕ
value n [] = n
value n (c ∷ s) = value (n * 10 + (c - b'0')) s

value-append : (n : ℕ) (s : Bytes) (c : ℕ) → value n (s ++ c ∷ []) ≡ value n s * 10 + (c - b'0')
unfolding value
value-append n [] c = refl
value-append n (x ∷ s) c = value-append (n * 10 + (x - b'0')) s c

value-single : (m : ℕ) → value 0 ((b'0' + m) ∷ []) ≡ m
unfolding value
value-single m = omega arith

value-digits : (fuel n : ℕ) → n < fuel → value 0 (digits fuel n) ≡ n
unfolding digits
value-digits zero n h = elim h [ ]
value-digits (suc fuel) n h = ground (
  arith,
  value-append 0 (digits fuel (n / 10)) (b'0' + n % 10),
  value-digits fuel (n / 10),
  value-single n,
)

digits-All : (fuel n : ℕ) → All IsDigit (digits fuel n)
unfolding digits
digits-All zero n = tt
digits-All (suc fuel) n = ground (
  arith,
  All-append IsDigit (digits fuel (n / 10)) ((b'0' + n % 10) ∷ []) (digits-All fuel (n / 10)),
)

pub decimal-All : (n : ℕ) → All IsDigit (decimal n)
unfolding decimal
decimal-All n = digits-All (suc n) n

-- A number is read back from its digits.
value-decimal : (n : ℕ) → value 0 (decimal n) ≡ n
unfolding decimal
value-decimal n = value-digits (suc n) n (omega arith)

pub decimal-injective : (m n : ℕ) → decimal m ≡ decimal n → m ≡ n
decimal-injective m n e = sym (value-decimal m) ∙ ap (value 0) e ∙ value-decimal n
