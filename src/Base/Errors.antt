-- ===== src/Base/Errors.antt =====
-- What a Go call returns: a value, an error, or a panic that unwinds the goroutine. The text that
-- `fmt.Errorf` wraps round an error is not modelled, only which check refused.
use mathlib.Core.Path.{◌≡◌, refl}
use mathlib.Core.Option.{Option, none, some}
use Prim.Native.Nat.{ℕ}

-- `diverges` stands for a loop that does not end: the model's fuel ran out.
pub data Error : Type 0 where
  missing_link_layer missing_network_layer missing_transport_layer : Error
  link_layer_type network_layer_type transport_layer_type : Error
  icmpv4_type ip_protocol ethernet_type addr_type : Error
  incomplete_fragments missing_nat pool_empty empty_file : Error
  unauthorized unrecognized missing_nonce method_not_support untracked_node : Error
  timeout diverges : Error
  external : ℕ → Error

pub data Result {ℓ} (T : Type ℓ) : Type ℓ where
  panic : Result T
  err : (reason : Error) → Result T
  ok : (value : T) → Result T

module _ {ℓ κ} {T : Type ℓ} {U : Type κ} where
  infixl 5 ◌>>=◌
  infixl 5 ◌>>◌
  abbrev pub ◌>>=◌ : Result T → (T → Result U) → Result U
  panic >>= next = panic
  err reason >>= next = err reason
  ok value >>= next = next value

  abbrev pub ◌>>◌ : Result T → Result U → Result U
  first >> second = first >>= λ value. second

-- A dereference of a pointer that may be nil.
abbrev pub deref {ℓ} : {T : Type ℓ} → Option T → Result T
deref none = panic
deref (some value) = ok value

-- What the two parts of a call chain returned that ended well.
pub bind-ok {ℓ κ} :
    {T : Type ℓ} {U : Type κ} (first : Result T) (next : T → Result U) {u : U}
    → (first >>= next) ≡ ok u
    → (t : T) × (first ≡ ok t) × (next t ≡ ok u)
bind-ok panic next e = cc
bind-ok (err reason) next e = cc
bind-ok (ok t) next e = (t, refl, e)

pub deref-some {ℓ} :
    {T : Type ℓ} (pointer : Option T) {value : T} → deref pointer ≡ ok value → pointer ≡ some value
deref-some none e = cc
deref-some (some old) {value} e = let same : old ≡ value = cc in rw same
