-- ===== src/Crypt/Key.antt =====
-- internal/crypto/key.go: `DeriveKey`.
use ikago.Base.{
  ℕ, zero, suc, ◌+◌, ◌≤◌, ◌<◌, ◌≡◌, sym, ap, ◌∙◌, inl, inr, true, Bytes, [], ◌++◌, append-nil,
  append_assoc, length, take, length-append, length-take, take-take, take-append, Result, ok, err,
  ◌>>=◌, diverges, ltb, Bool-cases, if◌then◌else◌, arith,
}

-- The loop, on fuel. `prev` is the last digest: the last bytes of the key, as many as a digest has.
unfoldable pub key_loop : (Bytes → Bytes) → Bytes → ℕ → ℕ → Bytes → Bytes → Result Bytes
key_loop md5 password size zero key prev = err diverges
key_loop md5 password size (suc fuel) key prev =
    let digest = md5 (prev ++ password) in
    let key_next = key ++ digest in
    let more = key_loop md5 password size fuel key_next digest in
    if ltb (length key) size then more else ok key

-- `DeriveKey`. Every round adds a digest, so the fuel suffices where a digest is not empty.
unfoldable pub derive_key : (Bytes → Bytes) → Bytes → ℕ → Result Bytes
derive_key md5 password size = do
  key ← key_loop md5 password size (suc size) [] []
  ok (take size key)

-- The key grows by digests behind what is there, until it is long enough.
key_loop-grows :
    (md5 : Bytes → Bytes) (password : Bytes) (size fuel : ℕ) (key prev : Bytes)
    → ((b : Bytes) → length (md5 b) ≡ 16)
    → 0 < fuel
    → size < length key + fuel
    → (rest : Bytes) × (key_loop md5 password size fuel key prev ≡ ok (key ++ rest))
      × (size ≤ length (key ++ rest))
unfolding key_loop
key_loop-grows md5 password size zero key prev h h0 hf = absurd (omega arith)
key_loop-grows md5 password size (suc fuel) key prev h h0 hf =
    let digest = md5 (prev ++ password) in
    elim (Bool-cases (ltb (length key) size)) [
      | inl b ↦
          let lt : length key < size = ground arith in
          let longer : length (key ++ digest) ≡ length key + 16 =
            length-append key digest ∙ ap (λ n. length key + n) (h (prev ++ password)) in
          let (rest, e, l) =
            key_loop-grows md5 password size fuel (key ++ digest) digest h (omega arith)
              (omega arith) in
          (
            digest ++ rest,
            rw b (e ∙ ap ok (append_assoc key digest rest)),
            rw (← append_assoc key digest rest) l,
          )
      | inr b ↦ ([], rw (b, append-nil key), rw (append-nil key) (ground arith))
    ]

-- A shorter key is on the way to a longer one.
key_loop-prefix :
    (md5 : Bytes → Bytes) (password : Bytes) (k size short long : ℕ) (key prev : Bytes)
    → ((b : Bytes) → length (md5 b) ≡ 16)
    → k ≤ size
    → 0 < short
    → k < length key + short
    → 0 < long
    → size < length key + long
    → (begin rest : Bytes) × (key_loop md5 password k short key prev ≡ ok begin)
      × (key_loop md5 password size long key prev ≡ ok (begin ++ rest))
      × (k ≤ length begin)
unfolding key_loop
key_loop-prefix md5 password k size zero long key prev h hk s0 hs l0 hl = absurd (omega arith)
key_loop-prefix md5 password k size (suc short) zero key prev h hk s0 hs l0 hl =
    absurd (omega arith)
key_loop-prefix md5 password k size (suc short) (suc long) key prev h hk s0 hs l0 hl =
    let digest = md5 (prev ++ password) in
    elim (Bool-cases (ltb (length key) k)) [
      | inl b ↦
          let lt : length key < k = ground arith in
          let b' : ltb (length key) size ≡ true = ground arith in
          let longer : length (key ++ digest) ≡ length key + 16 =
            length-append key digest ∙ ap (λ n. length key + n) (h (prev ++ password)) in
          let (begin, rest, e, e', l) =
            key_loop-prefix md5 password k size short long (key ++ digest) digest h hk (omega arith)
              (omega arith) (omega arith) (omega arith) in
          (begin, rest, rw b e, rw b' e', l)
      | inr b ↦
          let (rest, e, l) = key_loop-grows md5 password size (suc long) key prev h l0 hl in
          (key, rest, rw b, e, ground arith)
    ]

-- With a digest of 16 bytes, `DeriveKey` ends, its key has the length that was asked for, and a
-- shorter key is the beginning of a longer one.
pub derive_key-prefix :
    (md5 : Bytes → Bytes) (password : Bytes) (k size : ℕ)
    → ((b : Bytes) → length (md5 b) ≡ 16)
    → k ≤ size
    → (key : Bytes) × (derive_key md5 password size ≡ ok key)
      × (length key ≡ size)
      × (derive_key md5 password k ≡ ok (take k key))
unfolding derive_key
derive_key-prefix md5 password k size h hk =
    let (begin, rest, e, e', l) =
      key_loop-prefix md5 password k size (suc k) (suc size) [] [] h hk (omega arith) (omega arith)
        (omega arith) (omega arith) in
    let (whole, q, m) =
      key_loop-grows md5 password size (suc size) [] [] h (omega arith) (omega arith) in
    let same : ◌≡◌ {A = Result Bytes} (ok whole) (ok (begin ++ rest)) = sym q ∙ e' in
    let eq : whole ≡ begin ++ rest = cc in
    (
      take size (begin ++ rest),
      rw e',
      omega (arith, length-take size (begin ++ rest), ap length eq),
      rw e (ap ok (sym (take-take k size (begin ++ rest) hk ∙ take-append k begin rest l))),
    )
