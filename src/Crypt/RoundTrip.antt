-- ===== src/Crypt/RoundTrip.antt =====
-- What `Decrypt` makes of what `Encrypt` made.
use ikago.Base.{
  ℕ, ◌+◌, ◌≡◌, sym, ap, ◌∙◌, false, Bytes, ◌++◌, length, take, drop, length-append, take-append,
  take-all, drop-append, bind-ok, ok, ltb, arith,
}
use ikago.Crypt.{
  Aead, Ciphers, Crypt, Random, aead_encrypt, aead_decrypt, generate_nonce, encrypt, decrypt, cost,
}

-- A cipher opens what it sealed under a nonce of its size, and its tag has 16 bytes.
pub record OpensSealed (aead : Aead) : Type 0 where
  pub opens :
      (nonce body : Bytes)
      → length nonce ≡ aead.nonce_size
      → aead.unseal nonce (aead.seal nonce body) ≡ ok body
  pub tag : (nonce body : Bytes) → length (aead.seal nonce body) ≡ length body + 16

abbrev pub IsSealing : Crypt → Type 0
IsSealing Crypt.plain = Unit
IsSealing (Crypt.aes_gcm_crypt aead) = OpensSealed aead
IsSealing (Crypt.chacha20_poly1305_crypt aead) = OpensSealed aead
IsSealing (Crypt.xchacha20_poly1305_crypt aead) = OpensSealed aead

-- The random source fills what it is given, or fails.
abbrev pub FillsAll : Random → Type 0
FillsAll random = (n : ℕ) (b : Bytes) → random n ≡ ok b → length b ≡ n

parts :
    (size : ℕ) (nonce sealed : Bytes)
    → length nonce ≡ size
    → (take size (nonce ++ sealed) ≡ nonce) × (drop size (nonce ++ sealed) ≡ sealed)
parts size nonce sealed h = (
  take-append size nonce sealed (omega arith) ∙ take-all size nonce (omega arith),
  ap (λ n. drop n (nonce ++ sealed)) (sym h) ∙ drop-append nonce sealed,
)

aead_round :
    (random : Random) (aead : Aead) (body e : Bytes)
    → FillsAll random
    → OpensSealed aead
    → aead_encrypt random aead body ≡ ok e
    → (aead_decrypt aead e ≡ ok body) × (length e ≡ length body + (aead.nonce_size + 16))
unfolding aead_encrypt aead_decrypt generate_nonce
aead_round random aead body e hr hs h =
    let (nonce, hn, he) = bind-ok (random aead.nonce_size) _ h in
    let same : e ≡ nonce ++ aead.seal nonce body = cc in
    let filled = hr aead.nonce_size nonce hn in
    let long : length (nonce ++ aead.seal nonce body) ≡ length body + (aead.nonce_size + 16) =
      omega (arith, length-append nonce (aead.seal nonce body), hs.tag nonce body) in
    let enough : ltb (length (nonce ++ aead.seal nonce body)) aead.nonce_size ≡ false =
      ground arith in
    let (t, d) = parts aead.nonce_size nonce (aead.seal nonce body) filled in
    rw same (rw (enough, t, d) (hs.opens nonce body filled), long)

-- With a random source that fills its buffers and ciphers that open what they sealed, `Decrypt`
-- takes what `Encrypt` made back to the data, and what `Encrypt` made is longer by `Cost`.
pub decrypt-encrypt :
    (random : Random) (c : Crypt) (body e : Bytes)
    → FillsAll random
    → IsSealing c
    → encrypt random c body ≡ ok e
    → (decrypt c e ≡ ok body) × (length e ≡ length body + cost c)
unfolding encrypt decrypt cost
decrypt-encrypt random Crypt.plain body e hr hs h =
    let same : body ≡ e = cc in (rw same, omega (arith, ap length same))
decrypt-encrypt random (Crypt.aes_gcm_crypt aead) body e hr hs h =
    aead_round random aead body e hr hs h
decrypt-encrypt random (Crypt.chacha20_poly1305_crypt aead) body e hr hs h =
    aead_round random aead body e hr hs h
decrypt-encrypt random (Crypt.xchacha20_poly1305_crypt aead) body e hr hs h =
    aead_round random aead body e hr hs h

-- The constructors of the ciphers make ciphers that open what they sealed.
pub record Lawful (c : Ciphers) : Type 0 where
  pub gcm : (key : Bytes) (a : Aead) → c.aes_gcm key ≡ ok a → OpensSealed a
  pub chacha : (key : Bytes) (a : Aead) → c.chacha20_poly1305 key ≡ ok a → OpensSealed a
  pub xchacha : (key : Bytes) (a : Aead) → c.xchacha20_poly1305 key ≡ ok a → OpensSealed a
