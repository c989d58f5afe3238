-- ===== src/Crypt/Methods.antt =====
-- `ParseCrypt` of internal/crypto: which cipher, with a key of which size, a method's name stands for.
use ikago.Base.{ℕ, ◌≡◌, sym, ◌∙◌, Bytes, length, bind-ok, Result, ok, ◌>>=◌, arith}
use ikago.Crypt.Key.{derive_key, derive_key-prefix}
use ikago.Crypt.{
  Aead, Ciphers, Crypt, plain_name, aes_128_gcm_name, aes_192_gcm_name, aes_256_gcm_name,
  chacha20_poly1305_name, xchacha20_poly1305_name,
}

-- A key of `size` bytes that is derived from the password.
pub record Key (c : Ciphers) (password : Bytes) (size : ℕ) (key : Bytes) : Type 0 where
  pub derived : derive_key c.md5 password size ≡ ok key
  pub size_of : length key ≡ size

-- The methods, by their names in small letters.
pub data Named (c : Ciphers) (password : Bytes) : Bytes → Crypt → Type 0 where
  plain : Named c password plain_name Crypt.plain
  aes_128_gcm :
      (key : Bytes) (a : Aead)
      → Key c password 16 key
      → c.aes_gcm key ≡ ok a
      → Named c password aes_128_gcm_name (Crypt.aes_gcm_crypt a)
  aes_192_gcm :
      (key : Bytes) (a : Aead)
      → Key c password 24 key
      → c.aes_gcm key ≡ ok a
      → Named c password aes_192_gcm_name (Crypt.aes_gcm_crypt a)
  aes_256_gcm :
      (key : Bytes) (a : Aead)
      → Key c password 32 key
      → c.aes_gcm key ≡ ok a
      → Named c password aes_256_gcm_name (Crypt.aes_gcm_crypt a)
  chacha20_poly1305 :
      (key : Bytes) (a : Aead)
      → Key c password 32 key
      → c.chacha20_poly1305 key ≡ ok a
      → Named c password chacha20_poly1305_name (Crypt.chacha20_poly1305_crypt a)
  xchacha20_poly1305 :
      (key : Bytes) (a : Aead)
      → Key c password 32 key
      → c.xchacha20_poly1305 key ≡ ok a
      → Named c password xchacha20_poly1305_name (Crypt.xchacha20_poly1305_crypt a)

module _ (c : Ciphers) (password : Bytes) (digest : (b : Bytes) → length (c.md5 b) ≡ 16) where
  derive_key-Key :
      (size : ℕ) (key : Bytes) → derive_key c.md5 password size ≡ ok key → Key c password size key
  derive_key-Key size key h =
      let (whole, made, long, again) =
        derive_key-prefix c.md5 password size size digest (omega arith) in
      let same : whole ≡ key = (let f : ok whole ≡ ok key = sym made ∙ h in cc) in
      record { derived = h; size_of = rw (← same) long }

  -- A method that derives a key of `size` bytes and makes its cipher from it.
  made :
      (name : Bytes) (size : ℕ) (make : Bytes → Result Aead) (wrap : Aead → Crypt) (k : Crypt)
      → ((key : Bytes) (a : Aead)
          → Key c password size key
          → make key ≡ ok a
          → Named c password name (wrap a))
      → (do key ← derive_key c.md5 password size; a ← make key; ok (wrap a)) ≡ ok k
      → Named c password name k
  made name size make wrap k named h =
      let (key, hk, h1) = bind-ok (derive_key c.md5 password size) _ h in
      let (a, ha, h2) = bind-ok (make key) _ h1 in
      let same : wrap a ≡ k = cc in rw (← same) (named key a (derive_key-Key size key hk) ha)
