-- ===== src/Crypt.antt =====
-- internal/crypto: the methods that the configuration can choose, each with its nonce in front of
-- the sealed data. The ciphers, the digest and the source of random bytes are parameters.
pub mod Key
pub mod RoundTrip
pub mod Methods
mod Cfb
mod Tests
use ikago.Base.{
  ℕ, ◌+◌, ◌-◌, ◌≤◌, ◌<◌, Bool, true, false, ◌&&◌, Bytes, List, [], ◌∷◌, ◌++◌, length, take, drop,
  replicate, Result, ok, err, panic, ◌>>=◌, missing_nonce, method_not_support, ltb, leb, text_eq,
  if◌then◌else◌,
}
use ikago.Crypt.Key.{derive_key}

-- cipher.AEAD, without additional data: `Seal` and `Open`.
pub record Aead : Type 0 where
  pub nonce_size : ℕ
  pub seal : Bytes → Bytes → Bytes
  pub unseal : Bytes → Bytes → Result Bytes

-- The constructors of the ciphers from a key, and MD5.
pub record Ciphers : Type 0 where
  pub aes_gcm : Bytes → Result Aead
  pub chacha20_poly1305 : Bytes → Result Aead
  pub xchacha20_poly1305 : Bytes → Result Aead
  pub md5 : Bytes → Bytes

pub data Method : Type 0 where
  method_plain method_aes_cfb method_aes_gcm method_chacha20_poly1305 : Method
  method_xchacha20_poly1305 : Method

-- The implementations of `Crypt` that `ParseCrypt` returns.
pub data Crypt : Type 0 where
  plain : Crypt
  aes_gcm_crypt : Aead → Crypt
  chacha20_poly1305_crypt : Aead → Crypt
  xchacha20_poly1305_crypt : Aead → Crypt

-- `GenerateNonce`, from the random source.
abbrev pub Random : Type 0
Random = ℕ → Result Bytes

unfoldable pub generate_nonce : Random → ℕ → Result Bytes
generate_nonce random size = random size

-- What the three AEAD implementations of `Encrypt` do, and of `Decrypt`.
unfoldable pub aead_encrypt : Random → Aead → Bytes → Result Bytes
unfolding generate_nonce
aead_encrypt random aead body = do
  nonce ← generate_nonce random aead.nonce_size
  ok (nonce ++ aead.seal nonce body)

unfoldable pub aead_decrypt : Aead → Bytes → Result Bytes
aead_decrypt aead body =
    let nonce = take aead.nonce_size body in
    if ltb (length body) aead.nonce_size
    then err missing_nonce
    else aead.unseal nonce (drop aead.nonce_size body)

-- `Encrypt`, `Decrypt`, `Method` and `Cost` of each implementation.
unfoldable pub encrypt : Random → Crypt → Bytes → Result Bytes
unfolding aead_encrypt
encrypt random Crypt.plain body = ok body
encrypt random (Crypt.aes_gcm_crypt aead) body = aead_encrypt random aead body
encrypt random (Crypt.chacha20_poly1305_crypt aead) body = aead_encrypt random aead body
encrypt random (Crypt.xchacha20_poly1305_crypt aead) body = aead_encrypt random aead body

unfoldable pub decrypt : Crypt → Bytes → Result Bytes
unfolding aead_decrypt
decrypt Crypt.plain body = ok body
decrypt (Crypt.aes_gcm_crypt aead) body = aead_decrypt aead body
decrypt (Crypt.chacha20_poly1305_crypt aead) body = aead_decrypt aead body
decrypt (Crypt.xchacha20_poly1305_crypt aead) body = aead_decrypt aead body

unfoldable pub method : Crypt → Method
method Crypt.plain = Method.method_plain
method (Crypt.aes_gcm_crypt aead) = Method.method_aes_gcm
method (Crypt.chacha20_poly1305_crypt aead) = Method.method_chacha20_poly1305
method (Crypt.xchacha20_poly1305_crypt aead) = Method.method_xchacha20_poly1305

-- The size of the tag of all three is 16.
unfoldable pub cost : Crypt → ℕ
cost Crypt.plain = 0
cost (Crypt.aes_gcm_crypt aead) = aead.nonce_size + 16
cost (Crypt.chacha20_poly1305_crypt aead) = aead.nonce_size + 16
cost (Crypt.xchacha20_poly1305_crypt aead) = aead.nonce_size + 16

-- `strings.ToLower` on the letters of ASCII.
unfoldable pub to_lower : Bytes → Bytes
to_lower [] = []
to_lower (c ∷ cs) = (if leb b'A' c && leb c b'Z' then c + 32 else c) ∷ to_lower cs

-- The names of the methods.
abbrev pub plain_name : Bytes
plain_name = b'p' ∷ b'l' ∷ b'a' ∷ b'i' ∷ b'n' ∷ []

abbrev pub aes_128_gcm_name : Bytes
aes_128_gcm_name = b'a' ∷ b'e' ∷ b's' ∷ b'-' ∷ b'1' ∷ b'2' ∷ b'8' ∷ b'-' ∷ b'g' ∷ b'c' ∷ b'm' ∷ []

abbrev pub aes_192_gcm_name : Bytes
aes_192_gcm_name = b'a' ∷ b'e' ∷ b's' ∷ b'-' ∷ b'1' ∷ b'9' ∷ b'2' ∷ b'-' ∷ b'g' ∷ b'c' ∷ b'm' ∷ []

abbrev pub aes_256_gcm_name : Bytes
aes_256_gcm_name = b'a' ∷ b'e' ∷ b's' ∷ b'-' ∷ b'2' ∷ b'5' ∷ b'6' ∷ b'-' ∷ b'g' ∷ b'c' ∷ b'm' ∷ []

abbrev pub chacha20_poly1305_name : Bytes
chacha20_poly1305_name =
    b'c' ∷ b'h' ∷ b'a' ∷ b'c' ∷ b'h' ∷ b'a' ∷ b'2' ∷ b'0' ∷ b'-' ∷ b'p' ∷ b'o' ∷ b'l' ∷ b'y' ∷ b'1'
    ∷ b'3' ∷ b'0' ∷ b'5' ∷ []

abbrev pub xchacha20_poly1305_name : Bytes
xchacha20_poly1305_name =
    b'x' ∷ b'c' ∷ b'h' ∷ b'a' ∷ b'c' ∷ b'h' ∷ b'a' ∷ b'2' ∷ b'0' ∷ b'-' ∷ b'p' ∷ b'o' ∷ b'l' ∷ b'y'
    ∷ b'1' ∷ b'3' ∷ b'0' ∷ b'5' ∷ []

crypt_of : Ciphers → Bytes → Bytes → Result Crypt
crypt_of c name password =
    if text_eq name plain_name
    then ok Crypt.plain
    else if text_eq name aes_128_gcm_name
    then (do key ← derive_key c.md5 password 16; a ← c.aes_gcm key; ok (Crypt.aes_gcm_crypt a))
    else if text_eq name aes_192_gcm_name
    then (do key ← derive_key c.md5 password 24; a ← c.aes_gcm key; ok (Crypt.aes_gcm_crypt a))
    else if text_eq name aes_256_gcm_name
    then (do key ← derive_key c.md5 password 32; a ← c.aes_gcm key; ok (Crypt.aes_gcm_crypt a))
    else if text_eq name chacha20_poly1305_name
    then (do
      key ← derive_key c.md5 password 32
      a ← c.chacha20_poly1305 key
      ok (Crypt.chacha20_poly1305_crypt a))
    else if text_eq name xchacha20_poly1305_name
    then (do
      key ← derive_key c.md5 password 32
      a ← c.xchacha20_poly1305 key
      ok (Crypt.xchacha20_poly1305_crypt a))
    else err method_not_support

-- `ParseCrypt`.
unfoldable pub parse_crypt : Ciphers → Bytes → Bytes → Result Crypt
unfolding to_lower crypt_of
parse_crypt c name password = crypt_of c (to_lower name) password
