-- ===== src/Crypt/Tests.antt =====
-- A cipher that seals with a tag of zeros, a digest of zeros, and a source of zeros.
use ikago.Base.{
  ℕ, ◌+◌, ◌-◌, ◌≡◌, refl, ap, ◌∙◌, Bytes, [], ◌∷◌, ◌++◌, length, take, replicate, length-append,
  length-replicate, take-append, take-all, ok, arith,
}
use ikago.Crypt.{Aead, Ciphers, Crypt, Random, encrypt, decrypt, cost}
use ikago.Crypt.Key.{derive_key, derive_key-prefix}
use ikago.Crypt.RoundTrip.{OpensSealed, FillsAll, decrypt-encrypt}
use ikago.Crypt.Cfb.{Stream, cfb_encrypt_in_place}

abbrev zeros : Random
zeros n = ok (replicate n 0)

zeros-FillsAll : FillsAll zeros
zeros-FillsAll n b h = let same : replicate n 0 ≡ b = cc in rw (← same) (length-replicate n 0)

abbrev open_aead : Aead
open_aead = record {
  nonce_size = 12;
  seal = λ nonce body. body ++ replicate 16 0;
  unseal = λ nonce sealed. ok (take (length sealed - 16) sealed);
}

open_aead-OpensSealed : OpensSealed open_aead
open_aead-OpensSealed = record {
  opens = λ nonce body h. ap ok (
      take-append (length (body ++ replicate 16 0) - 16) body (replicate 16 0)
        (omega (arith, length-append body (replicate 16 0)))
      ∙ take-all (length (body ++ replicate 16 0) - 16) body
          (omega (arith, length-append body (replicate 16 0))));
  tag = λ nonce body. length-append body (replicate 16 0);
}

abbrev zero_md5 : Bytes → Bytes
zero_md5 b = replicate 16 0

abbrev open_ciphers : Ciphers
open_ciphers = record {
  aes_gcm = λ key. ok open_aead;
  chacha20_poly1305 = λ key. ok open_aead;
  xchacha20_poly1305 = λ key. ok open_aead;
  md5 = zero_md5;
}

sealed_two :
    encrypt zeros (Crypt.aes_gcm_crypt open_aead) (7 ∷ 8 ∷ [])
    ≡ ok (replicate 12 0 ++ 7 ∷ 8 ∷ replicate 16 0)
unfolding encrypt
sealed_two = refl

decrypt-encrypt_example :
    (decrypt (Crypt.aes_gcm_crypt open_aead) (replicate 12 0 ++ 7 ∷ 8 ∷ replicate 16 0)
      ≡ ok (7 ∷ 8 ∷ []))
    × (length {A = ℕ} (replicate 12 0 ++ 7 ∷ 8 ∷ replicate 16 0)
        ≡ 2 + cost (Crypt.aes_gcm_crypt open_aead))
decrypt-encrypt_example =
    decrypt-encrypt zeros (Crypt.aes_gcm_crypt open_aead) (7 ∷ 8 ∷ [])
      (replicate 12 0 ++ 7 ∷ 8 ∷ replicate 16 0) zeros-FillsAll open_aead-OpensSealed sealed_two

-- The name in capital letters.
abbrev capitals : Bytes
capitals = b'A' ∷ b'E' ∷ b'S' ∷ b'-' ∷ b'1' ∷ b'2' ∷ b'8' ∷ b'-' ∷ b'G' ∷ b'C' ∷ b'M' ∷ []

derive_key-prefix_example :
    (key : Bytes) × (derive_key zero_md5 (1 ∷ []) 32 ≡ ok key)
    × (length key ≡ 32)
    × (derive_key zero_md5 (1 ∷ []) 16 ≡ ok (take 16 key))
derive_key-prefix_example = derive_key-prefix zero_md5 (1 ∷ []) 16 32 (λ b. refl) (omega arith)

-- What AES-CFB encrypts in place becomes zeros.
abbrev flat_stream : Stream
flat_stream = record { register = []; xor_key_stream = λ r b. (b, r) }

zeros_in_place : cfb_encrypt_in_place flat_stream (1 ∷ 2 ∷ []) ≡ 0 ∷ 0 ∷ []
unfolding cfb_encrypt_in_place
zeros_in_place = refl
