-- ===== src/Crypt/Cfb.antt =====
-- `AESCFBCrypt` of internal/crypto/aes.go, which `ParseCrypt` does not return. A cipher.Stream is a
-- register and the bytes that it makes of a source.
use ikago.Base.{Bytes, length, replicate}

pub record Stream : Type 0 where
  pub register : Bytes
  pub xor_key_stream : Bytes → Bytes → Bytes × Bytes

-- What a call leaves: its result, the data that it was given, and the stream.
pub record Encrypted : Type 0 where
  pub result : Bytes
  pub given : Bytes
  pub stream : Stream

-- `Encrypt` and `Decrypt`, each on its own stream. `XORKeyStream(data, result)` reads its second
-- argument, the new slice, and writes its first, the data of the caller.
unfoldable pub cfb_encrypt : Stream → Bytes → Encrypted
cfb_encrypt s body =
    let result = replicate (length body) 0 in
    let (out, register) = s.xor_key_stream s.register result in
    record { result = result; given = out; stream = record s { register = register } }

-- `EncryptInPlace` and `DecryptInPlace`: the result is copied over the data.
unfoldable pub cfb_encrypt_in_place : Stream → Bytes → Bytes
unfolding cfb_encrypt
cfb_encrypt_in_place s body = (cfb_encrypt s body).result
