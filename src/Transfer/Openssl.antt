-- ===== src/Transfer/Openssl.antt =====
-- What libtetrissh/common.c uses of OpenSSL: an interface, with the laws its manual gives.
use corestack_peky.Common.{ℕ, ◌+◌, List, Option, some, Bool, true, ◌≡◌, ◌≤◌, ◌<◌, length}

pub data Padding : Type 0 where
  oaep pkcs1 : Padding

-- A call that fails answers `none`. The random number generator's outcomes are arguments of the code
-- that asks for them.
pub record Openssl : Type 1 where
  pub PrivateKey : Type 0
  pub PublicKey : Type 0
  pub Certificate : Type 0
  -- HMAC(EVP_sha256(), key, data)
  pub hmac : List ℕ → List ℕ → Option (List ℕ)
  -- EVP_EncryptInit_ex with EVP_aes_128_cbc(), EVP_EncryptUpdate, EVP_EncryptFinal_ex: key, IV, data
  pub encrypt_cbc : List ℕ → List ℕ → List ℕ → Option (List ℕ)
  pub decrypt_cbc : List ℕ → List ℕ → List ℕ → Option (List ℕ)
  -- EVP_PKEY_encrypt and EVP_PKEY_decrypt in a context with the padding set
  pub pkey_encrypt : PublicKey → Padding → List ℕ → Option (List ℕ)
  pub pkey_decrypt : PrivateKey → Padding → List ℕ → Option (List ℕ)
  -- EVP_DigestSign… and EVP_DigestVerify… with PSS padding: the message; the signature, the message
  pub digest_sign : PrivateKey → List ℕ → Option (List ℕ)
  pub digest_verify : PublicKey → List ℕ → List ℕ → Bool
  -- PEM_read_PrivateKey, PEM_read_X509 on the bytes of a file, X509_get_pubkey
  pub read_private_key : List ℕ → Option PrivateKey
  pub read_certificate : List ℕ → Option Certificate
  pub get_pubkey : Certificate → Option PublicKey
  -- X509_verify_cert of a certificate, with the first one as the only trusted one
  pub verify_cert : Certificate → Certificate → Bool

-- The two keys of a pair belong together.
pub record IsPair (O : Openssl) (priv : O.PrivateKey) (pub_key : O.PublicKey) : Type 0 where
  pub block_length :
      (p : Padding) (m c : List ℕ) → O.pkey_encrypt pub_key p m ≡ some c → length c ≡ 128
  pub decrypts :
      (p : Padding) (m c : List ℕ)
      → O.pkey_encrypt pub_key p m ≡ some c
      → O.pkey_decrypt priv p c ≡ some m
  pub verifies :
      (m sig : List ℕ) → O.digest_sign priv m ≡ some sig → O.digest_verify pub_key sig m ≡ true

pub record IsLawful (O : Openssl) : Type 0 where
  pub tag_length : (key m tag : List ℕ) → O.hmac key m ≡ some tag → length tag ≡ 32
  pub padded :
      (key iv m c : List ℕ)
      → O.encrypt_cbc key iv m ≡ some c
      → (length m < length c) × (16 ≤ length c)
  pub padded_most :
      (key iv m c : List ℕ) → O.encrypt_cbc key iv m ≡ some c → length c ≤ length m + 16
  pub decrypts_cbc :
      (key iv m c : List ℕ) → O.encrypt_cbc key iv m ≡ some c → O.decrypt_cbc key iv c ≡ some m
