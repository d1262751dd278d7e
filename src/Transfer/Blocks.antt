-- ===== src/Transfer/Blocks.antt =====
-- RSA on single blocks (rsa_encrypt_block, rsa_decrypt_block of libtetrissh/common.c), and on files:
-- `encrypt_file` of reference/pa2/ClientWithSecurityCP2.c, `decrypt_file` of ServerWithSecurityCP2.c.
pub mod RoundTrip
use corestack_peky.Common.{
  ℕ, zero, suc, ◌+◌, ◌-◌, ◌*◌, ◌/◌, List, [], ◌∷◌, ◌++◌, Option, none, some, Bool, true, false,
  length, take, drop, ltb, if◌then◌else◌,
}
use corestack_peky.Wire.Sockets.{Transfer, finished, broken, unfinished}
use corestack_peky.Transfer.Openssl.{Openssl, Padding, oaep, pkcs1}

abbrev pub rsa_key_bytes : ℕ
rsa_key_bytes = 128

abbrev pub rsa_oaep_chunk : ℕ
rsa_oaep_chunk = 62

abbrev pub rsa_pkcs1_chunk : ℕ
rsa_pkcs1_chunk = 117

abbrev pub padding : Bool → Padding
padding true = oaep
padding false = pkcs1

abbrev pub chunk_size : Bool → ℕ
chunk_size use_oaep = if use_oaep then rsa_oaep_chunk else rsa_pkcs1_chunk

abbrev pub prepend : List ℕ → Transfer → Transfer
prepend c (finished rest) = finished (c ++ rest)
prepend c broken = broken
prepend c unfinished = unfinished

-- `overread`: a block is read past the end of the data.
pub data Decoded : Type 0 where
  decoded : List ℕ → Decoded
  failed : Decoded
  overread : Decoded
  out_of_rounds : Decoded

abbrev pub prepend_plain : List ℕ → Decoded → Decoded
prepend_plain m (decoded rest) = decoded (m ++ rest)
prepend_plain m failed = failed
prepend_plain m overread = overread
prepend_plain m out_of_rounds = out_of_rounds

module _ (O : Openssl) where
  unfoldable pub rsa_encrypt_block : O.PublicKey → List ℕ → Bool → Option (List ℕ)
  rsa_encrypt_block pub_key plain use_oaep = O.pkey_encrypt pub_key (padding use_oaep) plain

  unfoldable pub rsa_decrypt_block : O.PrivateKey → List ℕ → Bool → Option (List ℕ)
  rsa_decrypt_block priv cipher use_oaep = O.pkey_decrypt priv (padding use_oaep) cipher

  -- The rounds left of the loop of `encrypt_file`, on what `original + plain_offset` holds.
  unfoldable pub encrypt_blocks : ℕ → O.PublicKey → List ℕ → Bool → Transfer
  encrypt_blocks fuel pub_key [] use_oaep = finished []
  encrypt_blocks zero pub_key (b ∷ plain) use_oaep = unfinished
  encrypt_blocks (suc fuel) pub_key (b ∷ plain) use_oaep =
      elim (rsa_encrypt_block pub_key (take (chunk_size use_oaep) (b ∷ plain)) use_oaep) [
        | none ↦ broken
        | some c ↦
            prepend c
              (encrypt_blocks fuel pub_key (drop (chunk_size use_oaep) (b ∷ plain)) use_oaep)
      ]

  unfoldable pub encrypt_file : List ℕ → O.PublicKey → Bool → Transfer
  encrypt_file original pub_key use_oaep =
      encrypt_blocks (length original) pub_key original use_oaep

  -- The rounds left of the loop of `decrypt_file`, on what `encrypted_data + enc_off` holds.
  unfoldable pub decrypt_blocks : ℕ → O.PrivateKey → List ℕ → Bool → Decoded
  decrypt_blocks fuel priv [] use_oaep = decoded []
  decrypt_blocks zero priv (b ∷ enc) use_oaep = out_of_rounds
  decrypt_blocks (suc fuel) priv (b ∷ enc) use_oaep =
      let rest = decrypt_blocks fuel priv (drop rsa_key_bytes (b ∷ enc)) use_oaep in
      if ltb (length (b ∷ enc)) rsa_key_bytes
      then overread
      else elim (rsa_decrypt_block priv (take rsa_key_bytes (b ∷ enc)) use_oaep) [
        | none ↦ failed
        | some m ↦ prepend_plain m rest
      ]

  unfoldable pub decrypt_file : List ℕ → O.PrivateKey → Bool → Decoded
  decrypt_file encrypted_data priv use_oaep =
      decrypt_blocks (length encrypted_data) priv encrypted_data use_oaep

-- `enc_total_len` of `encrypt_file`, the size of its buffer
abbrev pub enc_total_len : Bool → ℕ → ℕ
enc_total_len use_oaep plain_len =
    (plain_len + chunk_size use_oaep - 1) / chunk_size use_oaep * rsa_key_bytes
