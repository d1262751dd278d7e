-- ===== src/Transfer/Keys.antt =====
-- The key and certificate functions of libtetrissh/common.c, on the contents of the files they open.
use corestack_peky.Common.{List, ℕ, Option, none, some, Bool, false, length, take, ◌>>=◌}
use corestack_peky.Text.{c_string}
use corestack_peky.Transfer.Openssl.{Openssl}
use corestack_peky.Transfer.Session.{as_int}

module _ (O : Openssl) where
  -- `file`: what `fopen` and reading answer.
  unfoldable pub load_private_key : Option (List ℕ) → Option O.PrivateKey
  load_private_key file = file >>= O.read_private_key

  unfoldable pub load_cert_file : Option (List ℕ) → Option O.Certificate
  load_cert_file file = file >>= O.read_certificate

  -- With a negative length, BIO_new_mem_buf takes its data for a string.
  unfoldable pub load_cert_bytes : List ℕ → Option O.Certificate
  load_cert_bytes bytes = elim (as_int (length bytes)) [
    | none ↦ O.read_certificate (c_string bytes)
    | some n ↦ O.read_certificate (take n bytes)
  ]

  unfoldable pub verify_server_cert : O.Certificate → Option (List ℕ) → Bool
  unfolding load_cert_file
  verify_server_cert cert ca_file = elim (load_cert_file ca_file) [
    | none ↦ false
    | some ca ↦ O.verify_cert ca cert
  ]

  unfoldable pub sign_message_pss : O.PrivateKey → List ℕ → Option (List ℕ)
  sign_message_pss priv msg = O.digest_sign priv msg

  unfoldable pub verify_message_pss : O.Certificate → List ℕ → List ℕ → Bool
  verify_message_pss cert sig msg = elim (O.get_pubkey cert) [
    | none ↦ false
    | some k ↦ O.digest_verify k sig msg
  ]
