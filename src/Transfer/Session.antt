-- ===== src/Transfer/Session.antt =====
-- `session_encrypt` and `session_decrypt` of libtetrissh/common.c: tokens IV ‖ ciphertext ‖ HMAC.
pub mod Tokens
use corestack_peky.Common.{
  ℕ, ◌+◌, ◌-◌, ◌%◌, ◌^◌, List, ◌++◌, Option, none, some, Bool, true, false, length, take, drop, ltb,
  leb, if◌then◌else◌, ◌>>=◌,
}
use corestack_peky.Text.{str_eq}
use corestack_peky.Transfer.Openssl.{Openssl}

abbrev pub aes_iv_len : ℕ
aes_iv_len = 16

abbrev pub aes_block : ℕ
aes_block = 16

abbrev pub hmac_key_len : ℕ
hmac_key_len = 16

abbrev pub hmac_len : ℕ
hmac_len = 32

abbrev pub session_key_len : ℕ
session_key_len = 32

-- `(int)len` for OpenSSL's length arguments: the low 32 bits; negative lengths are refused.
abbrev pub as_int : ℕ → Option ℕ
as_int len = let low = len % 2 ^ 32 in if leb (2 ^ 31) low then none else some low

module _ (O : Openssl) where
  -- `iv`: what RAND_bytes answered.
  unfoldable pub session_encrypt : List ℕ → Option (List ℕ) → List ℕ → Option (List ℕ)
  session_encrypt key iv plain = do
    i ← iv
    n ← as_int (length plain)
    ct ← O.encrypt_cbc (drop hmac_key_len key) i (take n plain)
    tag ← O.hmac (take hmac_key_len key) (i ++ ct)
    some (i ++ (ct ++ tag))

  -- The rest of `session_decrypt`, when the HMAC was compared.
  unfoldable pub decrypt_body : List ℕ → List ℕ → ℕ → Bool → Option (List ℕ)
  decrypt_body key token ct_len false = none
  decrypt_body key token ct_len true = do
    n ← as_int ct_len
    O.decrypt_cbc (drop hmac_key_len key) (take aes_iv_len token)
        (take n (take ct_len (drop aes_iv_len token)))

  unfoldable pub session_decrypt : List ℕ → List ℕ → Option (List ℕ)
  unfolding decrypt_body
  session_decrypt key token =
      let ct_len = length token - aes_iv_len - hmac_len in
      if ltb (length token) (aes_iv_len + aes_block + hmac_len) then none else (do
        tag ← O.hmac (take hmac_key_len key) (take (aes_iv_len + ct_len) token)
        decrypt_body key token ct_len (str_eq tag (drop (aes_iv_len + ct_len) token)))
