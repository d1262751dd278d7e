-- ===== src/Transfer/Session/Tokens.antt =====
-- What a token holds, and that it is read back.
use corestack_peky.Common.{
  ℕ, ◌+◌, ◌-◌, ◌^◌, ◌<◌, ◌≤◌, ◌≡◌, refl, sym, ap, ◌∙◌, arith, List, ◌++◌, none-ne-some, some, true,
  false, length, take, drop, ltb, ◌>>=◌, >>=-eq-some, Bool-cases, inl, inr, length-append,
  take-append, drop-append, take-all, append_assoc, Bool, length-take,
}
use corestack_peky.Text.{str_eq, str_eq_refl, str_eq→eq}
use corestack_peky.Transfer.Openssl.{Openssl, IsLawful}
use corestack_peky.Transfer.Session.{
  aes_iv_len, aes_block, hmac_key_len, hmac_len, as_int, session_encrypt, session_decrypt,
  decrypt_body,
}

pub as_int-small : (n : ℕ) → n < 2 ^ 31 → as_int n ≡ some n
as_int-small n h = ground arith

pub take-as_int : (plain : List ℕ) → length plain < 2 ^ 31 → take (length plain) plain ≡ plain
take-as_int plain small = take-all (length plain) plain (omega arith)

module _ (O : Openssl) where
  session_encrypt-small :
      (key i plain : List ℕ)
      → length plain < 2 ^ 31
      → session_encrypt O key (some i) plain ≡ (
          O.encrypt_cbc (drop hmac_key_len key) i plain >>= λ ct.
          O.hmac (take hmac_key_len key) (i ++ ct) >>= λ tag. some (i ++ (ct ++ tag)))
  unfolding session_encrypt
  session_encrypt-small key i plain small =
      rw (session_encrypt, as_int-small (length plain) small, ◌>>=◌, take-as_int plain small) refl

  -- The parts of a token.
  pub session_encrypt-parts :
      (key i plain token : List ℕ)
      → length plain < 2 ^ 31
      → session_encrypt O key (some i) plain ≡ some token
      → (ct : List ℕ) × (tag : List ℕ) × (O.encrypt_cbc (drop hmac_key_len key) i plain ≡ some ct)
        × (O.hmac (take hmac_key_len key) (i ++ ct) ≡ some tag)
        × (i ++ (ct ++ tag) ≡ token)
  session_encrypt-parts key i plain token small h =
      let (ct, enc, more) =
        >>=-eq-some (O.encrypt_cbc (drop hmac_key_len key) i plain) _
          (sym (session_encrypt-small key i plain small) ∙ h) in
      let (tag, mac, parts) = >>=-eq-some (O.hmac (take hmac_key_len key) (i ++ ct)) _ more in
      (ct, tag, enc, mac, grind arith)

  session_decrypt-parts :
      (key iv ct tag : List ℕ)
      → length iv ≡ aes_iv_len
      → aes_block ≤ length ct
      → length ct < 2 ^ 31
      → length tag ≡ hmac_len
      → O.hmac (take hmac_key_len key) (iv ++ ct) ≡ some tag
      → session_decrypt O key (iv ++ (ct ++ tag)) ≡ O.decrypt_cbc (drop hmac_key_len key) iv ct
  unfolding session_decrypt decrypt_body
  session_decrypt-parts key iv ct tag size block small tag_size mac =
      let total : length (iv ++ (ct ++ tag)) ≡ length ct + 48 =
        omega (arith, length-append iv (ct ++ tag), length-append ct tag) in
      let long : ltb (length (iv ++ (ct ++ tag))) (aes_iv_len + aes_block + hmac_len) ≡ false =
        ground (arith, total) in
      let middle : length (iv ++ (ct ++ tag)) - aes_iv_len - hmac_len ≡ length ct =
        omega (arith, total) in
      let body : aes_iv_len + length ct ≡ length (iv ++ ct) = omega (arith, length-append iv ct) in
      let iv_part : take aes_iv_len (iv ++ (ct ++ tag)) ≡ iv =
        ap (λ n. take n (iv ++ (ct ++ tag))) (sym size) ∙ take-append iv (ct ++ tag) in
      let rest_part : drop aes_iv_len (iv ++ (ct ++ tag)) ≡ ct ++ tag =
        ap (λ n. drop n (iv ++ (ct ++ tag))) (sym size) ∙ drop-append iv (ct ++ tag) in
      let signed : take (length (iv ++ ct)) (iv ++ (ct ++ tag)) ≡ iv ++ ct =
        ap (take (length (iv ++ ct))) (sym (append_assoc iv ct tag)) ∙ take-append (iv ++ ct) tag in
      let received : drop (length (iv ++ ct)) (iv ++ (ct ++ tag)) ≡ tag =
        ap (drop (length (iv ++ ct))) (sym (append_assoc iv ct tag)) ∙ drop-append (iv ++ ct) tag in
      let whole = take-as_int ct small in
      rw
        (
          session_decrypt,
          long,
          middle,
          body,
          signed,
          mac,
          ◌>>=◌,
          received,
          str_eq_refl tag,
          iv_part,
          rest_part,
          take-append ct tag,
          as_int-small (length ct) small,
          whole,
        )
        refl

  -- A token that `session_encrypt` makes of fewer than 2^31 - 16 bytes with a 16-byte IV is read
  -- back by `session_decrypt` with the same key.
  pub session_decrypt-session_encrypt :
      (key iv plain token : List ℕ)
      → IsLawful O
      → length iv ≡ aes_iv_len
      → length plain + 16 < 2 ^ 31
      → session_encrypt O key (some iv) plain ≡ some token
      → session_decrypt O key token ≡ some plain
  session_decrypt-session_encrypt key iv plain token laws size small h =
      let (ct, tag, enc, mac, parts) = session_encrypt-parts key iv plain token (omega arith) h in
      rw (← parts) (
        session_decrypt-parts key iv ct tag size (laws.padded _ iv plain ct enc).1
          (omega (arith, laws.padded_most _ iv plain ct enc)) (laws.tag_length _ _ tag mac) mac
        ∙ laws.decrypts_cbc _ iv plain ct enc)

  decrypt_body-some :
      (key token plain : List ℕ) (ct_len : ℕ) (same : Bool)
      → length token < 2 ^ 31
      → ct_len ≤ length token
      → decrypt_body O key token ct_len same ≡ some plain
      → (same ≡ true)
        × (O.decrypt_cbc
              (drop hmac_key_len key)
              (take aes_iv_len token)
              (take ct_len (drop aes_iv_len token))
            ≡ some plain)
  unfolding decrypt_body
  decrypt_body-some key token plain ct_len false small le h = absurd (ground arith)
  decrypt_body-some key token plain ct_len true small le h =
      let ct = take ct_len (drop aes_iv_len token) in
      let size = length-take ct_len (drop aes_iv_len token) in
      let whole : take ct_len ct ≡ ct = take-all ct_len ct (omega (arith, size)) in
      (refl, rw (as_int-small ct_len (omega arith), ◌>>=◌, whole) at h)

  -- Of the tokens of fewer than 2^31 bytes, `session_decrypt` answers something only for one of at
  -- least 64 bytes whose last 32 are the HMAC of those before them; the answer is then the
  -- decryption of what stands between the IV and the HMAC.
  pub session_decrypt_sound :
      (key token plain : List ℕ)
      → length token < 2 ^ 31
      → session_decrypt O key token ≡ some plain
      → let ct_len = length token - aes_iv_len - hmac_len in
        (aes_iv_len + aes_block + hmac_len ≤ length token)
        × (O.hmac (take hmac_key_len key) (take (aes_iv_len + ct_len) token)
            ≡ some (drop (aes_iv_len + ct_len) token))
        × (O.decrypt_cbc
              (drop hmac_key_len key)
              (take aes_iv_len token)
              (take ct_len (drop aes_iv_len token))
            ≡ some plain)
  unfolding session_decrypt
  session_decrypt_sound key token plain small h =
      let ct_len = length token - aes_iv_len - hmac_len in
      elim (Bool-cases (ltb (length token) (aes_iv_len + aes_block + hmac_len))) [
        | inl short ↦ absurd (none-ne-some _ (rw short at h))
        | inr long ↦
            let (tag, mac, more) =
              >>=-eq-some (O.hmac (take hmac_key_len key) (take (aes_iv_len + ct_len) token)) _
                (rw long at h) in
            let (same, dec) =
              decrypt_body-some key token plain ct_len
                (str_eq tag (drop (aes_iv_len + ct_len) token)) small (omega arith) more in
            (
              ground arith,
              mac ∙ ap some (str_eq→eq tag (drop (aes_iv_len + ct_len) token) same),
              dec,
            )
      ]
