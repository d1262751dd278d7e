-- ===== src/Transfer/Blocks/RoundTrip.antt =====
-- A file encrypted in RSA blocks is decrypted again, within the buffers.
use corestack_peky.Common.{
  ℕ, zero, suc, ◌+◌, ◌-◌, ◌≤◌, ◌≡◌, ◌⊎◌, inl, inr, refl, sym, ap, ◌∙◌, arith, List, [], ◌∷◌, ◌++◌,
  none, some, Bool, true, false, length, take, drop, ltb, Option-cases, length-append, length-drop,
  take-drop, take-append, drop-append,
}
use corestack_peky.Wire.Sockets.{Transfer, finished, broken, unfinished}
use corestack_peky.Transfer.Openssl.{Openssl, IsPair}
use corestack_peky.Transfer.Blocks.{
  padding, chunk_size, prepend, decoded, prepend_plain, rsa_encrypt_block, rsa_decrypt_block,
  encrypt_blocks, encrypt_file, decrypt_blocks, decrypt_file, enc_total_len, rsa_key_bytes,
}

-- One more chunk is one more block.
enc_total_len-chunk :
    (use_oaep : Bool) (n : ℕ)
    → enc_total_len use_oaep (suc n)
      ≡ rsa_key_bytes + enc_total_len use_oaep (suc n - chunk_size use_oaep)
enc_total_len-chunk true n = omega arith
enc_total_len-chunk false n = omega arith

enc_total_len-zero : (use_oaep : Bool) → 0 ≡ enc_total_len use_oaep 0
enc_total_len-zero true = omega arith
enc_total_len-zero false = omega arith

chunk_size-positive : (use_oaep : Bool) → 1 ≤ chunk_size use_oaep
chunk_size-positive true = omega arith
chunk_size-positive false = omega arith

chunk_size-small : (use_oaep : Bool) → chunk_size use_oaep ≤ rsa_key_bytes
chunk_size-small true = omega arith
chunk_size-small false = omega arith

module _ (O : Openssl) {priv : O.PrivateKey} {pub_key : O.PublicKey} (pair : IsPair O priv pub_key)
    (use_oaep : Bool) where
  decrypt_blocks-block :
      (fuel : ℕ) (c rest m : List ℕ)
      → length c ≡ rsa_key_bytes
      → rsa_decrypt_block O priv c use_oaep ≡ some m
      → decrypt_blocks O (suc fuel) priv (c ++ rest) use_oaep
        ≡ prepend_plain m (decrypt_blocks O fuel priv rest use_oaep)
  unfolding decrypt_blocks
  decrypt_blocks-block fuel [] rest m size dec = absurd (omega (arith, size))
  decrypt_blocks-block fuel (b ∷ c) rest m size dec =
      let total = length-append (b ∷ c) rest in
      let long : ltb (length ((b ∷ c) ++ rest)) rsa_key_bytes ≡ false =
        ground (arith, total, size) in
      let front : take rsa_key_bytes ((b ∷ c) ++ rest) ≡ b ∷ c =
        ap (λ n. take n ((b ∷ c) ++ rest)) (sym size) ∙ take-append (b ∷ c) rest in
      let back : drop rsa_key_bytes ((b ∷ c) ++ rest) ≡ rest =
        ap (λ n. drop n ((b ∷ c) ++ rest)) (sym size) ∙ drop-append (b ∷ c) rest in
      rw (decrypt_blocks, long, front, dec, back) refl

  decrypt-nothing :
      (rounds : ℕ) → 0 ≤ rounds → decrypt_blocks O rounds priv [] use_oaep ≡ decoded []
  unfolding decrypt_blocks
  decrypt-nothing zero le = refl
  decrypt-nothing (suc rounds) le = refl

  -- What encrypting a file answers, with `rounds` for decrypting what comes out.
  abbrev EncryptOutcome : List ℕ → Transfer → Type 0
  EncryptOutcome plain (finished enc) =
      (length enc ≡ enc_total_len use_oaep (length plain))
      × (length plain ≤ length enc)
      × ((rounds : ℕ)
          → length enc ≤ rounds
          → decrypt_blocks O rounds priv enc use_oaep ≡ decoded plain)
  EncryptOutcome plain broken = (m : List ℕ) × (rsa_encrypt_block O pub_key m use_oaep ≡ none)
  EncryptOutcome plain unfinished = ⊥

  decrypt-prepend :
      (b : ℕ) (plain c enc : List ℕ)
      → length c ≡ rsa_key_bytes
      → rsa_decrypt_block O priv c use_oaep ≡ some (take (chunk_size use_oaep) (b ∷ plain))
      → ((rounds : ℕ)
          → length enc ≤ rounds
          → decrypt_blocks O rounds priv enc use_oaep
            ≡ decoded (drop (chunk_size use_oaep) (b ∷ plain)))
      → (rounds : ℕ) → length (c ++ enc) ≤ rounds
      → decrypt_blocks O rounds priv (c ++ enc) use_oaep ≡ decoded (b ∷ plain)
  decrypt-prepend b plain c enc size dec rest zero le =
      absurd (omega (arith, size, length-append c enc))
  decrypt-prepend b plain c enc size dec rest (suc rounds) le =
      let front = take (chunk_size use_oaep) (b ∷ plain) in
      decrypt_blocks-block rounds c enc front size dec
      ∙ (ap (prepend_plain front) (rest rounds (omega (arith, size, length-append c enc)))
          ∙ ap decoded (take-drop (chunk_size use_oaep) (b ∷ plain)))

  EncryptOutcome-prepend :
      (b : ℕ) (plain c : List ℕ) (t : Transfer)
      → rsa_encrypt_block O pub_key (take (chunk_size use_oaep) (b ∷ plain)) use_oaep ≡ some c
      → EncryptOutcome (drop (chunk_size use_oaep) (b ∷ plain)) t
      → EncryptOutcome (b ∷ plain) (prepend c t)
  unfolding rsa_encrypt_block rsa_decrypt_block
  EncryptOutcome-prepend b plain c (finished enc) e o =
      let size = pair.block_length (padding use_oaep) _ c e in
      let left = length-drop (chunk_size use_oaep) (b ∷ plain) in
      let total = length-append c enc in
      (
        total
            ∙ (ap (λ k. k + length enc) size
                ∙ (ap (λ k. rsa_key_bytes + k) (o.0 ∙ ap (enc_total_len use_oaep) left)
                    ∙ sym (enc_total_len-chunk use_oaep (length plain)))),
        omega (arith, size, left, total, o.1, chunk_size-small use_oaep),
        decrypt-prepend b plain c enc size (pair.decrypts (padding use_oaep) _ c e) o.2,
      )
  EncryptOutcome-prepend b plain c broken e o = o
  EncryptOutcome-prepend b plain c unfinished e o = o

  encrypt_blocks_lem :
      (fuel : ℕ) (plain : List ℕ)
      → length plain ≤ fuel
      → EncryptOutcome plain (encrypt_blocks O fuel pub_key plain use_oaep)
  unfolding encrypt_blocks
  encrypt_blocks_lem fuel [] le = (enc_total_len-zero use_oaep, omega arith, decrypt-nothing)
  encrypt_blocks_lem zero (b ∷ plain) le = absurd (omega arith)
  encrypt_blocks_lem (suc fuel) (b ∷ plain) le =
      let front = take (chunk_size use_oaep) (b ∷ plain) in
      let back = drop (chunk_size use_oaep) (b ∷ plain) in
      elim (Option-cases (rsa_encrypt_block O pub_key front use_oaep)) [
        | inl e ↦ rw (encrypt_blocks, e) (front, e)
        | inr (c, e) ↦
            rw (encrypt_blocks, e)
              (EncryptOutcome-prepend b plain c (encrypt_blocks O fuel pub_key back use_oaep) e (
                encrypt_blocks_lem fuel back (
                  omega (
                    arith,
                    length-drop (chunk_size use_oaep) (b ∷ plain),
                    chunk_size-positive use_oaep,
                  ))))
      ]

  EncryptOutcome-cases :
      (plain : List ℕ) (t : Transfer)
      → EncryptOutcome plain t
      → ((m : List ℕ) × (rsa_encrypt_block O pub_key m use_oaep ≡ none) × (t ≡ broken))
        ⊎ ((enc : List ℕ) × (t ≡ finished enc)
            × (length enc ≡ enc_total_len use_oaep (length plain))
            × (length plain ≤ length enc)
            × (decrypt_blocks O (length enc) priv enc use_oaep ≡ decoded plain))
  EncryptOutcome-cases plain (finished enc) o =
      inr (enc, refl, o.0, o.1, o.2 (length enc) (omega arith))
  EncryptOutcome-cases plain broken o = inl (o.0, o.1, refl)
  EncryptOutcome-cases plain unfinished o = absurd o

  -- `encrypt_file` never runs out of rounds: it fails because a block could not be encrypted, or
  -- fills its buffer exactly. What it answers then, which is no shorter than the file, is decrypted
  -- by `decrypt_file` with the other key of the pair to the same file.
  pub decrypt_file-encrypt_file :
      (plain : List ℕ)
      → ((m : List ℕ) × (rsa_encrypt_block O pub_key m use_oaep ≡ none)
          × (encrypt_file O plain pub_key use_oaep ≡ broken))
        ⊎ ((enc : List ℕ) × (encrypt_file O plain pub_key use_oaep ≡ finished enc)
            × (length enc ≡ enc_total_len use_oaep (length plain))
            × (length plain ≤ length enc)
            × (decrypt_file O enc priv use_oaep ≡ decoded plain))
  unfolding encrypt_file decrypt_file
  decrypt_file-encrypt_file plain =
      EncryptOutcome-cases plain (encrypt_blocks O (length plain) pub_key plain use_oaep)
        (encrypt_blocks_lem (length plain) plain (omega arith))
