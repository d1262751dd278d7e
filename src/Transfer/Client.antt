-- ===== src/Transfer/Client.antt =====
-- `auth` and the sending loop of reference/pa2/ClientWithSecurityCP2.c.
use corestack_peky.Common.{
  ℕ, ◌+◌, List, [], ◌∷◌, Option, none, some, Bool, true, false, length, not, ◌==◌, if◌then◌else◌,
}
use corestack_peky.Text.{str_eq}
use corestack_peky.Wire.Sockets.{Socket, Transfer, finished, broken, unfinished, send_all, send_int}
use corestack_peky.Wire.Messages.{receive, receive_int}
use corestack_peky.Transfer.Openssl.{Openssl}
use corestack_peky.Transfer.Session.{session_encrypt, session_key_len}
use corestack_peky.Transfer.Blocks.{rsa_encrypt_block}
use corestack_peky.Transfer.Keys.{load_cert_bytes, verify_server_cert, verify_message_pss}
use corestack_peky.Transfer.Server.{
  msg_filename, msg_file_data, msg_close, msg_auth, msg_symkey, Ending, going, stop,
}

-- A piece of `auth`: it may return -1.
abbrev pub Link : Type 0 → Type 0 → Type 0
Link S A = S → Option A × S

infixl 2 ◌>>=◌
unfoldable pub ◌>>=◌ : {S A B : Type 0} → Link S A → (A → Link S B) → Link S B
(m >>= f) s = let (o, s') = m s in elim o [ none ↦ (none, s') | some a ↦ f a s' ]

infixl 2 ◌>>◌
abbrev pub ◌>>◌ : {S A B : Type 0} → Link S A → Link S B → Link S B
m >> k = m >>= λ _. k

abbrev pub given : {S A : Type 0} → Option A → Link S A
given o s = (o, s)

abbrev pub check : {S : Type 0} → Bool → Link S (Unit {0})
check true s = (some tt, s)
check false s = (none, s)

-- `!= 0` of a send
abbrev pub sent : Transfer → Option (Unit {0})
sent (finished bs) = some tt
sent broken = none
sent unfinished = none

-- `filename[strcspn(filename, "\n")] = 0`
abbrev pub strip_newline : List ℕ → List ℕ
strip_newline [] = []
strip_newline (c ∷ line) = let rest = strip_newline line in if c == 10 then [] else c ∷ rest

module _ {S : Type 0} (sock : Socket S) (O : Openssl) where
  abbrev send_checked : ℕ → Link S (Unit {0})
  send_checked value s = let (t, s') = send_int sock value s in (sent t, s')

  -- `secret`: what RAND_bytes answered; `ca_file`: the contents of auth/cacsertificate.crt.
  unfoldable pub auth : Option (List ℕ) → Option (List ℕ) → Link S O.PublicKey
  auth secret ca_file = do
    session_key ← given secret
    send_checked msg_auth
    send_checked session_key_len
    (λ s. let (t, s') = send_all sock session_key s in (sent t, s'))
    sig_len ← receive_int sock
    sig ← receive sock sig_len
    crt_len ← receive_int sock
    crt_bytes ← receive sock crt_len
    server_cert ← given (load_cert_bytes O crt_bytes)
    check (verify_server_cert O server_cert ca_file)
    check (verify_message_pss O server_cert sig session_key)
    given (O.get_pubkey server_cert)

  -- A message: its type, the length of its payload, the payload. What was sent is not looked at.
  unfoldable pub send_message : ℕ → List ℕ → S → S
  send_message msg_type payload s =
      (send_all sock payload (send_int sock (length payload) (send_int sock msg_type s).1).1).1

  unfoldable pub send_close : S → S
  send_close s = (send_int sock msg_close s).1

  -- The loop over the lines that `fgets` answers; `ivs` is what RAND_bytes answers for the IVs, and
  -- `k` how many were asked for. `regular` tells which names are regular files, `contents` what
  -- `fopen` and `fread` answer.
  unfoldable pub upload_loop :
      List ℕ
      → (List ℕ → Bool)
      → (List ℕ → Option (List ℕ))
      → (ℕ → Option (List ℕ))
      → ℕ
      → List (List ℕ)
      → S
      → S
  upload_loop key regular contents ivs k [] s = send_close s
  upload_loop key regular contents ivs k (line ∷ lines) s =
      let name = strip_newline line in
      let named = send_message msg_filename name s in
      let skipped = upload_loop key regular contents ivs k lines s in
      if str_eq name (45 ∷ 49 ∷ [])
      then send_close (send_close s)
      else if not (regular name)
      then skipped
      else elim (contents name) [
        | none ↦ upload_loop key regular contents ivs k lines named
        | some file ↦ elim (session_encrypt O key (ivs k) file) [
          | none ↦ upload_loop key regular contents ivs (k + 1) lines named
          | some token ↦
              upload_loop key regular contents ivs (k + 1) lines
                (send_message msg_file_data token named)
        ]
      ]

  -- `main` behind `auth`: the session key goes over first. `unset_len`: what `enc_key_len` holds when
  -- the key could not be encrypted; it is sent all the same, and `send` of NULL then fails, or sends
  -- 0 bytes, which the client does not look at.
  unfoldable pub upload :
      Option (List ℕ)
      → O.PublicKey
      → ℕ
      → (List ℕ → Bool)
      → (List ℕ → Option (List ℕ))
      → (ℕ → Option (List ℕ))
      → List (List ℕ)
      → S
      → Ending (Unit {0}) × S
  upload none server_key unset_len regular contents ivs lines s = (stop, s)
  upload (some key) server_key unset_len regular contents ivs lines s =
      elim (rsa_encrypt_block O server_key key true) [
        | none ↦ (
          going tt,
          upload_loop key regular contents ivs 0 lines
              (send_int sock unset_len (send_int sock msg_symkey s).1).1,
        )
        | some enc_key ↦ (
          going tt,
          upload_loop key regular contents ivs 0 lines (send_message msg_symkey enc_key s),
        )
      ]
