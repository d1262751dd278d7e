-- ===== src/Transfer/Server.antt =====
-- The message loop of reference/pa2/ServerWithSecurityCP2.c, on a connected client.
use corestack_peky.Common.{
  ℕ, zero, suc, ◌-◌, List, [], ◌∷◌, ◌++◌, Option, none, some, Bool, true, length, take, ltb, ◌==◌,
  if◌then◌else◌,
}
use corestack_peky.Text.{c_string}
use corestack_peky.Wire.Sockets.{Socket, send_all, send_int}
use corestack_peky.Wire.Messages.{receive, receive_int}
use corestack_peky.Transfer.Openssl.{Openssl}
use corestack_peky.Transfer.Session.{session_decrypt, session_key_len}
use corestack_peky.Transfer.Blocks.{
  decoded, failed, overread, out_of_rounds, decrypt_file, rsa_decrypt_block,
}
use corestack_peky.Transfer.Keys.{load_private_key, sign_message_pss}

abbrev pub msg_filename : ℕ
msg_filename = 0

abbrev pub msg_file_data : ℕ
msg_file_data = 1

abbrev pub msg_close : ℕ
msg_close = 2

abbrev pub msg_auth : ℕ
msg_auth = 3

abbrev pub msg_symkey : ℕ
msg_symkey = 4

-- sizeof(filename)
abbrev pub filename_cap : ℕ
filename_cap = 4096

-- The files of the server: auth/private_key.pem, auth/server_signed.crt, and which paths of
-- recv_files/ can be written.
pub record Disk : Type 0 where
  pub private_key_pem : Option (List ℕ)
  pub server_signed_crt : Option (List ℕ)
  pub writable : List ℕ → Bool

-- The variables of `main`. `filename` is what was copied to the array, which has zeros behind it;
-- `session_key` is there once `session_key_flag` is set; `saved` are the files written, in order.
pub record Server (S : Type 0) : Type 0 where
  pub filename : List ℕ
  pub session_key : Option (List ℕ)
  pub saved : List (List ℕ × List ℕ)
  pub net : S

-- How a piece of the loop ends: it goes on, the loop is left, or behaviour is undefined (a NULL
-- pointer is followed, or an array is overrun).
pub data Ending {ℓ} (A : Type ℓ) : Type ℓ where
  going : A → Ending A
  stop : Ending A
  crash : Ending A

abbrev pub Act : Type 0 → Type 0 → Type 0
Act S A = Server S → Ending A × Server S

infixl 2 ◌>>=◌
unfoldable pub ◌>>=◌ : {S A B : Type 0} → Act S A → (A → Act S B) → Act S B
(m >>= f) srv =
    let (r, srv') = m srv in
    elim r [ going a ↦ f a srv' | stop ↦ (stop, srv') | crash ↦ (crash, srv') ]

infixl 2 ◌>>◌
abbrev pub ◌>>◌ : {S A B : Type 0} → Act S A → Act S B → Act S B
m >> k = m >>= λ _. k

abbrev pub ends : {S A : Type 0} → Ending A → Act S A
ends e srv = (e, srv)

-- The value, or this ending if there is none.
abbrev pub need : {S A : Type 0} → Ending A → Option A → Act S A
need otherwise none srv = (otherwise, srv)
need otherwise (some a) srv = (going a, srv)

abbrev pub set_filename : {S : Type 0} → List ℕ → Act S (Unit {0})
set_filename name srv = (going tt, record srv { filename = name })

abbrev pub set_key : {S : Type 0} → List ℕ → Act S (Unit {0})
set_key key srv = (going tt, record srv { session_key = some key })

-- What follows the last slash; `base` so far.
abbrev pub after_slash : List ℕ → List ℕ → List ℕ
after_slash base [] = base
after_slash base (c ∷ s) = if c == 47 then after_slash s s else after_slash base s

-- "recv_files/recv_" and the name without its folder, cut to the array `outpath`
abbrev pub recv_path : List ℕ → List ℕ
recv_path name = take (filename_cap - 1) (
    (114 ∷ 101 ∷ 99 ∷ 118 ∷ 95 ∷ 102 ∷ 105 ∷ 108 ∷ 101 ∷ 115 ∷ 47 ∷ 114 ∷ 101 ∷ 99 ∷ 118 ∷ 95 ∷ [])
    ++ after_slash name name)

module _ {S : Type 0} (sock : Socket S) (O : Openssl) (disk : Disk) where
  -- `len_buf` is not tested for NULL.
  abbrev pub fetch_int : Act S ℕ
  fetch_int srv =
      let (o, s') = receive_int sock srv.net in
      (elim o [ none ↦ crash | some n ↦ going n ], record srv { net = s' })

  abbrev pub fetch : ℕ → Act S (Option (List ℕ))
  fetch n srv = let (o, s') = receive sock n srv.net in (going o, record srv { net = s' })

  -- What was sent is not looked at.
  abbrev pub send_field : List ℕ → Act S (Unit {0})
  send_field bytes srv = (
    going tt,
    record srv { net = (send_all sock bytes (send_int sock (length bytes) srv.net).1).1 },
  )

  unfoldable pub handle_filename : Act S (Unit {0})
  handle_filename = do
    fn_len ← fetch_int
    buf ← fetch fn_len
    name ← need crash buf
    if ltb filename_cap fn_len then ends crash else set_filename name

  abbrev pub decrypt_data : List ℕ → O.PrivateKey → Act S (List ℕ)
  decrypt_data enc priv srv = elim (srv.session_key) [
    | some key ↦ need stop (session_decrypt O key enc) srv
    | none ↦ elim (decrypt_file O enc priv true) [
      | decoded content ↦ (going content, srv)
      | failed ↦ (stop, srv)
      | overread ↦ (crash, srv)
      | out_of_rounds ↦ (crash, srv)
    ]
  ]

  -- With a NULL pointer for the data, `session_decrypt` still refuses a short length.
  abbrev pub no_data : ℕ → Act S (List ℕ)
  no_data enc_len srv = elim (srv.session_key) [
    | some key ↦ (if ltb enc_len 64 then stop else crash, srv)
    | none ↦ (crash, srv)
  ]

  -- `snprintf` reads `filename` as a string: it must end within the array.
  abbrev pub save : List ℕ → Act S (Unit {0})
  save content srv =
      let name = c_string srv.filename in
      if ltb (length name) filename_cap
      then (
        going tt,
        if disk.writable (recv_path name)
            then record srv { saved = srv.saved ++ ((recv_path name, content) ∷ []) }
            else srv,
      )
      else (crash, srv)

  unfoldable pub handle_file_data : Act S (Unit {0})
  handle_file_data = do
    enc_len ← fetch_int
    buf ← fetch enc_len
    priv ← need stop (load_private_key O disk.private_key_pem)
    content ← elim buf [ none ↦ no_data enc_len | some enc ↦ decrypt_data enc priv ]
    save content

  unfoldable pub handle_auth : Act S (Unit {0})
  handle_auth = do
    challenge_len ← fetch_int
    buf ← fetch challenge_len
    challenge ← need stop buf
    priv ← need stop (load_private_key O disk.private_key_pem)
    sig ← need stop (sign_message_pss O priv challenge)
    send_field sig
    cert ← need stop disk.server_signed_crt
    send_field cert

  unfoldable pub handle_symkey : Act S (Unit {0})
  handle_symkey = do
    enc_key_len ← fetch_int
    buf ← fetch enc_key_len
    enc_key ← need stop buf
    priv ← need stop (load_private_key O disk.private_key_pem)
    key ← need stop (rsa_decrypt_block O priv enc_key true)
    if length key == session_key_len then set_key key else ends stop

  unfoldable pub handle_message : ℕ → Act S (Unit {0})
  handle_message msg_type =
      if msg_type == msg_filename
      then handle_filename
      else if msg_type == msg_file_data
      then handle_file_data
      else if msg_type == msg_auth
      then handle_auth
      else if msg_type == msg_symkey
      then handle_symkey
      else ends stop

  -- The rounds left of the loop.
  unfoldable pub serve : ℕ → Act S (Unit {0})
  unfolding ◌>>=◌
  serve zero srv = (going tt, srv)
  serve (suc rounds) srv =
      let (o, s') = receive_int sock srv.net in
      elim o [
        | none ↦ (stop, record srv { net = s' })
        | some t ↦ (handle_message t >>= λ _. serve rounds) (record srv { net = s' })
      ]
