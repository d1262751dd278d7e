-- ===== src/Transfer/Delivery/Whole.antt =====
-- A transfer from `send_message` of the session key to the end of both loops.
use corestack_peky.Common.{
  ℕ, zero, suc, ◌+◌, ◌*◌, ◌≤◌, ◌<◌, ◌^◌, ◌≡◌, refl, sym, ap, ◌∙◌, arith, List, [], ◌∷◌, ◌++◌,
  append_assoc, Option, none, some, Bool, true, length, length-append,
}
use corestack_peky.Text.{c_string}
use corestack_peky.Wire.Sockets.{Socket}
use corestack_peky.Wire.Messages.{IsOpen, receive_int, wire_int, wire_field, receive_int-ready}
use corestack_peky.Transfer.Openssl.{Openssl, IsPair, IsLawful, oaep}
use corestack_peky.Transfer.Session.{session_encrypt, session_key_len, aes_iv_len}
use corestack_peky.Transfer.Session.Tokens.{session_encrypt-parts, session_decrypt-session_encrypt}
use corestack_peky.Transfer.Blocks.{rsa_decrypt_block, rsa_encrypt_block}
use corestack_peky.Transfer.Keys.{load_private_key}
use corestack_peky.Transfer.Server.{
  Disk, Server, stop, recv_path, filename_cap, serve, msg_close, msg_symkey,
}
use corestack_peky.Transfer.Client.{upload}
use corestack_peky.Transfer.Delivery.Sending.{
  File, wire_message, wire_files, Sendable, Tokens, typed_lines, upload_loop-taken,
  send_message-taken,
}
use corestack_peky.Transfer.Delivery.Serving.{Deliverable, stored, handle_symkey-ready}
use corestack_peky.Transfer.Delivery.Rounds.{serve_files, serve-message, handle-symkey}

-- Names that fit the server's array, whose places can be written, of files below 2^31 - 16 bytes.
abbrev pub Storable : Disk → List File → Type 0
Storable disk [] = Unit
Storable disk (f ∷ files) =
    (length f.name < filename_cap)
    × (c_string f.name ≡ f.name)
    × (disk.writable (recv_path f.name) ≡ true)
    × (length f.bytes + 16 < 2 ^ 31)
    × Storable disk files

module _ (O : Openssl) (laws : IsLawful O) where
  length-session_encrypt :
      (key iv plain token : List ℕ)
      → length iv ≡ aes_iv_len
      → length plain + 16 < 2 ^ 31
      → session_encrypt O key (some iv) plain ≡ some token
      → length token < 2 ^ 64
  length-session_encrypt key iv plain token size small h =
      let (ct, tag, enc, mac, parts) = session_encrypt-parts O key iv plain token (omega arith) h in
      omega (
        arith,
        size,
        ap length parts,
        length-append iv (ct ++ tag),
        length-append ct tag,
        laws.padded_most _ iv plain ct enc,
        laws.tag_length _ _ tag mac,
      )

  session_encrypt-iv :
      (key plain token : List ℕ) (iv : Option (List ℕ))
      → session_encrypt O key iv plain ≡ some token
      → (i : List ℕ) × (iv ≡ some i)
  unfolding session_encrypt
  session_encrypt-iv key plain token none h = absurd (grind arith)
  session_encrypt-iv key plain token (some i) h = (i, refl)

  Deliverable-Tokens :
      (disk : Disk) (key : List ℕ) (ivs : ℕ → Option (List ℕ)) (k : ℕ) (files : List File)
      (tokens : List (List ℕ))
      → ((j : ℕ) (i : List ℕ) → ivs j ≡ some i → length i ≡ aes_iv_len)
      → Storable disk files
      → Tokens O key ivs k files tokens
      → Deliverable O disk key files tokens
  Deliverable-Tokens disk key ivs k [] [] sizes store enc = tt
  Deliverable-Tokens disk key ivs k [] (token ∷ tokens) sizes store enc = absurd enc
  Deliverable-Tokens disk key ivs k (f ∷ files) [] sizes store enc = absurd enc
  Deliverable-Tokens disk key ivs k (f ∷ files) (token ∷ tokens) sizes
        (fits, text, can, small, store) (made, enc) =
      let (i, had) = session_encrypt-iv key f.bytes token (ivs k) made in
      let size = sizes k i had in
      let made' : session_encrypt O key (some i) f.bytes ≡ some token =
        ap (λ iv. session_encrypt O key iv f.bytes) (sym had) ∙ made in
      (
        fits,
        text,
        can,
        length-session_encrypt key i f.bytes token size small made',
        session_decrypt-session_encrypt O key i f.bytes token laws size small made',
        Deliverable-Tokens disk key ivs (k + 1) files tokens sizes store enc,
      )

module _ {S : Type 0} (sock : Socket S) {incoming outgoing : S → List ℕ}
    (conn : IsOpen sock incoming outgoing) (O : Openssl) {priv : O.PrivateKey}
    {pub_key : O.PublicKey} (pair : IsPair O priv pub_key) (laws : IsLawful O) (disk : Disk) where
  upload-taken :
      (key enc_key : List ℕ) (unset_len : ℕ) (regular : List ℕ → Bool)
      (contents : List ℕ → Option (List ℕ)) (ivs : ℕ → Option (List ℕ)) (files : List File)
      (tokens : List (List ℕ)) (c : S)
      → rsa_encrypt_block O pub_key key true ≡ some enc_key
      → Sendable regular contents files
      → Tokens O key ivs 0 files tokens
      → outgoing
          (upload sock O (some key) pub_key unset_len regular contents ivs (typed_lines files) c).1
        ≡ (outgoing c ++ wire_message msg_symkey enc_key)
          ++ (wire_files files tokens ++ (wire_int msg_close ++ wire_int msg_close))
  unfolding upload
  upload-taken key enc_key unset_len regular contents ivs files tokens c made names enc =
      rw
        (
          upload,
          made,
          upload_loop-taken sock conn O key regular contents ivs 0 files tokens _ names enc,
          send_message-taken sock conn O msg_symkey enc_key c,
        )
        refl

  serve-symkey :
      (rounds : ℕ) (key enc_key rest : List ℕ) (srv : Server S)
      → rsa_encrypt_block O pub_key key true ≡ some enc_key
      → length key ≡ session_key_len
      → load_private_key O disk.private_key_pem ≡ some priv
      → incoming srv.net ≡ wire_message msg_symkey enc_key ++ rest
      → (s' : S) × (serve sock O disk (suc rounds) srv
          ≡ serve sock O disk rounds (record srv { session_key = some key; net = s' }))
        × (incoming s' ≡ rest)
  unfolding rsa_encrypt_block rsa_decrypt_block
  serve-symkey rounds key enc_key rest srv made size has_priv e =
      let e₁ = e ∙ append_assoc (wire_int msg_symkey) (wire_field enc_key) rest in
      let got =
        receive_int-ready sock conn msg_symkey (wire_field enc_key ++ rest) srv.net (omega arith)
          e₁ in
      let srv₁ : Server S = record srv { net = (receive_int sock srv.net).1 } in
      let block = pair.block_length oaep key enc_key made in
      let (s', keyed, left) =
        handle_symkey-ready sock conn O disk key enc_key rest priv srv₁ (omega (arith, block)) got.1
          has_priv (pair.decrypts oaep key enc_key made) size in
      (
        s',
        serve-message sock conn O disk msg_symkey rounds (wire_field enc_key ++ rest) srv
            (record srv { session_key = some key; net = s' }) (omega arith) e₁
            (handle-symkey sock conn O disk srv₁ ∙ keyed),
        left,
      )

  -- On connections that hold, with OpenSSL's laws and the server's private key belonging to the
  -- client's public key: when the client has encrypted its 32-byte session key and each file's
  -- token, and the server reads exactly the bytes that `upload` has sent for the typed names and
  -- the closing -1, then the server, given two rounds for each file and two more, leaves its loop,
  -- and has stored each file's own bytes, in order, behind what it had stored. The names must fit the server's
  -- array and their places be writable; the files are shorter than 2^31 - 16 bytes; the IVs have 16.
  pub serve-upload :
      (key enc_key : List ℕ) (unset_len : ℕ) (regular : List ℕ → Bool)
      (contents : List ℕ → Option (List ℕ)) (ivs : ℕ → Option (List ℕ)) (files : List File)
      (tokens : List (List ℕ)) (c : S) (srv : Server S) (rounds : ℕ)
      → rsa_encrypt_block O pub_key key true ≡ some enc_key
      → length key ≡ session_key_len
      → load_private_key O disk.private_key_pem ≡ some priv
      → ((j : ℕ) (i : List ℕ) → ivs j ≡ some i → length i ≡ aes_iv_len)
      → Sendable regular contents files
      → Storable disk files
      → Tokens O key ivs 0 files tokens
      → outgoing c ≡ []
      → incoming srv.net
        ≡ outgoing
            (upload sock O
              (some key)
              pub_key
              unset_len
              regular
              contents
              ivs
              (typed_lines files)
              c).1
      → 2 * length files + 2 ≤ rounds
      → ((serve sock O disk rounds srv).0 ≡ stop)
        × ((serve sock O disk rounds srv).1.saved ≡ srv.saved ++ stored files)
  serve-upload key enc_key unset_len regular contents ivs files tokens c srv zero made size has_priv
        sizes names store enc fresh wire enough =
      absurd (omega arith)
  serve-upload key enc_key unset_len regular contents ivs files tokens c srv (suc rounds) made size
        has_priv sizes names store enc fresh wire enough =
      let rest = wire_files files tokens ++ (wire_int msg_close ++ wire_int msg_close) in
      let sent =
        upload-taken key enc_key unset_len regular contents ivs files tokens c made names enc in
      let e = wire ∙ (sent ∙ ap (λ x. (x ++ wire_message msg_symkey enc_key) ++ rest) fresh) in
      let (s', one, left) = serve-symkey rounds key enc_key rest srv made size has_priv e in
      let dev = Deliverable-Tokens O laws disk key ivs 0 files tokens sizes store enc in
      let done =
        serve_files sock conn O disk rounds key files tokens (wire_int msg_close) priv
          (record srv { session_key = some key; net = s' }) (omega arith) dev has_priv refl left in
      (ap (λ r. r.0) one ∙ done.0, ap (λ r. r.1.saved) one ∙ done.1)
