-- ===== src/Transfer/Delivery/Serving.antt =====
-- What the server does with the bytes that the client sends.
use corestack_peky.Common.{
  ℕ, ◌<◌, ◌^◌, ◌≡◌, arith, List, [], ◌∷◌, ◌++◌, some, true, false, length, ltb, ◌==◌,
}
use corestack_peky.Text.{c_string}
use corestack_peky.Wire.Sockets.{Socket}
use corestack_peky.Wire.Messages.{IsOpen, receive, receive_int, wire_field}
use corestack_peky.Wire.Duplex.{field-ready}
use corestack_peky.Transfer.Openssl.{Openssl}
use corestack_peky.Transfer.Session.{session_decrypt, session_key_len}
use corestack_peky.Transfer.Blocks.{rsa_decrypt_block}
use corestack_peky.Transfer.Keys.{load_private_key}
use corestack_peky.Transfer.Server.{
  ◌>>=◌, Disk, Server, going, recv_path, filename_cap, handle_filename, handle_file_data,
  handle_symkey,
}
use corestack_peky.Transfer.Delivery.Sending.{File}

-- The server can store the files, and its session key opens their tokens.
abbrev pub Deliverable : Openssl → Disk → List ℕ → List File → List (List ℕ) → Type 0
Deliverable O disk key [] [] = Unit
Deliverable O disk key [] (token ∷ tokens) = ⊥
Deliverable O disk key (f ∷ files) [] = ⊥
Deliverable O disk key (f ∷ files) (token ∷ tokens) =
    (length f.name < filename_cap)
    × (c_string f.name ≡ f.name)
    × (disk.writable (recv_path f.name) ≡ true)
    × (length token < 2 ^ 64)
    × (session_decrypt O key token ≡ some f.bytes)
    × Deliverable O disk key files tokens

abbrev pub stored : List File → List (List ℕ × List ℕ)
stored [] = []
stored (f ∷ files) = (recv_path f.name, f.bytes) ∷ stored files

module _ {S : Type 0} (sock : Socket S) {incoming outgoing : S → List ℕ}
    (conn : IsOpen sock incoming outgoing) (O : Openssl) (disk : Disk) where
  pub handle_filename-ready :
      (name rest : List ℕ) (srv : Server S)
      → length name < filename_cap
      → incoming srv.net ≡ wire_field name ++ rest
      → (s' : S) × (handle_filename sock O disk srv
          ≡ (going tt, record srv { filename = name; net = s' }))
        × (incoming s' ≡ rest)
  unfolding handle_filename ◌>>=◌
  handle_filename-ready name rest srv fits e =
      let (got_len, got, left) = field-ready sock conn name rest srv.net (omega arith) e in
      let s' = (receive sock (length name) (receive_int sock srv.net).1).1 in
      let short : ltb filename_cap (length name) ≡ false = ground arith in
      (s', ground (arith, got_len, got, short), left)

  pub handle_file_data-ready :
      (key token rest content : List ℕ) (priv : O.PrivateKey) (srv : Server S)
      → length token < 2 ^ 64
      → incoming srv.net ≡ wire_field token ++ rest
      → srv.session_key ≡ some key
      → load_private_key O disk.private_key_pem ≡ some priv
      → session_decrypt O key token ≡ some content
      → length (c_string srv.filename) < filename_cap
      → disk.writable (recv_path (c_string srv.filename)) ≡ true
      → (s' : S) × (handle_file_data sock O disk srv ≡ (
        going tt,
        record srv {
          saved = srv.saved ++ ((recv_path (c_string srv.filename), content) ∷ []);
          net = s';
        },
      ))
        × (incoming s' ≡ rest)
  unfolding handle_file_data ◌>>=◌
  handle_file_data-ready key token rest content priv srv small e has_key has_priv opens fits can =
      let (got_len, got, left) = field-ready sock conn token rest srv.net small e in
      let s' = (receive sock (length token) (receive_int sock srv.net).1).1 in
      let short : ltb (length (c_string srv.filename)) filename_cap ≡ true = ground arith in
      (s', ground (arith, got_len, got, has_priv, has_key, opens, short, can), left)

  pub handle_symkey-ready :
      (key enc_key rest : List ℕ) (priv : O.PrivateKey) (srv : Server S)
      → length enc_key < 2 ^ 64
      → incoming srv.net ≡ wire_field enc_key ++ rest
      → load_private_key O disk.private_key_pem ≡ some priv
      → rsa_decrypt_block O priv enc_key true ≡ some key
      → length key ≡ session_key_len
      → (s' : S) × (handle_symkey sock O disk srv
          ≡ (going tt, record srv { session_key = some key; net = s' }))
        × (incoming s' ≡ rest)
  unfolding handle_symkey ◌>>=◌
  handle_symkey-ready key enc_key rest priv srv small e has_priv opens size =
      let (got_len, got, left) = field-ready sock conn enc_key rest srv.net small e in
      let s' = (receive sock (length enc_key) (receive_int sock srv.net).1).1 in
      let right : length key == session_key_len ≡ true = ground arith in
      (s', ground (arith, got_len, got, has_priv, opens, right), left)
