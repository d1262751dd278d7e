-- ===== src/Transfer/Delivery/Rounds.antt =====
-- The rounds of the server's loop on what the client sent, and the whole of a transfer.
use corestack_peky.Common.{
  ℕ, zero, suc, ◌+◌, ◌*◌, ◌≤◌, ◌<◌, ◌^◌, ◌≡◌, refl, sym, ap, ◌∙◌, arith, List, [], ◌∷◌, ◌++◌,
  append_assoc, append-nil, some, true, length,
}
use corestack_peky.Text.{c_string}
use corestack_peky.Wire.Sockets.{Socket}
use corestack_peky.Wire.Messages.{IsOpen, receive_int, wire_int, wire_field, receive_int-ready}
use corestack_peky.Transfer.Openssl.{Openssl}
use corestack_peky.Transfer.Session.{session_decrypt}
use corestack_peky.Transfer.Keys.{load_private_key}
use corestack_peky.Transfer.Server.{
  Disk, Server, going, stop, recv_path, filename_cap, handle_filename, handle_file_data,
  handle_symkey, handle_message, serve, msg_filename, msg_file_data, msg_close, msg_symkey, ◌>>=◌,
}
use corestack_peky.Transfer.Delivery.Sending.{File, wire_message, wire_files}
use corestack_peky.Transfer.Delivery.Serving.{
  Deliverable, stored, handle_filename-ready, handle_file_data-ready,
}

module _ {S : Type 0} (sock : Socket S) {incoming outgoing : S → List ℕ}
    (conn : IsOpen sock incoming outgoing) (O : Openssl) (disk : Disk) where
  pub serve-message :
      (t rounds : ℕ) (rest : List ℕ) (srv srv' : Server S)
      → t < 2 ^ 64
      → incoming srv.net ≡ wire_int t ++ rest
      → handle_message sock O disk t (record srv { net = (receive_int sock srv.net).1 })
        ≡ (going tt, srv')
      → serve sock O disk (suc rounds) srv ≡ serve sock O disk rounds srv'
  unfolding serve ◌>>=◌
  serve-message t rounds rest srv srv' small e handled =
      let got = receive_int-ready sock conn t rest srv.net small e in
      rw (serve, got.0, ◌>>=◌, ap (λ r. r.0) handled)
        (ap (serve sock O disk rounds) (ap (λ r. r.1) handled))

  serve-close :
      (rounds : ℕ) (rest : List ℕ) (srv : Server S)
      → incoming srv.net ≡ wire_int msg_close ++ rest
      → serve sock O disk (suc rounds) srv
        ≡ (stop, record srv { net = (receive_int sock srv.net).1 })
  unfolding serve handle_message
  serve-close rounds rest srv e =
      let got = receive_int-ready sock conn msg_close rest srv.net (omega arith) e in
      rw (serve, got.0) refl

  handle-filename :
      (srv : Server S)
      → handle_message sock O disk msg_filename srv ≡ handle_filename sock O disk srv
  unfolding handle_message
  handle-filename srv = refl

  handle-file_data :
      (srv : Server S)
      → handle_message sock O disk msg_file_data srv ≡ handle_file_data sock O disk srv
  unfolding handle_message
  handle-file_data srv = refl

  pub handle-symkey :
      (srv : Server S) → handle_message sock O disk msg_symkey srv ≡ handle_symkey sock O disk srv
  unfolding handle_message
  handle-symkey srv = refl

  -- Both messages of a file, one round each.
  serve-file :
      (rounds : ℕ) (key : List ℕ) (f : File) (token rest : List ℕ) (priv : O.PrivateKey)
      (srv : Server S)
      → length f.name < filename_cap
      → c_string f.name ≡ f.name
      → disk.writable (recv_path f.name) ≡ true
      → length token < 2 ^ 64
      → session_decrypt O key token ≡ some f.bytes
      → load_private_key O disk.private_key_pem ≡ some priv
      → srv.session_key ≡ some key
      → incoming srv.net
        ≡ wire_message msg_filename f.name ++ (wire_message msg_file_data token ++ rest)
      → (s' : S) × (serve sock O disk (suc (suc rounds)) srv
          ≡ serve sock O disk rounds (record srv {
            filename = f.name;
            saved = srv.saved ++ ((recv_path f.name, f.bytes) ∷ []);
            net = s';
          }))
        × (incoming s' ≡ rest)
  serve-file rounds key f token rest priv srv fits text can small opens has_priv has_key e =
      let second = wire_message msg_file_data token ++ rest in
      let e₁ = e ∙ append_assoc (wire_int msg_filename) (wire_field f.name) second in
      let got₁ =
        receive_int-ready sock conn msg_filename (wire_field f.name ++ second) srv.net (omega arith)
          e₁ in
      let srv₁ : Server S = record srv { net = (receive_int sock srv.net).1 } in
      let (s₂, named, left₂) =
        handle_filename-ready sock conn O disk f.name second srv₁ fits got₁.1 in
      let srv₂ : Server S = record srv { filename = f.name; net = s₂ } in
      let e₂ = left₂ ∙ append_assoc (wire_int msg_file_data) (wire_field token) rest in
      let got₂ =
        receive_int-ready sock conn msg_file_data (wire_field token ++ rest) s₂ (omega arith) e₂ in
      let srv₃ : Server S = record srv₂ { net = (receive_int sock s₂).1 } in
      let (s₄, saved, left₄) =
        handle_file_data-ready sock conn O disk key token rest f.bytes priv srv₃ small got₂.1
          has_key has_priv opens (rw text fits) (rw text can) in
      (
        s₄,
        serve-message msg_filename (suc rounds) (wire_field f.name ++ second) srv srv₂ (omega arith)
              e₁ (handle-filename srv₁ ∙ named)
            ∙ serve-message msg_file_data rounds (wire_field token ++ rest) srv₂
                (record srv₂ { saved = srv.saved ++ ((recv_path f.name, f.bytes) ∷ []); net = s₄ })
                (omega arith) e₂
                (handle-file_data srv₃
                  ∙ (saved
                      ∙ ap
                          (λ (name : List ℕ). (
                            going (tt {0}),
                            record srv₂ {
                              saved = srv.saved ++ ((recv_path name, f.bytes) ∷ []);
                              net = s₄;
                            },
                          ))
                          text)),
        left₄,
      )

  -- The rounds of the files' messages, and that of the closing one.
  pub serve_files :
      (rounds : ℕ) (key : List ℕ) (files : List File) (tokens : List (List ℕ)) (rest : List ℕ)
      (priv : O.PrivateKey) (srv : Server S)
      → 2 * length files + 1 ≤ rounds
      → Deliverable O disk key files tokens
      → load_private_key O disk.private_key_pem ≡ some priv
      → srv.session_key ≡ some key
      → incoming srv.net ≡ wire_files files tokens ++ (wire_int msg_close ++ rest)
      → ((serve sock O disk rounds srv).0 ≡ stop)
        × ((serve sock O disk rounds srv).1.saved ≡ srv.saved ++ stored files)
  serve_files zero key files tokens rest priv srv enough dev has_priv has_key e =
      absurd (omega arith)
  serve_files (suc rounds) key [] [] rest priv srv enough dev has_priv has_key e =
      let closed = serve-close rounds rest srv e in
      (ap (λ r. r.0) closed, ap (λ r. r.1.saved) closed ∙ sym (append-nil srv.saved))
  serve_files (suc rounds) key [] (token ∷ tokens) rest priv srv enough dev has_priv has_key e =
      absurd dev
  serve_files (suc rounds) key (f ∷ files) [] rest priv srv enough dev has_priv has_key e =
      absurd dev
  serve_files (suc zero) key (f ∷ files) (token ∷ tokens) rest priv srv enough dev has_priv has_key
        e =
      absurd (omega arith)
  serve_files (suc (suc rounds)) key (f ∷ files) (token ∷ tokens) rest priv srv enough
        (fits, text, can, small, opens, dev) has_priv has_key e =
      let more = wire_files files tokens ++ (wire_int msg_close ++ rest) in
      let a = wire_message msg_filename f.name in
      let b = wire_message msg_file_data token in
      let tail = wire_int msg_close ++ rest in
      let e' : incoming srv.net ≡ a ++ (b ++ more) =
        e
        ∙ append_assoc a (b ++ wire_files files tokens) tail
        ∙ ap (λ x. a ++ x) (append_assoc b (wire_files files tokens) tail) in
      let (s', two, left) =
        serve-file rounds key f token more priv srv fits text can small opens has_priv has_key e' in
      let srv' : Server S = record srv {
        filename = f.name;
        saved = srv.saved ++ ((recv_path f.name, f.bytes) ∷ []);
        net = s';
      } in
      let ih =
        serve_files rounds key files tokens rest priv srv' (omega arith) dev has_priv has_key
          left in
      (
        ap (λ r. r.0) two ∙ ih.0,
        ap (λ r. r.1.saved) two
            ∙ (ih.1 ∙ append_assoc srv.saved ((recv_path f.name, f.bytes) ∷ []) (stored files)),
      )
