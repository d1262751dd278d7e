-- ===== src/Transfer/Delivery/Sending.antt =====
-- The bytes that the client sends.
use corestack_peky.Common.{
  ℕ, ◌+◌, ◌≡◌, refl, sym, subst, ap, ◌∙◌, List, [], ◌∷◌, ◌++◌, append_assoc, Option, some, Bool,
  true, false,
}
use corestack_peky.Text.{str_eq}
use corestack_peky.Wire.Sockets.{Socket, send_int}
use corestack_peky.Wire.Messages.{IsOpen, wire_int, wire_field}
use corestack_peky.Wire.Duplex.{send_int-taken, send_field-taken}
use corestack_peky.Transfer.Openssl.{Openssl}
use corestack_peky.Transfer.Session.{session_encrypt}
use corestack_peky.Transfer.Server.{msg_filename, msg_file_data, msg_close}
use corestack_peky.Transfer.Client.{send_message, send_close, strip_newline, upload_loop}

pub record File : Type 0 where
  pub name : List ℕ
  pub bytes : List ℕ

abbrev pub wire_message : ℕ → List ℕ → List ℕ
wire_message msg_type payload = wire_int msg_type ++ wire_field payload

-- The bytes of the files' messages, with their tokens.
abbrev pub wire_files : List File → List (List ℕ) → List ℕ
wire_files [] tokens = []
wire_files (f ∷ files) [] = []
wire_files (f ∷ files) (token ∷ tokens) =
    wire_message msg_filename f.name
    ++ (wire_message msg_file_data token ++ wire_files files tokens)

-- Names that can be typed in, of files that are there.
abbrev pub Sendable : (List ℕ → Bool) → (List ℕ → Option (List ℕ)) → List File → Type 0
Sendable regular contents [] = Unit
Sendable regular contents (f ∷ files) =
    (strip_newline (f.name ++ (10 ∷ [])) ≡ f.name)
    × (str_eq f.name (45 ∷ 49 ∷ []) ≡ false)
    × (regular f.name ≡ true)
    × (contents f.name ≡ some f.bytes)
    × Sendable regular contents files

-- The tokens of the files, from the `k`-th IV on.
abbrev pub Tokens :
    (O : Openssl) → List ℕ → (ℕ → Option (List ℕ)) → ℕ → List File → List (List ℕ) → Type 0
Tokens O key ivs k [] [] = Unit
Tokens O key ivs k [] (token ∷ tokens) = ⊥
Tokens O key ivs k (f ∷ files) [] = ⊥
Tokens O key ivs k (f ∷ files) (token ∷ tokens) =
    (session_encrypt O key (ivs k) f.bytes ≡ some token) × Tokens O key ivs (k + 1) files tokens

-- What the user types: each name on a line, then -1.
abbrev pub typed_lines : List File → List (List ℕ)
typed_lines [] = (45 ∷ 49 ∷ 10 ∷ []) ∷ []
typed_lines (f ∷ files) = (f.name ++ (10 ∷ [])) ∷ typed_lines files

module _ {S : Type 0} (sock : Socket S) {incoming outgoing : S → List ℕ}
    (conn : IsOpen sock incoming outgoing) (O : Openssl) where
  pub send_message-taken :
      (t : ℕ) (payload : List ℕ) (s : S)
      → outgoing (send_message sock O t payload s) ≡ outgoing s ++ wire_message t payload
  unfolding send_message
  send_message-taken t payload s =
      send_field-taken sock conn payload (send_int sock t s).1
      ∙ (ap (λ x. x ++ wire_field payload) (send_int-taken sock conn t s)
          ∙ append_assoc (outgoing s) (wire_int t) (wire_field payload))

  -- A round of the loop, on a name to be sent.
  upload_loop-sent :
      (key : List ℕ) (regular : List ℕ → Bool) (contents : List ℕ → Option (List ℕ))
      (ivs : ℕ → Option (List ℕ)) (k : ℕ) (line file : List ℕ) (lines : List (List ℕ))
      (token : List ℕ) (s : S)
      → session_encrypt O key (ivs k) file ≡ some token
      → str_eq (strip_newline line) (45 ∷ 49 ∷ []) ≡ false
      → regular (strip_newline line) ≡ true
      → contents (strip_newline line) ≡ some file
      → upload_loop sock O key regular contents ivs k (line ∷ lines) s
        ≡ upload_loop sock O key regular contents ivs (k + 1) lines (
            send_message sock O msg_file_data token
              (send_message sock O msg_filename (strip_newline line) s))
  unfolding upload_loop
  upload_loop-sent key regular contents ivs k line file lines token s made other there had =
      rw (other, there, had, made) refl

  upload_loop-file :
      (key : List ℕ) (regular : List ℕ → Bool) (contents : List ℕ → Option (List ℕ))
      (ivs : ℕ → Option (List ℕ)) (k : ℕ) (f : File) (lines : List (List ℕ)) (token : List ℕ)
      (s : S)
      → session_encrypt O key (ivs k) f.bytes ≡ some token
      → strip_newline (f.name ++ (10 ∷ [])) ≡ f.name
      → str_eq f.name (45 ∷ 49 ∷ []) ≡ false
      → regular f.name ≡ true
      → contents f.name ≡ some f.bytes
      → upload_loop sock O key regular contents ivs k ((f.name ++ (10 ∷ [])) ∷ lines) s
        ≡ upload_loop sock O key regular contents ivs
            (k + 1)
            lines
            (send_message sock O msg_file_data token (send_message sock O msg_filename f.name s))
  upload_loop-file key regular contents ivs k f lines token s made line =
      subst
        (λ (name : List ℕ).
          str_eq name (45 ∷ 49 ∷ []) ≡ false
          → regular name ≡ true
          → contents name ≡ some f.bytes
          → upload_loop sock O key regular contents ivs k ((f.name ++ (10 ∷ [])) ∷ lines) s
            ≡ upload_loop sock O key regular contents ivs (k + 1) lines
                (send_message sock O msg_file_data token (send_message sock O msg_filename name s)))
        line
        (upload_loop-sent key regular contents ivs k (f.name ++ (10 ∷ [])) f.bytes lines token s
          made)

  upload_loop-end :
      (key : List ℕ) (regular : List ℕ → Bool) (contents : List ℕ → Option (List ℕ))
      (ivs : ℕ → Option (List ℕ)) (k : ℕ) (lines : List (List ℕ)) (s : S)
      → outgoing (upload_loop sock O key regular contents ivs k ((45 ∷ 49 ∷ 10 ∷ []) ∷ lines) s)
        ≡ outgoing s ++ (wire_int msg_close ++ wire_int msg_close)
  unfolding upload_loop send_close
  upload_loop-end key regular contents ivs k lines s =
      rw
        (
          send_int-taken sock conn msg_close (send_int sock msg_close s).1,
          send_int-taken sock conn msg_close s,
          append_assoc (outgoing s) (wire_int msg_close) (wire_int msg_close),
        )
        refl

  pub upload_loop-taken :
      (key : List ℕ) (regular : List ℕ → Bool) (contents : List ℕ → Option (List ℕ))
      (ivs : ℕ → Option (List ℕ)) (k : ℕ) (files : List File) (tokens : List (List ℕ)) (s : S)
      → Sendable regular contents files
      → Tokens O key ivs k files tokens
      → outgoing (upload_loop sock O key regular contents ivs k (typed_lines files) s)
        ≡ outgoing s ++ (wire_files files tokens ++ (wire_int msg_close ++ wire_int msg_close))
  upload_loop-taken key regular contents ivs k [] [] s names enc =
      upload_loop-end key regular contents ivs k [] s
  upload_loop-taken key regular contents ivs k [] (token ∷ tokens) s names enc = absurd enc
  upload_loop-taken key regular contents ivs k (f ∷ files) [] s names enc = absurd enc
  upload_loop-taken key regular contents ivs k (f ∷ files) (token ∷ tokens) s
        (line, other, there, had, names) (made, enc) =
      let s₁ = send_message sock O msg_filename f.name s in
      let s₂ = send_message sock O msg_file_data token s₁ in
      let closes = wire_int msg_close ++ wire_int msg_close in
      let a = wire_message msg_filename f.name in
      let b = wire_message msg_file_data token in
      let rest = wire_files files tokens in
      rw
        (
          upload_loop-file key regular contents ivs k f (typed_lines files) token s made line other
              there had,
          upload_loop-taken key regular contents ivs (k + 1) files tokens s₂ names enc,
          send_message-taken msg_file_data token s₁,
          send_message-taken msg_filename f.name s,
        )
        (append_assoc (outgoing s ++ a) b (rest ++ closes)
          ∙ append_assoc (outgoing s) a (b ++ (rest ++ closes))
          ∙ ap (λ x. outgoing s ++ x)
              (ap (λ x. a ++ x) (sym (append_assoc b rest closes))
                ∙ sym (append_assoc a (b ++ rest) closes)))
