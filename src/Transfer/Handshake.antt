-- ===== src/Transfer/Handshake.antt =====
-- Both sides of the handshake: `handle_auth` of the server answering `auth` of the client.
use corestack_peky.Common.{
  ℕ, ◌<◌, ◌^◌, ◌≡◌, refl, sym, ap, ◌∙◌, arith, List, [], ◌++◌, append_assoc, append-nil, Option,
  some, true, length,
}
use corestack_peky.Wire.Sockets.{Socket, send_all, send_int}
use corestack_peky.Wire.Messages.{
  IsOpen, receive, receive_int, wire_int, wire_field, receive_int-ready,
}
use corestack_peky.Transfer.Openssl.{Openssl, IsPair}
use corestack_peky.Wire.Duplex.{
  receive-outgoing, receive_int-outgoing, field-ready, send_field-taken,
}
use corestack_peky.Transfer.Session.{session_key_len}
use corestack_peky.Transfer.Delivery.Sending.{wire_message}
use corestack_peky.Transfer.Delivery.Rounds.{serve-message}
use corestack_peky.Transfer.Keys.{
  load_private_key, load_cert_bytes, verify_server_cert, sign_message_pss, verify_message_pss,
}
use corestack_peky.Transfer.Server.{
  ◌>>=◌, Disk, Server, going, handle_auth, handle_message, serve, msg_auth,
}
use corestack_peky.Transfer.Client.{auth}
use corestack_peky.Transfer.Identity.{auth_lem}

module _ {S : Type 0} (sock : Socket S) {incoming outgoing : S → List ℕ}
    (conn : IsOpen sock incoming outgoing) (O : Openssl) where
  -- The signature and the certificate that `handle_auth` sends on a connection that holds.
  pub handle_auth_lem :
      (disk : Disk) (challenge sig crt rest : List ℕ) (priv : O.PrivateKey) (srv : Server S)
      → length challenge < 2 ^ 64
      → incoming srv.net ≡ wire_field challenge ++ rest
      → load_private_key O disk.private_key_pem ≡ some priv
      → sign_message_pss O priv challenge ≡ some sig
      → disk.server_signed_crt ≡ some crt
      → ((handle_auth sock O disk srv).0 ≡ going tt)
        × (outgoing (handle_auth sock O disk srv).1.net
            ≡ outgoing srv.net ++ (wire_field sig ++ wire_field crt))
  unfolding handle_auth ◌>>=◌
  handle_auth_lem disk challenge sig crt rest priv srv small e has_priv signs has_crt =
      let (got_len, got, left) = field-ready sock conn challenge rest srv.net small e in
      let s₁ = (receive_int sock srv.net).1 in
      let s₂ = (receive sock (length challenge) s₁).1 in
      let s₃ = (send_int sock (length sig) s₂).1 in
      let s₄ = (send_all sock sig s₃).1 in
      let s₅ = (send_int sock (length crt) s₄).1 in
      let s₆ = (send_all sock crt s₅).1 in
      let runs : handle_auth sock O disk srv ≡ (going tt, record srv { net = s₆ }) =
        ground (arith, got_len, got, has_priv, signs, has_crt) in
      (
        ap (λ r. r.0) runs,
        ap (λ r. outgoing r.1.net) runs
            ∙ (send_field-taken sock conn crt s₄
                ∙ (ap (λ x. x ++ wire_field crt)
                      (send_field-taken sock conn sig s₂
                        ∙ ap (λ x. x ++ wire_field sig)
                            (receive-outgoing sock conn.duplex (length challenge) s₁
                              ∙ receive_int-outgoing sock conn.duplex srv.net))
                    ∙ append_assoc (outgoing srv.net) (wire_field sig) (wire_field crt))),
      )

  handle-auth :
      (disk : Disk) (srv : Server S)
      → handle_message sock O disk msg_auth srv ≡ handle_auth sock O disk srv
  unfolding handle_message
  handle-auth disk srv = refl

  serve-none : (disk : Disk) (srv : Server S) → serve sock O disk 0 srv ≡ (going tt, srv)
  unfolding serve
  serve-none disk srv = refl

  verify-sign :
      {priv : O.PrivateKey} {pub_key : O.PublicKey} (pair : IsPair O priv pub_key)
      (cert : O.Certificate) (challenge sig : List ℕ)
      → O.get_pubkey cert ≡ some pub_key
      → sign_message_pss O priv challenge ≡ some sig
      → verify_message_pss O cert sig challenge ≡ true
  unfolding verify_message_pss sign_message_pss
  verify-sign pair cert challenge sig found signs =
      rw (verify_message_pss, found) (pair.verifies challenge sig signs)

  -- The handshake, on connections that hold: when the server reads the challenge that `auth` sends,
  -- and `auth` reads what the server sends in that round, then the server's loop goes on, `auth`
  -- answers the public key that belongs to the server's private key, and has sent that challenge and
  -- nothing else. The server's files hold that private key and a certificate of that public key
  -- which verifies against the authority's file.
  pub auth-serve :
      (disk : Disk) (challenge sig crt rest : List ℕ) (ca_file : Option (List ℕ))
      (cert : O.Certificate) {priv : O.PrivateKey} {pub_key : O.PublicKey}
      (pair : IsPair O priv pub_key) (s : S) (srv : Server S)
      → length challenge ≡ session_key_len
      → length sig < 2 ^ 64
      → length crt < 2 ^ 64
      → load_private_key O disk.private_key_pem ≡ some priv
      → disk.server_signed_crt ≡ some crt
      → load_cert_bytes O crt ≡ some cert
      → O.get_pubkey cert ≡ some pub_key
      → verify_server_cert O cert ca_file ≡ true
      → sign_message_pss O priv challenge ≡ some sig
      → incoming srv.net ≡ wire_message msg_auth challenge ++ rest
      → outgoing srv.net ≡ []
      → incoming s ≡ outgoing (serve sock O disk 1 srv).1.net
      → ((serve sock O disk 1 srv).0 ≡ going tt)
        × ((auth sock O (some challenge) ca_file s).0 ≡ some pub_key)
        × (outgoing (auth sock O (some challenge) ca_file s).1
            ≡ outgoing s ++ wire_message msg_auth challenge)
  auth-serve disk challenge sig crt rest ca_file cert {priv} {pub_key} pair s srv size small small'
        has_priv has_crt parsed found trusted signs e fresh wire =
      let field = wire_field challenge ++ rest in
      let e₁ = e ∙ append_assoc (wire_int msg_auth) (wire_field challenge) rest in
      let got = receive_int-ready sock conn msg_auth field srv.net (omega arith) e₁ in
      let srv₁ : Server S = record srv { net = (receive_int sock srv.net).1 } in
      let srv₂ = (handle_auth sock O disk srv₁).1 in
      let handled =
        handle_auth_lem disk challenge sig crt rest priv srv₁ (omega (arith, size)) got.1 has_priv
          signs has_crt in
      let runs : serve sock O disk 1 srv ≡ serve sock O disk 0 srv₂ =
        serve-message sock conn O disk msg_auth 0 field srv srv₂ (omega arith) e₁
          (handle-auth disk srv₁ ∙ ap (λ r. (r, srv₂)) handled.0) in
      let sent_back : incoming s ≡ wire_field sig ++ (wire_field crt ++ []) =
        wire
        ∙ (ap (λ r. outgoing r.1.net) (runs ∙ serve-none disk srv₂)
            ∙ (handled.1
                ∙ (ap (λ x. x ++ (wire_field sig ++ wire_field crt))
                      (receive_int-outgoing sock conn.duplex srv.net ∙ fresh)
                    ∙ ap (λ x. wire_field sig ++ x) (sym (append-nil (wire_field crt)))))) in
      let key =
        auth_lem sock conn O challenge sig crt [] ca_file cert pub_key s small small' size sent_back
          parsed trusted (verify-sign pair cert challenge sig found signs) found in
      (ap (λ r. r.0) (runs ∙ serve-none disk srv₂), key.0, key.1)
