-- ===== src/Transfer/Identity.antt =====
-- Whose key `auth` of the client answers, and what `handle_auth` of the server lets it answer.
use corestack_peky.Common.{
  ℕ, ◌<◌, ◌^◌, ◌≡◌, refl, sym, ap, ◌∙◌, arith, List, ◌++◌, append_assoc, Option, some, Option-cases,
  Bool, true, false, length, inl, inr,
}
use corestack_peky.Wire.Sockets.{Socket, finished, send_all, send_int}
use corestack_peky.Wire.Messages.{
  IsOpen, receive, receive_int, wire_int, wire_field, send_all-taken,
}
use corestack_peky.Transfer.Openssl.{Openssl}
use corestack_peky.Wire.Duplex.{
  send_all-finished, send_all-incoming, receive-outgoing, receive_int-outgoing, field-ready,
}
use corestack_peky.Transfer.Session.{session_key_len}
use corestack_peky.Transfer.Delivery.Sending.{wire_message}
use corestack_peky.Transfer.Keys.{load_cert_bytes, verify_server_cert, verify_message_pss}
use corestack_peky.Transfer.Server.{msg_auth}
use corestack_peky.Transfer.Client.{Link, ◌>>=◌, auth, check}

-- A chain of `auth` that answers something got something from its first piece.
link-some :
    {S A B : Type 0} (m : Link S A) (f : A → Link S B) (s : S) (b : B)
    → ((m >>= f) s).0 ≡ some b
    → (a : A) × ((m s).0 ≡ some a) × ((f a (m s).1).0 ≡ some b)
unfolding ◌>>=◌
link-some m f s b h = elim (Option-cases (m s).0) [
  | inl e ↦ absurd (ground (arith, e, h))
  | inr (a, e) ↦ (a, e, rw (◌>>=◌, e) at h)
]

check-true : {S : Type 0} (b : Bool) (s : S) → (check b s).0 ≡ some tt → b ≡ true
check-true true s h = refl
check-true false s h = absurd (ground arith)

module _ {S : Type 0} (sock : Socket S) (O : Openssl) where
  -- When `auth` answers a key, it is the key of a certificate that was verified against the
  -- authority's file, and a signature over this run's challenge was verified with that certificate.
  pub auth_sound :
      (challenge : List ℕ) (ca_file : Option (List ℕ)) (s : S) (key : O.PublicKey)
      → (auth sock O (some challenge) ca_file s).0 ≡ some key
      → (cert : O.Certificate) × (sig : List ℕ) × (verify_server_cert O cert ca_file ≡ true)
        × (verify_message_pss O cert sig challenge ≡ true)
        × (O.get_pubkey cert ≡ some key)
  unfolding auth
  auth_sound challenge ca_file s key h =
      let (c, got, h₁) = link-some _ _ s key h in
      let (_, _, h₂) = link-some _ _ _ key h₁ in
      let (_, _, h₃) = link-some _ _ _ key h₂ in
      let (_, _, h₄) = link-some _ _ _ key h₃ in
      let (sig_len, _, h₅) = link-some _ _ _ key h₄ in
      let (sig, _, h₆) = link-some _ _ _ key h₅ in
      let (crt_len, _, h₇) = link-some _ _ _ key h₆ in
      let (crt, _, h₈) = link-some _ _ _ key h₇ in
      let (cert, _, h₉) = link-some _ _ _ key h₈ in
      let (_, trusted, h₁₀) = link-some _ _ _ key h₉ in
      let (_, signed, found) = link-some _ _ _ key h₁₀ in
      let right = check-true (verify_message_pss O cert sig c) _ signed in
      let same : c ≡ challenge = grind (arith, got) in
      (
        cert,
        sig,
        check-true (verify_server_cert O cert ca_file) _ trusted,
        ap (verify_message_pss O cert sig) (sym same) ∙ right,
        found,
      )

module _ {S : Type 0} (sock : Socket S) {incoming outgoing : S → List ℕ}
    (conn : IsOpen sock incoming outgoing) (O : Openssl) where
  send_int-finished : (v : ℕ) (s : S) → (bs : List ℕ) × ((send_int sock v s).0 ≡ finished bs)
  unfolding send_int
  send_int-finished v s = send_all-finished sock conn (wire_int v) s

  -- What the three sends of `auth` leave.
  abbrev after_challenge : List ℕ → S → S
  after_challenge challenge s =
      (send_all sock challenge (send_int sock session_key_len (send_int sock msg_auth s).1).1).1

  incoming-after_challenge :
      (challenge : List ℕ) (s : S) → incoming (after_challenge challenge s) ≡ incoming s
  unfolding send_int
  incoming-after_challenge challenge s =
      let s₁ = (send_int sock msg_auth s).1 in
      send_all-incoming sock conn.duplex challenge (send_int sock session_key_len s₁).1
      ∙ (send_all-incoming sock conn.duplex (wire_int session_key_len) s₁
          ∙ send_all-incoming sock conn.duplex (wire_int msg_auth) s)

  outgoing-after_challenge :
      (challenge : List ℕ) (s : S)
      → length challenge ≡ session_key_len
      → outgoing (after_challenge challenge s) ≡ outgoing s ++ wire_message msg_auth challenge
  unfolding send_int
  outgoing-after_challenge challenge s size =
      let s₁ = (send_int sock msg_auth s).1 in
      let n = wire_int session_key_len in
      rw
        (
          send_all-taken sock conn challenge (send_int sock session_key_len s₁).1,
          send_all-taken sock conn n s₁,
          send_all-taken sock conn (wire_int msg_auth) s,
          size,
          append_assoc (outgoing s ++ wire_int msg_auth) n challenge,
          append_assoc (outgoing s) (wire_int msg_auth) (n ++ challenge),
        )
        refl

  -- On a connection that holds, `auth` that reads a signature and a certificate which verify answers
  -- the certificate's key, and has sent the challenge.
  pub auth_lem :
      (challenge sig crt rest : List ℕ) (ca_file : Option (List ℕ)) (cert : O.Certificate)
      (key : O.PublicKey) (s : S)
      → length sig < 2 ^ 64
      → length crt < 2 ^ 64
      → length challenge ≡ session_key_len
      → incoming s ≡ wire_field sig ++ (wire_field crt ++ rest)
      → load_cert_bytes O crt ≡ some cert
      → verify_server_cert O cert ca_file ≡ true
      → verify_message_pss O cert sig challenge ≡ true
      → O.get_pubkey cert ≡ some key
      → ((auth sock O (some challenge) ca_file s).0 ≡ some key)
        × (outgoing (auth sock O (some challenge) ca_file s).1
            ≡ outgoing s ++ wire_message msg_auth challenge)
  unfolding auth ◌>>=◌
  auth_lem challenge sig crt rest ca_file cert key s small small' size e parsed trusted signed
        found =
      let s₁ = (send_int sock msg_auth s).1 in
      let s₃ = after_challenge challenge s in
      let (sig_len, got_sig, left) =
        field-ready sock conn sig (wire_field crt ++ rest) s₃ small
          (incoming-after_challenge challenge s ∙ e) in
      let s₅ = (receive sock (length sig) (receive_int sock s₃).1).1 in
      let (crt_len, got_crt, left') = field-ready sock conn crt rest s₅ small' left in
      let s₇ = (receive sock (length crt) (receive_int sock s₅).1).1 in
      let runs : auth sock O (some challenge) ca_file s ≡ (some key, s₇) = ground (
        arith,
        (send_int-finished msg_auth s).1,
        (send_int-finished session_key_len s₁).1,
        (send_all-finished sock conn challenge (send_int sock session_key_len s₁).1).1,
        sig_len,
        got_sig,
        crt_len,
        got_crt,
        parsed,
        trusted,
        signed,
        found,
      ) in
      (
        ap (λ r. r.0) runs,
        ap (λ r. outgoing r.1) runs
            ∙ (receive-outgoing sock conn.duplex (length crt) (receive_int sock s₅).1
                ∙ (receive_int-outgoing sock conn.duplex s₅
                    ∙ (receive-outgoing sock conn.duplex (length sig) (receive_int sock s₃).1
                        ∙ (receive_int-outgoing sock conn.duplex s₃
                            ∙ outgoing-after_challenge challenge s size)))),
      )
