-- ===== src/Transfer/Ends.antt =====
-- The server's loop ends: each round takes at least the eight bytes of a message type.
use corestack_peky.Common.{
  ℕ, zero, suc, ◌≤◌, ◌<◌, ◌≢◌, ap, arith, List, length, Option, none, some, Option-cases, inl, inr,
}
use corestack_peky.Wire.Ints.{int_bytes}
use corestack_peky.Wire.Sockets.{Socket, send_int}
use corestack_peky.Wire.Messages.{IsDuplex, receive_int, wire_int}
use corestack_peky.Wire.Duplex.{send_all-incoming}
use corestack_peky.Wire.Progress.{receive-incoming, receive_int-takes}
use corestack_peky.Transfer.Openssl.{Openssl}
use corestack_peky.Transfer.Server.{
  Disk, Server, Ending, going, stop, crash, Act, ◌>>=◌, fetch_int, fetch, need, save, decrypt_data,
  no_data, send_field, handle_filename, handle_file_data, handle_auth, handle_symkey,
  handle_message, serve,
}

module _ {S : Type 0} (sock : Socket S) {incoming outgoing : S → List ℕ}
    (conn : IsDuplex sock incoming outgoing) (O : Openssl) (disk : Disk) where
  -- A piece of the loop that leaves no more bytes to be read than there were.
  abbrev Shrinks : {A : Type 0} → Act S A → Type 0
  Shrinks m = (srv : Server S) → length (incoming (m srv).1.net) ≤ length (incoming srv.net)

  bind-case :
      {A B : Type 0} (f : A → Act S B) (r : Ending A) (srv : Server S) (bound : ℕ)
      → length (incoming srv.net) ≤ bound
      → ((a : A) → Shrinks (f a))
      → length (
          incoming
            (elim r as (λ e. Ending B × Server S) [
              | going a ↦ f a srv
              | stop ↦ (stop, srv)
              | crash ↦ (crash, srv)
            ]).1.net)
        ≤ bound
  bind-case f (going a) srv bound le q = omega (arith, q a srv)
  bind-case f stop srv bound le q = le
  bind-case f crash srv bound le q = le

  Shrinks-bind :
      {A B : Type 0} (m : Act S A) (f : A → Act S B)
      → Shrinks m
      → ((a : A) → Shrinks (f a))
      → Shrinks (m >>= f)
  unfolding ◌>>=◌
  Shrinks-bind m f p q srv = bind-case f (m srv).0 (m srv).1 _ (p srv) q

  fetch_int-Shrinks : Shrinks (fetch_int sock O disk)
  unfolding receive_int
  fetch_int-Shrinks srv = receive-incoming sock conn int_bytes srv.net

  fetch-Shrinks : (n : ℕ) → Shrinks (fetch sock O disk n)
  fetch-Shrinks n srv = receive-incoming sock conn n srv.net

  need-Shrinks : {A : Type 0} (e : Ending A) (o : Option A) → Shrinks (need e o)
  need-Shrinks e none srv = omega arith
  need-Shrinks e (some a) srv = omega arith

  send_field-Shrinks : (bytes : List ℕ) → Shrinks (send_field sock O disk bytes)
  unfolding send_int
  send_field-Shrinks bytes srv =
      let s₁ = (send_int sock (length bytes) srv.net).1 in
      omega (
        arith,
        ap length (send_all-incoming sock conn bytes s₁),
        ap length (send_all-incoming sock conn (wire_int (length bytes)) srv.net),
      )

  save-Shrinks : (content : List ℕ) → Shrinks (save sock O disk content)
  save-Shrinks content srv = ground arith

  decrypt_data-Shrinks :
      (enc : List ℕ) (priv : O.PrivateKey) → Shrinks (decrypt_data sock O disk enc priv)
  decrypt_data-Shrinks enc priv srv = ground arith

  no_data-Shrinks : (enc_len : ℕ) → Shrinks (no_data sock O disk enc_len)
  no_data-Shrinks enc_len srv = ground arith

  content-Shrinks :
      (n : ℕ) (buf : Option (List ℕ)) (priv : O.PrivateKey)
      → Shrinks (elim buf as (λ b. Act S (List ℕ)) [
        | none ↦ no_data sock O disk n
        | some enc ↦ decrypt_data sock O disk enc priv
      ])
  content-Shrinks n none priv = no_data-Shrinks n
  content-Shrinks n (some enc) priv = decrypt_data-Shrinks enc priv

  handle_filename-Shrinks : Shrinks (handle_filename sock O disk)
  unfolding handle_filename
  handle_filename-Shrinks = Shrinks-bind _ _ fetch_int-Shrinks (λ n.
      Shrinks-bind _ _ (fetch-Shrinks n)
        (λ buf. Shrinks-bind _ _ (need-Shrinks crash buf) (λ name srv. ground arith)))

  handle_file_data-Shrinks : Shrinks (handle_file_data sock O disk)
  unfolding handle_file_data
  handle_file_data-Shrinks = Shrinks-bind _ _ fetch_int-Shrinks (λ n.
      Shrinks-bind _ _ (fetch-Shrinks n) (λ buf.
        Shrinks-bind _ _ (need-Shrinks stop _)
          (λ priv. Shrinks-bind _ _ (content-Shrinks n buf priv) save-Shrinks)))

  handle_auth-Shrinks : Shrinks (handle_auth sock O disk)
  unfolding handle_auth
  handle_auth-Shrinks = Shrinks-bind _ _ fetch_int-Shrinks (λ n.
      Shrinks-bind _ _ (fetch-Shrinks n) (λ buf.
        Shrinks-bind _ _ (need-Shrinks stop buf) (λ challenge.
          Shrinks-bind _ _ (need-Shrinks stop _) (λ priv.
            Shrinks-bind _ _ (need-Shrinks stop _) (λ sig.
              Shrinks-bind _ _ (send_field-Shrinks sig)
                (λ _. Shrinks-bind _ _ (need-Shrinks stop _) send_field-Shrinks))))))

  handle_symkey-Shrinks : Shrinks (handle_symkey sock O disk)
  unfolding handle_symkey
  handle_symkey-Shrinks = Shrinks-bind _ _ fetch_int-Shrinks (λ n.
      Shrinks-bind _ _ (fetch-Shrinks n) (λ buf.
        Shrinks-bind _ _ (need-Shrinks stop buf) (λ enc_key.
          Shrinks-bind _ _ (need-Shrinks stop _)
            (λ priv. Shrinks-bind _ _ (need-Shrinks stop _) (λ key srv. ground arith)))))

  handle_message-Shrinks : (t : ℕ) → Shrinks (handle_message sock O disk t)
  unfolding handle_message
  handle_message-Shrinks t srv = ground (
    arith,
    handle_filename-Shrinks srv,
    handle_file_data-Shrinks srv,
    handle_auth-Shrinks srv,
    handle_symkey-Shrinks srv,
  )

  serve-bind :
      (rounds : ℕ) (r : Ending (Unit {0})) (srv : Server S)
      → ((srv' : Server S)
          → length (incoming srv'.net) < rounds
          → (serve sock O disk rounds srv').0 ≢ going tt)
      → length (incoming srv.net) < rounds
      → (elim r as (λ e. Ending (Unit {0}) × Server S) [
        | going a ↦ serve sock O disk rounds srv
        | stop ↦ (stop, srv)
        | crash ↦ (crash, srv)
      ]).0
        ≢ going tt
  serve-bind rounds (going a) srv ih less = ih srv less
  serve-bind rounds stop srv ih less = λ e. ground arith
  serve-bind rounds crash srv ih less = λ e. ground arith

  -- The server's loop ends: on a connection with any behaviour of its peer, more rounds than there
  -- are bytes to be read are enough for the loop to be left (or for behaviour to be undefined).
  pub serve_ends :
      (rounds : ℕ) (srv : Server S)
      → length (incoming srv.net) < rounds
      → (serve sock O disk rounds srv).0 ≢ going tt
  unfolding serve ◌>>=◌
  serve_ends zero srv less = absurd (omega arith)
  serve_ends (suc rounds) srv less = elim (Option-cases (receive_int sock srv.net).0) [
    | inl o ↦ rw (serve, o) (λ e. ground arith)
    | inr (t, o) ↦
        let srv₁ : Server S = record srv { net = (receive_int sock srv.net).1 } in
        let taken = receive_int-takes sock conn t srv.net o in
        let le = handle_message-Shrinks t srv₁ in
        rw (serve, o)
          (serve-bind rounds (handle_message sock O disk t srv₁).0
            (handle_message sock O disk t srv₁).1 (serve_ends rounds) (omega arith))
  ]
