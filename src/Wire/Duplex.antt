-- ===== src/Wire/Duplex.antt =====
-- The two directions of a connection: what sending leaves of the bytes to be read, what receiving
-- leaves of the bytes sent.
use corestack_peky.Common.{
  ℕ, zero, suc, ◌-◌, ◌≡◌, ◌≢◌, ◌<◌, ◌^◌, append_assoc, refl, ap, ◌∙◌, List, [], ◌∷◌, ◌++◌, length,
  drop, min, ltb, some, Bool-cases, Option-cases, inl, inr,
}
use corestack_peky.Wire.Ints.{int_bytes}
use corestack_peky.Wire.Sockets.{
  Socket, Transfer, finished, broken, unfinished, read_loop, read_bytes, send_all, send_int,
  send_loop, SendOutcome, send_all_lem,
}
use corestack_peky.Wire.Messages.{
  IsDuplex, IsOpen, receive, receive_int, send_all-unbroken, send_all-taken, wire_int, wire_field,
  receive-ready, receive_int-ready,
}

module _ {S : Type 0} (net : Socket S) {incoming outgoing : S → List ℕ}
    (conn : IsDuplex net incoming outgoing) where
  read_loop-outgoing :
      (fuel : ℕ) (got : List ℕ) (len : ℕ) (s : S)
      → outgoing (read_loop net fuel got len s).1 ≡ outgoing s
  unfolding read_loop
  read_loop-outgoing zero got len s = elim (Bool-cases (ltb (length got) len)) [
    | inl t ↦ rw t refl
    | inr f ↦ rw f refl
  ]
  read_loop-outgoing (suc fuel) got len s =
      let n = min (len - length got) 1024 in
      elim (Bool-cases (ltb (length got) len)) [
        | inr f ↦ rw f refl
        | inl t ↦ elim (Option-cases (net.recv s n).0) [
          | inl o ↦ rw (t, o) (conn.recv_out s n)
          | inr (bs, o) ↦
              rw (t, o)
                (read_loop-outgoing fuel (got ++ bs) len (net.recv s n).1 ∙ conn.recv_out s n)
        ]
      ]

  pub receive-outgoing : (n : ℕ) (s : S) → outgoing (receive net n s).1 ≡ outgoing s
  unfolding receive read_bytes
  receive-outgoing n s = read_loop-outgoing n [] n s

  pub receive_int-outgoing : (s : S) → outgoing (receive_int net s).1 ≡ outgoing s
  unfolding receive_int
  receive_int-outgoing s = receive-outgoing int_bytes s

  send_loop-incoming :
      (fuel : ℕ) (bytes : List ℕ) (s : S) → incoming (send_loop net fuel bytes s).1 ≡ incoming s
  unfolding send_loop
  send_loop-incoming fuel [] s = refl
  send_loop-incoming zero (b ∷ rest) s = refl
  send_loop-incoming (suc fuel) (b ∷ rest) s = elim (Option-cases (net.send s (b ∷ rest)).0) [
    | inl o ↦ rw (send_loop, o) (conn.send_in s (b ∷ rest))
    | inr (n, o) ↦
        rw (send_loop, o)
          (send_loop-incoming fuel (drop n (b ∷ rest)) (net.send s (b ∷ rest)).1
            ∙ conn.send_in s (b ∷ rest))
  ]

  pub send_all-incoming : (bytes : List ℕ) (s : S) → incoming (send_all net bytes s).1 ≡ incoming s
  unfolding send_all
  send_all-incoming bytes s = send_loop-incoming (length bytes) bytes s

module _ {S : Type 0} (net : Socket S) {incoming outgoing : S → List ℕ}
    (conn : IsOpen net incoming outgoing) where
  finished-Outcome :
      (bytes : List ℕ) (s : S) (r : Transfer × S)
      → SendOutcome net conn.duplex.stream bytes s r
      → r.0 ≢ broken
      → (bs : List ℕ) × (r.0 ≡ finished bs)
  finished-Outcome bytes s (finished bs, s') o ok = (bs, refl)
  finished-Outcome bytes s (broken, s') o ok = absurd (ok refl)
  finished-Outcome bytes s (unfinished, s') o ok = absurd o

  -- On a connection that holds, all of the bytes are sent.
  pub send_all-finished :
      (bytes : List ℕ) (s : S) → (bs : List ℕ) × ((send_all net bytes s).0 ≡ finished bs)
  send_all-finished bytes s =
      finished-Outcome bytes s (send_all net bytes s) (send_all_lem net conn.duplex.stream bytes s)
        (send_all-unbroken net conn bytes s)

  pub field-ready :
      (p rest : List ℕ) (s : S)
      → length p < 2 ^ 64
      → incoming s ≡ wire_field p ++ rest
      → let s' = (receive_int net s).1 in
        ((receive_int net s).0 ≡ some (length p))
        × ((receive net (length p) s').0 ≡ some p)
        × (incoming (receive net (length p) s').1 ≡ rest)
  field-ready p rest s small e =
      let a =
        receive_int-ready net conn (length p) (p ++ rest) s small
          (e ∙ append_assoc (wire_int (length p)) p rest) in
      let b = receive-ready net conn p rest (receive_int net s).1 a.1 in (a.0, b.0, b.1)

  pub send_int-taken : (v : ℕ) (s : S) → outgoing (send_int net v s).1 ≡ outgoing s ++ wire_int v
  unfolding send_int
  send_int-taken v s = send_all-taken net conn (wire_int v) s

  pub send_field-taken :
      (p : List ℕ) (s : S)
      → outgoing (send_all net p (send_int net (length p) s).1).1 ≡ outgoing s ++ wire_field p
  send_field-taken p s =
      send_all-taken net conn p (send_int net (length p) s).1
      ∙ (ap (λ x. x ++ p) (send_int-taken (length p) s)
          ∙ append_assoc (outgoing s) (wire_int (length p)) p)
