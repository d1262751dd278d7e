-- ===== src/Wire/Messages.antt =====
-- Reading and writing the fields of a message: an integer, or bytes behind their length.
use corestack_peky.Common.{
  ℕ, zero, suc, ◌+◌, ◌-◌, ◌≤◌, ◌<◌, ◌^◌, ◌≡◌, ◌≢◌, ap, sym, ◌∙◌, refl, arith, List, [], ◌∷◌, ◌++◌,
  length, ltb, Option, none, some, true, slice, inl, inr, length-append, drop, min, Bool-cases,
  Option-cases, ltb→lt, append-inj,
}
use corestack_peky.Text.{char_at}
use corestack_peky.Wire.Ints.{
  int_bytes, int_to_bytes, bytes_to_int, get_bytes, bytes_to_int-int_to_bytes,
}
use corestack_peky.Wire.Sockets.{
  Socket, IsStream, Transfer, finished, broken, unfinished, read_loop, read_bytes, send_all,
  send_loop, ReadOutcome, read_bytes_lem, SendOutcome, send_all_lem,
}

-- The buffer that `read_bytes` answers, or NULL.
abbrev pub answered : Transfer → Option (List ℕ)
answered (finished bs) = some bs
answered broken = none
answered unfinished = none

module _ {S : Type 0} (net : Socket S) where
  -- `read_bytes(sockfd, n)`, with `malloc` in working order
  unfoldable pub receive : ℕ → S → Option (List ℕ) × S
  receive n s = let (t, s') = read_bytes net true n s in (answered t, s')

  -- `bytes_to_int(read_bytes(sockfd, INT_BYTES))`; `none` is a NULL buffer.
  unfoldable pub receive_int : S → Option ℕ × S
  receive_int s =
      let (o, s') = receive int_bytes s in
      (elim o [ none ↦ none | some bs ↦ some (bytes_to_int (char_at bs)) ], s')

-- The bytes of an integer, and of a field behind its length.
abbrev pub wire_int : ℕ → List ℕ
wire_int v = slice (int_to_bytes v (λ i. 0)) 0 int_bytes

abbrev pub wire_field : List ℕ → List ℕ
wire_field bs = wire_int (length bs) ++ bs

bytes_to_int-slice : (a : ℕ → ℕ) → bytes_to_int (char_at (slice a 0 int_bytes)) ≡ bytes_to_int a
unfolding bytes_to_int get_bytes
bytes_to_int-slice a = refl

pub bytes_to_int-wire_int : (v : ℕ) → v < 2 ^ 64 → bytes_to_int (char_at (wire_int v)) ≡ v
bytes_to_int-wire_int v small =
    bytes_to_int-slice (int_to_bytes v (λ i. 0)) ∙ (bytes_to_int-int_to_bytes v (λ i. 0) small).0

-- A connection: a stream whose two directions do not disturb each other.
pub record IsDuplex {S : Type 0} (net : Socket S) (incoming outgoing : S → List ℕ) : Type 0 where
  pub stream : IsStream net incoming outgoing
  pub recv_out : (s : S) (n : ℕ) → outgoing (net.recv s n).1 ≡ outgoing s
  pub recv_none : (s : S) (n : ℕ) → (net.recv s n).0 ≡ none → incoming (net.recv s n).1 ≡ incoming s
  pub send_in : (s : S) (bs : List ℕ) → incoming (net.send s bs).1 ≡ incoming s

-- A connection that holds: bytes that are there are delivered, and bytes are taken.
pub record IsOpen {S : Type 0} (net : Socket S) (incoming outgoing : S → List ℕ) : Type 0 where
  pub duplex : IsDuplex net incoming outgoing
  pub ready : (s : S) (n : ℕ) → 1 ≤ n → 1 ≤ length (incoming s) → (net.recv s n).0 ≢ none
  pub takes : (s : S) (bs : List ℕ) → 1 ≤ length bs → (net.send s bs).0 ≢ none

module _ {S : Type 0} (net : Socket S) {incoming outgoing : S → List ℕ}
    (conn : IsOpen net incoming outgoing) where
  read_loop-unbroken :
      (fuel : ℕ) (got : List ℕ) (len : ℕ) (s : S)
      → len ≤ length got + length (incoming s)
      → (read_loop net fuel got len s).0 ≢ broken
  unfolding read_loop
  read_loop-unbroken zero got len s enough = elim (Bool-cases (ltb (length got) len)) [
    | inl t ↦ rw t (λ e. ground arith)
    | inr f ↦ rw f (λ e. ground arith)
  ]
  read_loop-unbroken (suc fuel) got len s enough =
      let n = min (len - length got) 1024 in
      elim (Bool-cases (ltb (length got) len)) [
        | inr f ↦ rw f (λ e. ground arith)
        | inl t ↦
            let lt = ltb→lt (length got) len t in
            elim (Option-cases (net.recv s n).0) [
              | inl o ↦ absurd (conn.ready s n (omega arith) (omega arith) o)
              | inr (bs, o) ↦
                  let law =
                    conn.duplex.stream.recv_bytes s (net.recv s n).1 n bs (omega arith)
                      (ap (λ x. (x, (net.recv s n).1)) o) in
                  let total = length-append got bs in
                  let left : length (incoming s) ≡ length bs + length (incoming (net.recv s n).1) =
                    ap length law.2 ∙ length-append bs (incoming (net.recv s n).1) in
                  rw (t, o)
                    (read_loop-unbroken fuel (got ++ bs) len (net.recv s n).1
                      (omega (arith, total, left)))
            ]
      ]

  ReadOutcome-ready :
      (bs rest : List ℕ) (s : S) (r : Transfer × S)
      → incoming s ≡ bs ++ rest
      → ReadOutcome net conn.duplex.stream [] (length bs) s r
      → r.0 ≢ broken
      → (answered r.0 ≡ some bs) × (incoming r.1 ≡ rest)
  ReadOutcome-ready bs rest s (finished all, s') e o ok =
      let same = append-inj all bs (incoming s') rest (sym o.1 ∙ e) o.0 in (ap some same.0, same.1)
  ReadOutcome-ready bs rest s (broken, s') e o ok = absurd (ok refl)
  ReadOutcome-ready bs rest s (unfinished, s') e o ok = absurd o

  pub receive-ready :
      (bs rest : List ℕ) (s : S)
      → incoming s ≡ bs ++ rest
      → ((receive net (length bs) s).0 ≡ some bs) × (incoming (receive net (length bs) s).1 ≡ rest)
  unfolding receive read_bytes
  receive-ready bs rest s e =
      let size = length-append bs rest in
      let ok = read_loop-unbroken (length bs) [] (length bs) s (omega (arith, size, ap length e)) in
      elim (read_bytes_lem net conn.duplex.stream true (length bs) s) [
        | inl (no_memory, _) ↦ absurd (ground arith)
        | inr o ↦ ReadOutcome-ready bs rest s (read_bytes net true (length bs) s) e o ok
      ]

  pub receive_int-ready :
      (v : ℕ) (rest : List ℕ) (s : S)
      → v < 2 ^ 64
      → incoming s ≡ wire_int v ++ rest
      → ((receive_int net s).0 ≡ some v) × (incoming (receive_int net s).1 ≡ rest)
  unfolding receive_int
  receive_int-ready v rest s small e =
      let got : ((receive net int_bytes s).0 ≡ some (wire_int v))
          × (incoming (receive net int_bytes s).1 ≡ rest) =
        receive-ready (wire_int v) rest s e in
      let value = bytes_to_int-wire_int v small in (rw (receive_int, got.0, value) refl, got.1)

  send_loop-unbroken : (fuel : ℕ) (bytes : List ℕ) (s : S) → (send_loop net fuel bytes s).0 ≢ broken
  unfolding send_loop
  send_loop-unbroken fuel [] s = λ e. ground arith
  send_loop-unbroken zero (b ∷ rest) s = λ e. ground arith
  send_loop-unbroken (suc fuel) (b ∷ rest) s = elim (Option-cases (net.send s (b ∷ rest)).0) [
    | inl o ↦ absurd (conn.takes s (b ∷ rest) (omega arith) o)
    | inr (n, o) ↦
        rw (send_loop, o) (send_loop-unbroken fuel (drop n (b ∷ rest)) (net.send s (b ∷ rest)).1)
  ]

  pub send_all-unbroken : (bytes : List ℕ) (s : S) → (send_all net bytes s).0 ≢ broken
  unfolding send_all
  send_all-unbroken bytes s = send_loop-unbroken (length bytes) bytes s

  SendOutcome-taken :
      (bytes : List ℕ) (s : S) (r : Transfer × S)
      → SendOutcome net conn.duplex.stream bytes s r
      → r.0 ≢ broken
      → outgoing r.1 ≡ outgoing s ++ bytes
  SendOutcome-taken bytes s (finished bs, s') o ok = o
  SendOutcome-taken bytes s (broken, s') o ok = absurd (ok refl)
  SendOutcome-taken bytes s (unfinished, s') o ok = absurd o

  pub send_all-taken :
      (bytes : List ℕ) (s : S) → outgoing (send_all net bytes s).1 ≡ outgoing s ++ bytes
  send_all-taken bytes s =
      SendOutcome-taken bytes s (send_all net bytes s) (send_all_lem net conn.duplex.stream bytes s)
        (send_all-unbroken bytes s)
