-- ===== src/Wire/Progress.antt =====
-- What a read leaves of the bytes to be read.
use corestack_peky.Common.{
  ℕ, zero, suc, ◌+◌, ◌-◌, ◌≤◌, ◌≡◌, ap, arith, List, [], ◌++◌, length, length-append, min, ltb,
  some, true, Bool-cases, Option-cases, inl, inr, ltb→lt,
}
use corestack_peky.Wire.Ints.{int_bytes}
use corestack_peky.Wire.Sockets.{
  Socket, read_loop, read_bytes, Transfer, finished, broken, unfinished, read_bytes_lem,
  ReadOutcome,
}
use corestack_peky.Wire.Messages.{IsDuplex, receive, receive_int, answered}

module _ {S : Type 0} (sock : Socket S) {incoming outgoing : S → List ℕ}
    (conn : IsDuplex sock incoming outgoing) where
  read_loop-incoming :
      (fuel : ℕ) (got : List ℕ) (len : ℕ) (s : S)
      → length (incoming (read_loop sock fuel got len s).1) ≤ length (incoming s)
  unfolding read_loop
  read_loop-incoming zero got len s = elim (Bool-cases (ltb (length got) len)) [
    | inl t ↦ rw t (omega arith)
    | inr f ↦ rw f (omega arith)
  ]
  read_loop-incoming (suc fuel) got len s =
      let n = min (len - length got) 1024 in
      elim (Bool-cases (ltb (length got) len)) [
        | inr f ↦ rw f (omega arith)
        | inl t ↦
            let lt = ltb→lt (length got) len t in
            elim (Option-cases (sock.recv s n).0) [
              | inl o ↦ rw (t, o) (omega (arith, ap length (conn.recv_none s n o)))
              | inr (bs, o) ↦
                  let law =
                    conn.stream.recv_bytes s (sock.recv s n).1 n bs (omega arith)
                      (ap (λ x. (x, (sock.recv s n).1)) o) in
                  rw (t, o)
                    (omega (
                      arith,
                      ap length law.2,
                      length-append bs (incoming (sock.recv s n).1),
                      read_loop-incoming fuel (got ++ bs) len (sock.recv s n).1,
                    ))
            ]
      ]

  pub receive-incoming :
      (n : ℕ) (s : S) → length (incoming (receive sock n s).1) ≤ length (incoming s)
  unfolding receive read_bytes
  receive-incoming n s = read_loop-incoming n [] n s

  ReadOutcome-length :
      (len : ℕ) (bs : List ℕ) (s : S) (r : Transfer × S)
      → ReadOutcome sock conn.stream [] len s r
      → answered r.0 ≡ some bs
      → len + length (incoming r.1) ≡ length (incoming s)
  ReadOutcome-length len bs s (finished all, s') o e =
      omega (arith, o.0, ap length o.1, length-append all (incoming s'))
  ReadOutcome-length len bs s (broken, s') o e = absurd (ground arith)
  ReadOutcome-length len bs s (unfinished, s') o e = absurd o

  receive-takes :
      (n : ℕ) (bs : List ℕ) (s : S)
      → (receive sock n s).0 ≡ some bs
      → n + length (incoming (receive sock n s).1) ≡ length (incoming s)
  unfolding receive
  receive-takes n bs s e = elim (read_bytes_lem sock conn.stream true n s) [
    | inl (bad, _) ↦ absurd (ground arith)
    | inr o ↦ ReadOutcome-length n bs s (read_bytes sock true n s) o e
  ]

  pub receive_int-takes :
      (v : ℕ) (s : S)
      → (receive_int sock s).0 ≡ some v
      → 8 + length (incoming (receive_int sock s).1) ≡ length (incoming s)
  unfolding receive_int
  receive_int-takes v s e = elim (Option-cases (receive sock int_bytes s).0) [
    | inl o ↦ absurd (ground (arith, o))
    | inr (bs, o) ↦ receive-takes int_bytes bs s o
  ]
