-- ===== src/Wire/Sockets.antt =====
-- The socket helpers of libtetrissh/common.c. `recv` and `send` are not the repository's code: they
-- are operations of a record, with the law POSIX gives a stream socket.
use corestack_peky.Common.{
  ℕ, zero, suc, ◌+◌, ◌-◌, ◌≤◌, ◌≡◌, ap, sym, refl, arith, List, [], ◌∷◌, ◌++◌, append_assoc,
  append-nil, length, ltb, if◌then◌else◌, Option, none, some, Bool, true, false, slice, ◌⊎◌, inl,
  inr, length-append, take, drop, min, length-drop, take-drop, Bool-cases, Option-cases, ltb→lt,
}
use corestack_peky.Wire.Ints.{int_bytes, int_to_bytes}

-- `recv sock n` answers the next bytes, or nothing when it returns 0 or less; `send sock bytes`
-- answers how many of the bytes it took, or nothing when it returns 0 or less.
pub record Socket (S : Type 0) : Type 0 where
  pub recv : S → ℕ → Option (List ℕ) × S
  pub send : S → List ℕ → Option ℕ × S

-- A stream socket: `incoming` is what the peer's bytes have left to deliver, `outgoing` what was
-- handed to the peer.
pub record IsStream {S : Type 0} (net : Socket S) (incoming outgoing : S → List ℕ) : Type 0 where
  pub recv_bytes :
      (s s' : S) (n : ℕ) (bs : List ℕ)
      → 1 ≤ n
      → net.recv s n ≡ (some bs, s')
      → (1 ≤ length bs) × (length bs ≤ n) × (incoming s ≡ bs ++ incoming s')
  pub send_bytes :
      (s s' : S) (bs : List ℕ) (n : ℕ)
      → net.send s bs ≡ (some n, s')
      → (1 ≤ n) × (n ≤ length bs) × (outgoing s' ≡ outgoing s ++ take n bs)

-- `unfinished`: the rounds allowed to a loop ran out.
pub data Transfer : Type 0 where
  finished : List ℕ → Transfer
  broken : Transfer
  unfinished : Transfer

module _ {S : Type 0} (net : Socket S) where
  -- The rounds left of the loop; `got` is what `buffer` holds so far.
  unfoldable pub read_loop : ℕ → List ℕ → ℕ → S → Transfer × S
  read_loop zero got len s = if ltb (length got) len then (unfinished, s) else (finished got, s)
  read_loop (suc fuel) got len s =
      if ltb (length got) len
      then (let (o, s') = net.recv s (min (len - length got) 1024) in
          elim o [ none ↦ (broken, s') | some bs ↦ read_loop fuel (got ++ bs) len s' ])
      else (finished got, s)

  -- `allocated`: malloc answered a buffer.
  unfoldable pub read_bytes : Bool → ℕ → S → Transfer × S
  read_bytes allocated len s = if allocated then read_loop len [] len s else (broken, s)

  -- `rest` is what `buf + total_sent` holds up to `length`.
  unfoldable pub send_loop : ℕ → List ℕ → S → Transfer × S
  send_loop fuel [] s = (finished [], s)
  send_loop zero (b ∷ rest) s = (unfinished, s)
  send_loop (suc fuel) (b ∷ rest) s =
      let (o, s') = net.send s (b ∷ rest) in
      elim o [ none ↦ (broken, s') | some n ↦ send_loop fuel (drop n (b ∷ rest)) s' ]

  unfoldable pub send_all : List ℕ → S → Transfer × S
  send_all bytes s = send_loop (length bytes) bytes s

  unfoldable pub send_int : ℕ → S → Transfer × S
  send_int value s = send_all (slice (int_to_bytes value (λ i. 0)) 0 int_bytes) s

module _ {S : Type 0} (net : Socket S) {incoming outgoing : S → List ℕ}
    (stream : IsStream net incoming outgoing) where
  -- What a read answers: the bytes that were next, or that `recv` failed.
  abbrev pub ReadOutcome : List ℕ → ℕ → S → Transfer × S → Type 0
  ReadOutcome got len s (finished bs, s') =
      (length bs ≡ len) × (got ++ incoming s ≡ bs ++ incoming s')
  ReadOutcome got len s (broken, s') = (t : S) × (n : ℕ) × (net.recv t n ≡ (none, s'))
  ReadOutcome got len s (unfinished, s') = ⊥

  ReadOutcome-more :
      (got bs : List ℕ) (len : ℕ) (s s' : S) (r : Transfer × S)
      → incoming s ≡ bs ++ incoming s'
      → ReadOutcome (got ++ bs) len s' r
      → ReadOutcome got len s r
  ReadOutcome-more got bs len s s' (finished all, e) h o =
      (o.0, rw (h, ← append_assoc got bs (incoming s')) o.1)
  ReadOutcome-more got bs len s s' (broken, e) h o = o
  ReadOutcome-more got bs len s s' (unfinished, e) h o = o

  read_loop_lem :
      (fuel : ℕ) (got : List ℕ) (len : ℕ) (s : S)
      → length got ≤ len
      → len ≤ length got + fuel
      → ReadOutcome got len s (read_loop net fuel got len s)
  unfolding read_loop
  read_loop_lem zero got len s le enough = elim (Bool-cases (ltb (length got) len)) [
    | inl t ↦ absurd (omega (arith, ltb→lt (length got) len t))
    | inr f ↦ rw f (ground arith, refl)
  ]
  read_loop_lem (suc fuel) got len s le enough =
      let n = min (len - length got) 1024 in
      elim (Bool-cases (ltb (length got) len)) [
        | inr f ↦ rw f (ground arith, refl)
        | inl t ↦
            let lt = ltb→lt (length got) len t in
            elim (Option-cases (net.recv s n).0) [
              | inl o ↦ rw (t, o) (s, n, ap (λ x. (x, (net.recv s n).1)) o)
              | inr (bs, o) ↦
                  let law =
                    stream.recv_bytes s (net.recv s n).1 n bs (ground arith)
                      (ap (λ x. (x, (net.recv s n).1)) o) in
                  let total = length-append got bs in
                  rw (t, o)
                    (ReadOutcome-more got bs len s (net.recv s n).1 _ law.2 (
                      read_loop_lem fuel (got ++ bs) len (net.recv s n).1 (ground arith)
                        (ground arith)))
            ]
      ]

  -- `read_bytes` answers exactly the next `length` bytes of the stream, whatever chunks they came
  -- in, or fails because `malloc` or a `recv` failed; it never runs out of rounds.
  pub read_bytes_lem :
      (allocated : Bool) (len : ℕ) (s : S)
      → ((allocated ≡ false) × (read_bytes net allocated len s ≡ (broken, s)))
        ⊎ ReadOutcome [] len s (read_bytes net allocated len s)
  unfolding read_bytes
  read_bytes_lem false len s = inl (refl, refl)
  read_bytes_lem true len s = inr (read_loop_lem len [] len s (omega arith) (omega arith))

  -- What a write answers: that all of the bytes were handed over in order, or that `send` failed
  -- after a first part of them.
  abbrev pub SendOutcome : List ℕ → S → Transfer × S → Type 0
  SendOutcome bytes s (finished bs, s') = outgoing s' ≡ outgoing s ++ bytes
  SendOutcome bytes s (broken, s') =
      (sent : List ℕ) × (rest : List ℕ) × (t : S) × (bytes ≡ sent ++ rest)
      × (outgoing t ≡ outgoing s ++ sent)
      × (net.send t rest ≡ (none, s'))
  SendOutcome bytes s (unfinished, s') = ⊥

  SendOutcome-more :
      (n : ℕ) (bytes : List ℕ) (s s' : S) (r : Transfer × S)
      → outgoing s' ≡ outgoing s ++ take n bytes
      → SendOutcome (drop n bytes) s' r
      → SendOutcome bytes s r
  SendOutcome-more n bytes s s' (finished bs, e) h o =
      rw (o, h, append_assoc (outgoing s) (take n bytes) (drop n bytes), take-drop n bytes)
  SendOutcome-more n bytes s s' (broken, e) h (sent, rest, t, parts, out, fail) = (
    take n bytes ++ sent,
    rest,
    t,
    rw (append_assoc (take n bytes) sent rest, ← parts, take-drop n bytes),
    rw (out, h, append_assoc (outgoing s) (take n bytes) sent),
    fail,
  )
  SendOutcome-more n bytes s s' (unfinished, e) h o = o

  send_loop_lem :
      (fuel : ℕ) (bytes : List ℕ) (s : S)
      → length bytes ≤ fuel
      → SendOutcome bytes s (send_loop net fuel bytes s)
  unfolding send_loop
  send_loop_lem fuel [] s le = sym (append-nil (outgoing s))
  send_loop_lem zero (b ∷ rest) s le = absurd (omega arith)
  send_loop_lem (suc fuel) (b ∷ rest) s le = elim (Option-cases (net.send s (b ∷ rest)).0) [
    | inl o ↦
        rw (send_loop, o)
          (
            [],
            b ∷ rest,
            s,
            refl,
            sym (append-nil (outgoing s)),
            ap (λ x. (x, (net.send s (b ∷ rest)).1)) o,
          )
    | inr (n, o) ↦
        let law =
          stream.send_bytes s (net.send s (b ∷ rest)).1 (b ∷ rest) n
            (ap (λ x. (x, (net.send s (b ∷ rest)).1)) o) in
        rw (send_loop, o)
          (SendOutcome-more n (b ∷ rest) s (net.send s (b ∷ rest)).1 _ law.2 (
            send_loop_lem fuel (drop n (b ∷ rest)) (net.send s (b ∷ rest)).1
              (omega (arith, length-drop n (b ∷ rest), law))))
  ]

  -- `send_all` hands over all of the bytes in order, whatever parts `send` took, or fails because a
  -- `send` failed after a first part of them; it never runs out of rounds.
  pub send_all_lem : (bytes : List ℕ) (s : S) → SendOutcome bytes s (send_all net bytes s)
  unfolding send_all
  send_all_lem bytes s = send_loop_lem (length bytes) bytes s (omega arith)
