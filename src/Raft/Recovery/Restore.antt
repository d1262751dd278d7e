-- ===== src/Raft/Recovery/Restore.antt =====
-- Reading the log file back, line by line: `restore_pstate` against the writes of `persist_*`.
use corestack_peky.Common.{ℕ, ◌+◌, ◌-◌, ◌≤◌, ◌<◌, ◌≡◌, refl, true, List, [], ◌∷◌, ◌++◌, arith}
use corestack_peky.Raft.Types.{
  LogLine, LogEntry, state_line, entry_line, truncate_line, PersistentState, raft_log_cap,
  fresh_pstate,
}
use corestack_peky.Raft.Boot.{append_entry, restore_line, restore_lines}

-- Equal terms, votes and live entries; what an array holds behind `log_len` does not count.
pub record Same (p q : PersistentState) : Type 0 where
  pub term : p.current_term ≡ q.current_term
  pub vote : p.voted_for ≡ q.voted_for
  pub len : p.log_len ≡ q.log_len
  pub entries : (i : ℕ) → i < p.log_len → p.log i ≡ q.log i

-- A node that starts from these lines has this persistent state.
abbrev pub Recovers : List LogLine → PersistentState → Type 0
Recovers ls p = let (q, fine) = restore_lines fresh_pstate ls in (fine ≡ true) × Same q p

pub restore_lines-append :
    (p : PersistentState) (ls : List LogLine) (l : LogLine)
    → (restore_lines p ls).1 ≡ true
    → restore_lines p (ls ++ l ∷ []) ≡ restore_line (restore_lines p ls).0 l
unfolding restore_lines
restore_lines-append p [] l h = ground arith
restore_lines-append p (k ∷ ls) l h = ground (arith, restore_lines-append (restore_line p k).0 ls l)

restore_line-entry :
    (p : PersistentState) (e : LogEntry)
    → e.index ≡ p.log_len + 1
    → p.log_len < raft_log_cap
    → restore_line p (entry_line e) ≡ (append_entry p e, true)
unfolding restore_line
restore_line-entry p e idx room = ground arith

restore_line-truncate :
    (p : PersistentState) (from : ℕ)
    → 0 < from
    → from ≤ p.log_len + 1
    → restore_line p (truncate_line from) ≡ (record p { log_len = from - 1 }, true)
unfolding restore_line
restore_line-truncate p from h le = ground arith

pub append_entry-Same :
    {p q : PersistentState} (e : LogEntry) → Same p q → Same (append_entry p e) (append_entry q e)
unfolding append_entry
append_entry-Same {p} {q} e s = record {
  term = s.term;
  vote = s.vote;
  len = omega (arith, s.len);
  entries = λ i h. ground (arith, s.entries i, s.len);
}

-- Each line that the node writes carries the recovered state along with the node's.
module _ (ls : List LogLine) (p : PersistentState) (r : Recovers ls p) where
  pub Recovers-state :
      (t v : ℕ)
      → Recovers (ls ++ state_line t v ∷ []) (record p { current_term = t; voted_for = v })
  Recovers-state t v = rw (restore_lines-append fresh_pstate ls (state_line t v) r.0) (
      unfold restore_line in
      (refl, record { term = refl; vote = refl; len = r.1.len; entries = r.1.entries }))

  pub Recovers-entry :
      (e : LogEntry)
      → e.index ≡ p.log_len + 1
      → p.log_len < raft_log_cap
      → Recovers (ls ++ entry_line e ∷ []) (append_entry p e)
  Recovers-entry e idx room =
      rw
        (
          restore_lines-append fresh_pstate ls (entry_line e) r.0,
          restore_line-entry (restore_lines fresh_pstate ls).0 e (omega (arith, r.1.len))
              (omega (arith, r.1.len)),
        )
        (refl, append_entry-Same e r.1)

  pub Recovers-truncate :
      (from : ℕ)
      → 0 < from
      → from ≤ p.log_len + 1
      → Recovers (ls ++ truncate_line from ∷ []) (record p { log_len = from - 1 })
  Recovers-truncate from h le =
      rw
        (
          restore_lines-append fresh_pstate ls (truncate_line from) r.0,
          restore_line-truncate (restore_lines fresh_pstate ls).0 from h (omega (arith, r.1.len)),
        )
        (
          refl,
          record {
            term = r.1.term;
            vote = r.1.vote;
            len = refl;
            entries = λ i lt. r.1.entries i (omega (arith, r.1.len));
          },
        )
