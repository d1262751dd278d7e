-- ===== src/Raft/Recovery/Durable.antt =====
-- A log file that restores the persistent state, and the writes that keep it so.
use corestack_peky.Common.{
  ℕ, ◌+◌, ◌-◌, ◌≤◌, ◌<◌, ◌≡◌, refl, true, List, ◌⊎◌, inl, inr, arith, Bool-cases, leb, Bool,
}
use corestack_peky.Raft.Types.{
  LogLine, failed, LogEntry, state_line, entry_line, truncate_line, PersistentState, Os, RaftNode,
  raft_none, raft_log_cap,
}
use corestack_peky.Raft.Os.{log_write}
use corestack_peky.Raft.Os.Lines.{lines-log_write, lines-now-random}
use corestack_peky.Raft.Boot.{append_entry}
use corestack_peky.Raft.Election.{update_term_locked}
use corestack_peky.Raft.Recovery.Restore.{
  Recovers, Recovers-state, Recovers-entry, Recovers-truncate,
}

pub record Durable (ls : List LogLine) (p : PersistentState) : Type 0 where
  pub room : p.log_len ≤ raft_log_cap
  pub indexed : (i : ℕ) → i < p.log_len → (p.log i).index ≡ i + 1
  pub recovers : Recovers ls p

-- The node has given up, or a restart would bring back its persistent state.
abbrev pub Safe : RaftNode → Type 0
Safe r = (r.state ≡ failed) ⊎ Durable r.os.lines r.pstate

module _ (os : Os) {p : PersistentState} (d : Durable os.lines p) (open? : Bool) where
  pub Durable-state :
      (t v : ℕ)
      → (log_write (state_line t v) open? os).1 ≡ true
      → Durable
          (log_write (state_line t v) open? os).0.lines
          (record p { current_term = t; voted_for = v })
  Durable-state t v w = record {
    room = d.room;
    indexed = d.indexed;
    recovers = rw (lines-log_write _ open? os w) (Recovers-state os.lines p d.recovers t v);
  }

  pub Durable-entry :
      (e : LogEntry)
      → e.index ≡ p.log_len + 1
      → p.log_len < raft_log_cap
      → (log_write (entry_line e) open? os).1 ≡ true
      → Durable (log_write (entry_line e) open? os).0.lines (append_entry p e)
  Durable-entry e idx free w = record {
    room = unfold append_entry in omega arith;
    indexed = unfold append_entry in λ i h. ground (arith, d.indexed i);
    recovers = rw (lines-log_write _ open? os w) (Recovers-entry os.lines p d.recovers e idx free);
  }

  pub Durable-truncate :
      (from : ℕ)
      → 0 < from
      → from ≤ p.log_len
      → (log_write (truncate_line from) open? os).1 ≡ true
      → Durable (log_write (truncate_line from) open? os).0.lines (record p { log_len = from - 1 })
  Durable-truncate from h le w = record {
    room = omega (arith, d.room);
    indexed = λ i lt. d.indexed i (omega arith);
    recovers =
        rw (lines-log_write _ open? os w)
          (Recovers-truncate os.lines p d.recovers from h (omega arith));
  }

pub update_term_locked-Safe :
    (r : RaftNode) (t : ℕ) → Durable r.os.lines r.pstate → Safe (update_term_locked r t).0
unfolding update_term_locked
update_term_locked-Safe r t d = elim (Bool-cases (leb t r.pstate.current_term)) [
  | inl old ↦ rw old (inr d)
  | inr new ↦ elim (Bool-cases (log_write (state_line t raft_none) r.log_open r.os).1) [
    | inl w ↦ rw (new, w, lines-now-random) (inr (Durable-state _ d r.log_open t raft_none w))
    | inr w ↦ rw (new, w) (inl refl)
  ]
]
