-- ===== src/Raft/Boot.antt =====
-- `restore_pstate`, `create_log_file` and `initialise_raft_sm` of raft.c.
use corestack_peky.Common.{
  ℕ, ◌+◌, ◌-◌, Bool, true, false, List, [], ◌∷◌, leb, ◌==◌, if◌then◌else◌, update, not,
}
use corestack_peky.Common.Int.{pos}
use corestack_peky.Raft.Types.{
  LogEntry, LogLine, state_line, entry_line, truncate_line, other_line, PersistentState, RaftNode,
  Os, follower, raft_none, raft_log_cap, fresh_pstate, zero_node,
}
use corestack_peky.Raft.Os.{raft_reset_election_timer}

-- `r->pstate.log[r->pstate.log_len++] = entry`
unfoldable pub append_entry : PersistentState → LogEntry → PersistentState
append_entry p e = record p { log = update p.log p.log_len e; log_len = p.log_len + 1 }

restore_truncate : PersistentState → ℕ → PersistentState × Bool
restore_truncate p from =
    if from == 0
    then (p, false)
    else if leb from (p.log_len + 1)
    then (record p { log_len = from - 1 }, true)
    else (p, true)

restore_entry : PersistentState → LogEntry → PersistentState × Bool
restore_entry p e =
    if not (e.index == p.log_len + 1)
    then (p, false)
    else if leb raft_log_cap p.log_len
    then (p, false)
    else (append_entry p e, true)

-- One round of the loop of `restore_pstate`; false is its `return -1`.
unfoldable pub restore_line : PersistentState → LogLine → PersistentState × Bool
unfolding restore_truncate restore_entry append_entry
restore_line p (state_line term vote) = (record p { current_term = term; voted_for = vote }, true)
restore_line p (truncate_line from) = restore_truncate p from
restore_line p (entry_line e) = restore_entry p e
restore_line p other_line = (p, true)

unfoldable pub restore_lines : PersistentState → List LogLine → PersistentState × Bool
restore_lines p [] = (p, true)
restore_lines p (l ∷ ls) =
    let (p', fine) = restore_line p l in
    let rest = restore_lines p' ls in if fine then rest else (p', false)

-- `open(…, O_RDONLY)` of the log file: opened (and `fdopen`ed), ENOENT, or another error.
pub data OpenOutcome : Type 0 where
  opened missing refused : OpenOutcome

unfoldable pub restore_pstate : OpenOutcome → RaftNode → RaftNode × Bool
restore_pstate missing r = (r, true)
restore_pstate refused r = (r, false)
restore_pstate opened r =
    let (p, fine) = restore_lines r.pstate r.os.lines in (record r { pstate = p }, fine)

-- `creates` tells whether `open(…, O_WRONLY | O_CREAT | O_APPEND)` succeeds.
unfoldable pub create_log_file : Bool → RaftNode → RaftNode
create_log_file creates r = record r { log_open = creates }

unfoldable pub initialise_raft_sm : OpenOutcome → Bool → Os → ℕ → RaftNode
unfolding create_log_file restore_pstate
initialise_raft_sm opens creates os id =
    let z = zero_node os in
    let r = record z {
      state = follower;
      id = id;
      leader_id = raft_none;
      pstate = fresh_pstate;
      heartbeat_interval_ms = pos 50;
    } in
    let (r', fine) = restore_pstate opens (raft_reset_election_timer r) in
    if fine then create_log_file creates r' else r'
