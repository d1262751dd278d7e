-- ===== src/Raft/Scenarios.antt =====
-- The theorems on logs, commitment and recovery of raft.c at concrete nodes.
use corestack_peky.Common.{
  ℕ, ◌+◌, ◌-◌, ◌<◌, ◌≤◌, ◌≡◌, refl, true, false, inl, inr, ◌⊎◌, arith, u64, [], ◌∷◌, some,
  if◌then◌else◌, ltb, min, slice,
}
use corestack_peky.Common.Int.{pos}
use corestack_peky.Raft.Types.{
  state_line, follower, candidate, leader, LogEntry, RaftNode, Os, AppendEntriesRequest,
  AppendEntriesResponse, write_error, zero_node, zero_entry, raft_append_batch,
}
use corestack_peky.Raft.Os.{
  log_write, raft_election_timeout_expired, raft_now_msec, raft_random_election_timeout,
  raft_reset_election_timer,
}
use corestack_peky.Raft.Boot.{initialise_raft_sm, opened, missing}
use corestack_peky.Raft.Election.{raft_timeout, update_term_locked, find_peer_idx, heartbeat_tick}
use corestack_peky.Raft.Replication.{
  raft_append_entries, append_one, append_loop, store_entry, accept_entries, log_matches,
  learn_commit, follow_leader, handle_append_entries_request, advance_commit_index_locked,
  advance_from, commits_at, raft_commit_entry,
}
use corestack_peky.Raft.Events.{append_request, step, here, next}
use corestack_peky.Raft.Append.{Accepted, append_success, append_refused}
use corestack_peky.Raft.Commit.{
  MayCommit, due, applied, advance_commit_index_locked_lem, raft_commit_entry_lem,
}
use corestack_peky.Raft.Replicate.{Agree, append_complete, replication}
use corestack_peky.Raft.Heartbeat.{
  FailedWrite, acknowledged, heartbeat_commits, single_entry_stalls, raft_timeout-write_error,
}
use corestack_peky.Raft.Recovery.Restore.{Same}
use corestack_peky.Raft.Recovery.Calls.{crash_recovery, initialise_raft_sm-Durable}

abbrev quiet_os : Os
quiet_os = record { lines = []; writes = []; clock = pos 1000 ∷ pos 1000 ∷ []; rands = [] }

abbrev at_index : ℕ → ℕ → LogEntry
at_index index term = record zero_entry { index = index; term = term }

-- Server 1, with the peers 2 and 3, leads term 4 and holds `n` entries of that term.
abbrev chief : ℕ → RaftNode
chief n = record (zero_node quiet_os) {
  state = leader;
  id = 1;
  peers = λ i. record { id = i + 2; host = []; port = 0 };
  peer_count = 2;
  pstate = record { current_term = 4; voted_for = 1; log = λ i. at_index (i + 1) 4; log_len = n };
  lstate = record { next_index = λ _. 2; match_index = λ i. if ltb i 1 then 2 else 0 };
  log_open = true;
}

-- A follower whose entries behind the first are of term `t`.
abbrev tail : ℕ → ℕ → RaftNode
tail t n = record (chief n) {
  state = follower;
  id = 2;
  pstate = record {
    current_term = 4;
    voted_for = 1;
    log = λ i. at_index (i + 1) (if ltb i 1 then 4 else t);
    log_len = n;
  };
}

-- The request for the peer with index 0, from its next index 2 on.
abbrev batch : ℕ → AppendEntriesRequest
batch n = record {
  term = 4;
  leader_id = 1;
  prev_log_index = 1;
  prev_log_term = 4;
  leader_commit = 0;
  log_len = n;
  log = λ i. if ltb i n then at_index (u64 (1 + i) + 1) 4 else zero_entry;
}

overwrites : (handle_append_entries_request (tail 3 2) (batch 2)).1.success ≡ true
unfolding handle_append_entries_request update_term_locked follow_leader accept_entries log_matches
    append_loop append_one store_entry log_write raft_now_msec raft_random_election_timeout
overwrites = refl

append_success_example :
    (4 ≤ 4)
    × Accepted
        (batch 2)
        (tail 3 2)
        (handle_append_entries_request (tail 3 2) (batch 2)).0
        (handle_append_entries_request (tail 3 2) (batch 2)).1
append_success_example = append_success (tail 3 2) (batch 2) (omega arith) overwrites

append_refused_example :
    let (s, resp) = handle_append_entries_request (tail 3 0) (batch 2) in
    (resp.success ≡ false)
    × (s.pstate.log ≡ (tail 3 0).pstate.log)
    × (s.pstate.log_len ≡ 0)
    × (s.vstate ≡ (tail 3 0).vstate)
append_refused_example = append_refused (tail 3 0) (batch 2) (inr (inl (omega arith)))

append_complete_example : (handle_append_entries_request (tail 3 1) (batch 2)).1.success ≡ true
append_complete_example =
    append_complete (tail 3 1) (batch 2) (record { is_open = refl; no_errors = refl }) (omega arith)
      (omega arith) (omega arith, inr refl) (omega arith) (λ j lt. ground arith)

sends : raft_append_entries (chief 3) 0 ≡ some (batch 2)
unfolding raft_append_entries
sends = refl

replication_example :
    let (f', resp) = handle_append_entries_request (tail 3 2) (batch 2) in
    let n = 2 - 1 + min raft_append_batch (3 - (2 - 1)) in
    (resp.success ≡ true) × (resp.match_index ≡ n) × (n ≤ f'.pstate.log_len) × Agree (chief 3) f' n
replication_example =
    replication (chief 3) (tail 3 2) 0 (omega arith) (λ k lt. omega arith) (omega arith)
      (omega arith) sends (record { is_open = refl; no_errors = refl }) (omega arith) (omega arith)
      (omega arith) (λ k lt. ground arith)

advance_commit_index_locked_lem_example :
    let c = (advance_commit_index_locked (chief 3)).vstate.commit_index in
    ((c ≡ 0) ⊎ (0 < c) × (c ≤ 3) × MayCommit (chief 3) c)
    × ((k : ℕ) → 0 < k → k ≤ 3 → MayCommit (chief 3) k → k ≤ c)
advance_commit_index_locked_lem_example = advance_commit_index_locked_lem (chief 3) refl

commits_two : (advance_commit_index_locked (chief 3)).vstate.commit_index ≡ 2
unfolding advance_commit_index_locked advance_from commits_at
commits_two = refl

abbrev delivering : RaftNode
delivering = record (chief 3) { vstate = record { commit_index = 3; last_applied = 1 } }

raft_commit_entry_lem_example :
    raft_commit_entry delivering 8
    ≡ (applied delivering (due delivering 8), slice delivering.pstate.log 1 (due delivering 8))
raft_commit_entry_lem_example = raft_commit_entry_lem delivering 8

abbrev beats : RaftNode
beats = record (chief 3) { vstate = record { commit_index = 2; last_applied = 0 } }

abbrev beat : AppendEntriesRequest
beat = record {
  term = 4;
  leader_id = 1;
  prev_log_index = 0;
  prev_log_term = 0;
  leader_commit = 2;
  log_len = 0;
  log = λ _. zero_entry;
}

-- The follower commits its own entry of term 3, where the leader has one of term 4.
heartbeat_commits_example :
    let (f', resp) = handle_append_entries_request (tail 3 2) beat in
    (resp.success ≡ true)
    × (f'.vstate.commit_index ≡ min 2 2)
    × (f'.pstate.log ≡ (tail 3 2).pstate.log)
    × (f'.pstate.log_len ≡ 2)
unfolding heartbeat_tick
heartbeat_commits_example = heartbeat_commits beats (tail 3 2) {req = beat} refl refl (omega arith)

abbrev done : AppendEntriesResponse
done = record { term = 4; success = true; match_index = 2 }

-- The peer 3, with nothing replicated, acknowledges entry 2 three times.
single_entry_stalls_example :
    let l' = acknowledged 3 (chief 2) done 3 in
    ((batch 1).log_len ≡ 1)
    × (l'.lstate ≡ (chief 2).lstate)
    × (raft_append_entries l' 1
        ≡ some (record (batch 1) { leader_commit = l'.vstate.commit_index }))
unfolding raft_append_entries find_peer_idx
single_entry_stalls_example =
    single_entry_stalls (chief 2) 1 3 3 {req = batch 1} done (omega arith) (omega arith) refl refl
      refl refl refl refl

abbrev unwritable : RaftNode
unwritable = record (tail 3 2) { os = record quiet_os { writes = write_error ∷ [] } }

raft_timeout-write_error_example :
    let (r', out) = raft_timeout unwritable 8 in
    (r'.state ≡ candidate)
    × (r'.pstate.current_term ≡ u64 (4 + 1))
    × (r'.pstate.voted_for ≡ 2)
    × (out ≡ [])
    × FailedWrite unwritable (state_line (u64 (4 + 1)) 2) r'
unfolding raft_election_timeout_expired log_write raft_now_msec
raft_timeout-write_error_example =
    raft_timeout-write_error unwritable 8 (λ e. cc) (λ e. cc) refl refl

abbrev started : RaftNode
started = initialise_raft_sm missing true quiet_os 2

abbrev worked : RaftNode
worked = step started (
    append_request
      (record (batch 1) { prev_log_index = 0; prev_log_term = 0; log = λ i. at_index 1 4 }))

worked_follows : worked.state ≡ follower
unfolding step initialise_raft_sm handle_append_entries_request update_term_locked follow_leader
    accept_entries log_matches append_loop append_one store_entry learn_commit log_write
    raft_now_msec raft_random_election_timeout raft_reset_election_timer
worked_follows = refl

crash_recovery_example :
    Same
      (initialise_raft_sm opened true (record quiet_os { lines = worked.os.lines }) 2).pstate
      worked.pstate
crash_recovery_example =
    crash_recovery {r = started} true (record quiet_os { lines = worked.os.lines }) 2
      (initialise_raft_sm-Durable quiet_os 2 refl).0 (next _ here tt) (λ e. cc worked_follows) refl
