-- ===== src/Raft/Recovery/Calls.antt =====
-- Crash recovery over whole histories of calls of raft.c.
use corestack_peky.Common.{
  ℕ, zero, suc, ◌+◌, ◌≡◌, ◌≢◌, refl, Bool, true, false, inl, inr, arith, u64, [],
}
use corestack_peky.Raft.Types.{
  follower, failed, RaftNode, ClientCommand, LogEntry, Os, RequestVoteRequest, RequestVoteResponse,
  AppendEntriesRequest, AppendEntriesResponse, state_line,
}
use corestack_peky.Raft.Os.{
  raft_reset_election_timer, log_write, raft_now_msec, raft_election_timeout_expired,
}
use corestack_peky.Raft.Os.Lines.{lines-now, lines-now-random, log_write-now, log_write_outcome}
use corestack_peky.Raft.Boot.{restore_lines, opened, missing, initialise_raft_sm}
use corestack_peky.Raft.Election.{
  update_term_locked, start_election, raft_timeout, handle_request_vote_request, record_vote,
  handle_request_vote_response,
}
use corestack_peky.Raft.Replication.{
  commit_loop, raft_commit_entry, follow_leader, handle_append_entries_request,
  advance_commit_index_locked, note_response, handle_append_entries_response,
  raft_leader_send_command,
}
use corestack_peky.Raft.Events.{
  RaftEvent, timeout, vote_request, vote_response, append_request, append_response, command,
  deliver, newer_term, step, Reach, here, next,
}
use corestack_peky.Raft.Failure.{step-failed, accept_entries-failed, follow_leader-failed}
use corestack_peky.Raft.Recovery.Restore.{Same}
use corestack_peky.Raft.Recovery.Durable.{
  Durable, Safe, Durable-state, Durable-entry, update_term_locked-Safe,
}
use corestack_peky.Raft.Recovery.Handlers.{
  vote_in_term-Safe, accept_entries-Safe, follow_leader-Durable,
}

-- An election that is started can write its new term and vote.
abbrev pub TimeoutWrites : RaftNode → RaftEvent → Type 0
TimeoutWrites r (timeout n) = (log_write (state_line 0 0) r.log_open r.os).1 ≡ true
TimeoutWrites r _ = Unit {0}

start_election-Safe :
    (r : RaftNode) (n : ℕ)
    → Durable r.os.lines r.pstate
    → (log_write (state_line 0 0) r.log_open r.os).1 ≡ true
    → Safe (start_election r n).0
unfolding start_election
start_election-Safe r n d w =
    let t = u64 (r.pstate.current_term + 1) in
    ground (
      arith,
      log_write_outcome (state_line t r.id) (state_line 0 0) r.log_open r.os,
      lines-now-random (log_write (state_line t r.id) r.log_open r.os).0,
      Durable-state r.os d r.log_open t r.id,
    )

raft_timeout-Safe :
    (r : RaftNode) (n : ℕ)
    → Durable r.os.lines r.pstate
    → TimeoutWrites r (timeout n)
    → Safe (raft_timeout r n).0
unfolding raft_timeout raft_election_timeout_expired
raft_timeout-Safe r n d w =
    let r' = record r { os = (raft_now_msec r.os).0 } in
    ground (arith, start_election-Safe r' n (rw lines-now d) (rw log_write-now w), lines-now r.os)

vote_request-Safe :
    (r : RaftNode) (req : RequestVoteRequest)
    → Durable r.os.lines r.pstate
    → Safe (handle_request_vote_request r req).0
unfolding handle_request_vote_request
vote_request-Safe r req d =
    let resp : RequestVoteResponse = record {
      term = r.pstate.current_term;
      vote_granted = false;
    } in
    ground (
      arith,
      vote_in_term-Safe (update_term_locked r req.term).0 req resp,
      update_term_locked-Safe r req.term d,
      vote_in_term-Safe r req resp,
    )

vote_response-Safe :
    (r : RaftNode) (resp : RequestVoteResponse) (peer : ℕ)
    → Durable r.os.lines r.pstate
    → Safe (handle_request_vote_response r resp peer)
unfolding handle_request_vote_response record_vote
vote_response-Safe r resp peer d = ground (arith, update_term_locked-Safe r resp.term d)

append_request-Safe :
    (r : RaftNode) (req : AppendEntriesRequest)
    → Durable r.os.lines r.pstate
    → Safe (handle_append_entries_request r req).0
unfolding handle_append_entries_request
append_request-Safe r req d =
    let now = update_term_locked r req.term in
    let led = follow_leader now.0 req.leader_id in
    let resp : AppendEntriesResponse = record {
      term = now.0.pstate.current_term;
      success = false;
      match_index = 0;
    } in
    ground (
      arith,
      update_term_locked-Safe r req.term d,
      follow_leader-failed now.0 req.leader_id,
      accept_entries-failed led req resp,
      accept_entries-Safe led req resp,
      follow_leader-Durable now.0 req.leader_id,
    )

append_response-Safe :
    (r : RaftNode) (resp : AppendEntriesResponse) (peer : ℕ)
    → Durable r.os.lines r.pstate
    → Safe (handle_append_entries_response r resp peer)
unfolding handle_append_entries_response note_response advance_commit_index_locked
append_response-Safe r resp peer d = ground (arith, update_term_locked-Safe r resp.term d)

command-Safe :
    (r : RaftNode) (c : ClientCommand)
    → Durable r.os.lines r.pstate
    → Safe (raft_leader_send_command r c).0
unfolding raft_leader_send_command
command-Safe r c d =
    let e : LogEntry = record {
      index = u64 (r.pstate.log_len + 1);
      term = r.pstate.current_term;
      command = c;
    } in
    ground (arith, d.room, Durable-entry r.os d r.log_open e)

commit_loop-Durable :
    (n : ℕ) (r : RaftNode)
    → Durable r.os.lines r.pstate
    → Durable (commit_loop n r).0.os.lines (commit_loop n r).0.pstate
unfolding commit_loop
commit_loop-Durable zero r d = d
commit_loop-Durable (suc n) r d = ground (
  arith,
  commit_loop-Durable n
      (record r { vstate = record (r.vstate) { last_applied = r.vstate.last_applied + 1 } }) d,
)

step-Durable :
    (r : RaftNode) (e : RaftEvent)
    → Durable r.os.lines r.pstate
    → TimeoutWrites r e
    → Safe (step r e)
unfolding step
step-Durable r (timeout n) d w = raft_timeout-Safe r n d w
step-Durable r (vote_request req) d w = vote_request-Safe r req d
step-Durable r (vote_response resp peer) d w = vote_response-Safe r resp peer d
step-Durable r (append_request req) d w = append_request-Safe r req d
step-Durable r (append_response resp peer) d w = append_response-Safe r resp peer d
step-Durable r (command c) d w = command-Safe r c d
step-Durable r (deliver n) d w = inr (unfold raft_commit_entry in commit_loop-Durable n r d)
step-Durable r (newer_term t) d w = update_term_locked-Safe r t d

-- After any call, a node that was in step with its log file still is, or has gone to FAILED; a
-- time-out is included if its write of the new term and vote succeeds.
pub step-Safe : (r : RaftNode) (e : RaftEvent) → Safe r → TimeoutWrites r e → Safe (step r e)
step-Safe r e (inl f) w = inl (step-failed r e f)
step-Safe r e (inr d) w = step-Durable r e d w

Reach-Safe : {r s : RaftNode} → Reach TimeoutWrites r s → Safe r → Safe s
Reach-Safe here h = h
Reach-Safe (next {s = s} e past w) h = step-Safe s e (Reach-Safe past h) w

initialise_raft_sm-Same :
    (r : RaftNode) (creates : Bool) (os : Os) (id : ℕ)
    → Durable r.os.lines r.pstate
    → os.lines ≡ r.os.lines
    → Same (initialise_raft_sm opened creates os id).pstate r.pstate
unfolding initialise_raft_sm raft_reset_election_timer
initialise_raft_sm-Same r creates os id d e = rw (lines-now-random, e, d.recovers.0) d.recovers.1

-- Take a node that was in step with its log file, and any history of calls in which each time-out
-- could write. Unless the node went to FAILED, a restart on the lines that it left behind restores
-- the term, the vote and every log entry that it had.
pub crash_recovery :
    {r s : RaftNode} (creates : Bool) (os : Os) (id : ℕ)
    → Durable r.os.lines r.pstate
    → Reach TimeoutWrites r s
    → s.state ≢ failed
    → os.lines ≡ s.os.lines
    → Same (initialise_raft_sm opened creates os id).pstate s.pstate
crash_recovery {s = s} creates os id d past alive e = elim (Reach-Safe past (inr d)) [
  | inl dead ↦ absurd (alive dead)
  | inr d' ↦ initialise_raft_sm-Same s creates os id d' e
]

-- A first start, with no log file to read and one created, is in step with its empty file.
pub initialise_raft_sm-Durable :
    (os : Os) (id : ℕ)
    → os.lines ≡ []
    → let r = initialise_raft_sm missing true os id in
      Durable r.os.lines r.pstate × (r.state ≡ follower) × (r.log_open ≡ true)
unfolding initialise_raft_sm raft_reset_election_timer restore_lines
initialise_raft_sm-Durable os id e = (
  record {
    room = omega arith;
    indexed = λ i h. absurd (omega arith);
    recovers =
        rw (lines-now-random, e)
          (refl, record { term = refl; vote = refl; len = refl; entries = λ i h. refl });
  },
  refl,
  refl,
)
