-- ===== src/Raft/Failure.antt =====
-- FAILED is final: no call of raft.c leaves it.
use corestack_peky.Common.{ℕ, zero, suc, ◌+◌, ◌≡◌, false, arith}
use corestack_peky.Raft.Types.{
  failed, RaftNode, LogEntry, RequestVoteRequest, RequestVoteResponse, AppendEntriesRequest,
  AppendEntriesResponse,
}
use corestack_peky.Raft.Election.{
  update_term_locked, cast_vote, vote_in_term, raft_timeout, handle_request_vote_request,
  handle_request_vote_response,
}
use corestack_peky.Raft.Replication.{
  commit_loop, raft_commit_entry, store_entry, append_one, append_loop, learn_commit, follow_leader,
  accept_entries, handle_append_entries_request, handle_append_entries_response,
  raft_leader_send_command,
}
use corestack_peky.Raft.Events.{
  RaftEvent, timeout, vote_request, vote_response, append_request, append_response, command,
  deliver, newer_term, step, Reach, here, next,
}

pub update_term_locked-failed :
    (r : RaftNode) (t : ℕ) → r.state ≡ failed → (update_term_locked r t).0.state ≡ failed
unfolding update_term_locked
update_term_locked-failed r t h = ground arith

pub cast_vote-failed :
    (r : RaftNode) (req : RequestVoteRequest) (resp : RequestVoteResponse)
    → r.state ≡ failed
    → (cast_vote r req resp).0.state ≡ failed
unfolding cast_vote
cast_vote-failed r req resp h = ground arith

vote_in_term-failed :
    (r : RaftNode) (req : RequestVoteRequest) (resp : RequestVoteResponse)
    → r.state ≡ failed
    → (vote_in_term r req resp).0.state ≡ failed
unfolding vote_in_term
vote_in_term-failed r req resp h = ground (arith, cast_vote-failed r req resp)

vote_request-failed :
    (r : RaftNode) (req : RequestVoteRequest)
    → r.state ≡ failed
    → (handle_request_vote_request r req).0.state ≡ failed
unfolding handle_request_vote_request
vote_request-failed r req h =
    let now = update_term_locked r req.term in
    let resp : RequestVoteResponse = record {
      term = r.pstate.current_term;
      vote_granted = false;
    } in
    ground (
      arith,
      update_term_locked-failed r req.term,
      vote_in_term-failed now.0 req resp,
      vote_in_term-failed r req resp,
    )

vote_response-failed :
    (r : RaftNode) (resp : RequestVoteResponse) (peer : ℕ)
    → r.state ≡ failed
    → (handle_request_vote_response r resp peer).state ≡ failed
unfolding handle_request_vote_response
vote_response-failed r resp peer h = ground (arith, update_term_locked-failed r resp.term)

store_entry-failed :
    (e : LogEntry) (r : RaftNode) → r.state ≡ failed → (store_entry e r).0.state ≡ failed
unfolding store_entry
store_entry-failed e r h = ground arith

pub append_one-failed :
    (req : AppendEntriesRequest) (i : ℕ) (r : RaftNode)
    → r.state ≡ failed
    → (append_one req i r).0.state ≡ failed
unfolding append_one
append_one-failed req i r h = ground arith

pub append_loop-failed :
    (req : AppendEntriesRequest) (n i : ℕ) (r : RaftNode)
    → r.state ≡ failed
    → (append_loop req n i r).0.state ≡ failed
unfolding append_loop
append_loop-failed req zero i r h = h
append_loop-failed req (suc n) i r h =
    ground
      (arith, append_one-failed req i r, append_loop-failed req n (i + 1) (append_one req i r).0)

pub accept_entries-failed :
    (r : RaftNode) (req : AppendEntriesRequest) (resp : AppendEntriesResponse)
    → r.state ≡ failed
    → (accept_entries r req resp).0.state ≡ failed
unfolding accept_entries learn_commit
accept_entries-failed r req resp h = ground (arith, append_loop-failed req req.log_len 0 r)

pub follow_leader-failed :
    (r : RaftNode) (id : ℕ) → r.state ≡ failed → (follow_leader r id).state ≡ failed
unfolding follow_leader
follow_leader-failed r id h = ground arith

append_request-failed :
    (r : RaftNode) (req : AppendEntriesRequest)
    → r.state ≡ failed
    → (handle_append_entries_request r req).0.state ≡ failed
unfolding handle_append_entries_request
append_request-failed r req h =
    let now = update_term_locked r req.term in
    let led = follow_leader now.0 req.leader_id in
    let resp : AppendEntriesResponse = record {
      term = now.0.pstate.current_term;
      success = false;
      match_index = 0;
    } in
    ground (
      arith,
      update_term_locked-failed r req.term,
      follow_leader-failed now.0 req.leader_id,
      accept_entries-failed led req resp,
    )

append_response-failed :
    (r : RaftNode) (resp : AppendEntriesResponse) (peer : ℕ)
    → r.state ≡ failed
    → (handle_append_entries_response r resp peer).state ≡ failed
unfolding handle_append_entries_response
append_response-failed r resp peer h = ground arith

commit_loop-failed : (n : ℕ) (r : RaftNode) → r.state ≡ failed → (commit_loop n r).0.state ≡ failed
unfolding commit_loop
commit_loop-failed zero r h = h
commit_loop-failed (suc n) r h = ground (
  arith,
  commit_loop-failed n
      (record r { vstate = record (r.vstate) { last_applied = r.vstate.last_applied + 1 } }),
)

-- A call leaves a failed node failed.
pub step-failed : (r : RaftNode) (e : RaftEvent) → r.state ≡ failed → (step r e).state ≡ failed
unfolding step
step-failed r (timeout n) h = unfold raft_timeout in ground arith
step-failed r (vote_request req) h = vote_request-failed r req h
step-failed r (vote_response resp peer) h = vote_response-failed r resp peer h
step-failed r (append_request req) h = append_request-failed r req h
step-failed r (append_response resp peer) h = append_response-failed r resp peer h
step-failed r (command c) h = unfold raft_leader_send_command in ground arith
step-failed r (deliver n) h = unfold raft_commit_entry in commit_loop-failed n r h
step-failed r (newer_term t) h = update_term_locked-failed r t h

-- FAILED is final: no history of calls leads out of it.
pub Reach-failed :
    {Guard : RaftNode → RaftEvent → Type 0} {r s : RaftNode}
    → Reach Guard r s
    → r.state ≡ failed
    → s.state ≡ failed
Reach-failed here h = h
Reach-failed (next {s = s} e past _) h = step-failed s e (Reach-failed past h)
