-- ===== src/Raft/Events.antt =====
-- The calls that reach a node of raft.c, one after the other: each takes the node's mutex.
use corestack_peky.Common.{ℕ, ◌<◌}
use corestack_peky.Raft.Types.{
  ClientCommand, RaftNode, RequestVoteRequest, RequestVoteResponse, AppendEntriesRequest,
  AppendEntriesResponse, raft_none,
}
use corestack_peky.Raft.Election.{
  raft_timeout, handle_request_vote_request, handle_request_vote_response, update_term_locked,
}
use corestack_peky.Raft.Replication.{
  handle_append_entries_request, handle_append_entries_response, raft_commit_entry,
  raft_leader_send_command,
}

-- A call, with its arguments; a number beside a response is the peer's id.
pub data RaftEvent : Type 0 where
  timeout : ℕ → RaftEvent
  vote_request : RequestVoteRequest → RaftEvent
  vote_response : RequestVoteResponse → ℕ → RaftEvent
  append_request : AppendEntriesRequest → RaftEvent
  append_response : AppendEntriesResponse → ℕ → RaftEvent
  command : ClientCommand → RaftEvent
  deliver : ℕ → RaftEvent
  newer_term : ℕ → RaftEvent

-- The node after the call.
unfoldable pub step : RaftNode → RaftEvent → RaftNode
step r (timeout out_cap) = (raft_timeout r out_cap).0
step r (vote_request req) = (handle_request_vote_request r req).0
step r (vote_response resp peer) = handle_request_vote_response r resp peer
step r (append_request req) = (handle_append_entries_request r req).0
step r (append_response resp peer) = handle_append_entries_response r resp peer
step r (command c) = (raft_leader_send_command r c).0
step r (deliver out_cap) = (raft_commit_entry r out_cap).0
step r (newer_term t) = (update_term_locked r t).0

-- The nodes that calls can lead to, where `Guard` holds of each call and the node it meets.
pub data Reach (Guard : RaftNode → RaftEvent → Type 0) (r : RaftNode) : RaftNode → Type 0 where
  here : Reach Guard r r
  next : {s : RaftNode} (e : RaftEvent) → Reach Guard r s → Guard s e → Reach Guard r (step s e)

-- The term is below its largest value, so a time-out does not wrap it round.
abbrev pub TermFits : RaftNode → RaftEvent → Type 0
TermFits r e = r.pstate.current_term < raft_none
