-- ===== src/Raft/Cluster/Calm.antt =====
-- Calls of raft.c that make no candidate and no leader, and count no vote.
use corestack_peky.Common.{ℕ, zero, suc, ◌+◌, ◌≤◌, ◌≡◌, refl, false, arith, ◌⊎◌, inl, inr}
use corestack_peky.Raft.Types.{
  ClientCommand, follower, failed, RaftNode, RequestVoteRequest, RequestVoteResponse,
  AppendEntriesRequest, AppendEntriesResponse, zero_cstate,
}
use corestack_peky.Raft.Election.{
  update_term_locked, cast_vote, vote_in_term, handle_request_vote_request,
}
use corestack_peky.Raft.Replication.{
  commit_loop, raft_commit_entry, append_one, append_loop, learn_commit, follow_leader,
  accept_entries, handle_append_entries_request, handle_append_entries_response, note_response,
  advance_commit_index_locked, raft_leader_send_command,
}

-- The node keeps its name and its peers, and its term does not fall; its record of votes is kept or
-- cleared; it is a candidate or a leader only as it was before, in the same term with the same votes.
abbrev pub Calm : RaftNode → RaftNode → Type 0
Calm r s =
    (s.id ≡ r.id)
    × (s.peers ≡ r.peers)
    × (s.peer_count ≡ r.peer_count)
    × (r.pstate.current_term ≤ s.pstate.current_term)
    × ((s.cstate ≡ r.cstate) ⊎ (s.cstate ≡ zero_cstate))
    × ((s.state ≡ follower)
        ⊎ (s.state ≡ failed)
        ⊎ (s.state ≡ r.state)
          × (s.pstate.current_term ≡ r.pstate.current_term)
          × (s.cstate ≡ r.cstate))

pub Calm-refl : (r : RaftNode) → Calm r r
Calm-refl r = (refl, refl, refl, omega arith, inl refl, inr (inr (refl, refl, refl)))

pub Calm-trans : (r s t : RaftNode) → Calm r s → Calm s t → Calm r t
Calm-trans r s t h k = ground arith

pub update_term_locked-Calm : (r : RaftNode) (t : ℕ) → Calm r (update_term_locked r t).0
unfolding update_term_locked
update_term_locked-Calm r t = ground arith

cast_vote-Calm :
    (r : RaftNode) (req : RequestVoteRequest) (resp : RequestVoteResponse)
    → Calm r (cast_vote r req resp).0
unfolding cast_vote
cast_vote-Calm r req resp = ground arith

vote_in_term-Calm :
    (r : RaftNode) (req : RequestVoteRequest) (resp : RequestVoteResponse)
    → Calm r (vote_in_term r req resp).0
unfolding vote_in_term
vote_in_term-Calm r req resp = ground (arith, cast_vote-Calm r req resp)

pub vote_request-Calm :
    (r : RaftNode) (req : RequestVoteRequest) → Calm r (handle_request_vote_request r req).0
unfolding handle_request_vote_request
vote_request-Calm r req =
    let now = (update_term_locked r req.term).0 in
    let resp : RequestVoteResponse = record {
      term = r.pstate.current_term;
      vote_granted = false;
    } in
    let voted = (vote_in_term now req resp).0 in
    let two =
      Calm-trans r now voted (update_term_locked-Calm r req.term)
        (vote_in_term-Calm now req resp) in
    ground (arith, two, vote_in_term-Calm r req resp)

append_one-Calm :
    (req : AppendEntriesRequest) (i : ℕ) (r : RaftNode) → Calm r (append_one req i r).0
unfolding append_one
append_one-Calm req i r = ground arith

append_loop-Calm :
    (req : AppendEntriesRequest) (n i : ℕ) (r : RaftNode) → Calm r (append_loop req n i r).0
unfolding append_loop
append_loop-Calm req zero i r = Calm-refl r
append_loop-Calm req (suc n) i r =
    let s = (append_one req i r).0 in
    let one = append_one-Calm req i r in
    let rest =
      Calm-trans r s (append_loop req n (i + 1) s).0 one (append_loop-Calm req n (i + 1) s) in
    ground (arith, one, rest)

accept_entries-Calm :
    (r : RaftNode) (req : AppendEntriesRequest) (resp : AppendEntriesResponse)
    → Calm r (accept_entries r req resp).0
unfolding accept_entries learn_commit
accept_entries-Calm r req resp = ground (arith, append_loop-Calm req req.log_len 0 r)

follow_leader-Calm : (r : RaftNode) (id : ℕ) → Calm r (follow_leader r id)
unfolding follow_leader
follow_leader-Calm r id = ground arith

pub append_request-Calm :
    (r : RaftNode) (req : AppendEntriesRequest) → Calm r (handle_append_entries_request r req).0
unfolding handle_append_entries_request
append_request-Calm r req =
    let now = (update_term_locked r req.term).0 in
    let led = follow_leader now req.leader_id in
    let resp : AppendEntriesResponse = record {
      term = now.pstate.current_term;
      success = false;
      match_index = 0;
    } in
    let done = (accept_entries led req resp).0 in
    let up = update_term_locked-Calm r req.term in
    let two = Calm-trans r now led up (follow_leader-Calm now req.leader_id) in
    let three = Calm-trans r led done two (accept_entries-Calm led req resp) in
    ground (arith, up, two, three)

pub append_response-Calm :
    (r : RaftNode) (resp : AppendEntriesResponse) (peer : ℕ)
    → Calm r (handle_append_entries_response r resp peer)
unfolding handle_append_entries_response note_response advance_commit_index_locked
append_response-Calm r resp peer = ground (arith, update_term_locked-Calm r resp.term)

commit_loop-Calm : (n : ℕ) (r : RaftNode) → Calm r (commit_loop n r).0
unfolding commit_loop
commit_loop-Calm zero r = Calm-refl r
commit_loop-Calm (suc n) r = ground (
  arith,
  commit_loop-Calm n
      (record r { vstate = record (r.vstate) { last_applied = r.vstate.last_applied + 1 } }),
)

pub deliver-Calm : (r : RaftNode) (n : ℕ) → Calm r (raft_commit_entry r n).0
unfolding raft_commit_entry
deliver-Calm r n = ground (arith, commit_loop-Calm n r)

pub command-Calm : (r : RaftNode) (c : ClientCommand) → Calm r (raft_leader_send_command r c).0
unfolding raft_leader_send_command
command-Calm r c = ground arith
