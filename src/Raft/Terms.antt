-- ===== src/Raft/Terms.antt =====
-- Terms and votes of raft.c: the term never goes back, and a term has one vote.
use corestack_peky.Common.{ℕ, zero, suc, ◌+◌, ◌<◌, ◌≡◌, refl, false, inr, ◌⊎◌, arith}
use corestack_peky.Raft.Types.{
  RaftNode, PersistentState, RequestVoteRequest, RequestVoteResponse, AppendEntriesRequest,
  raft_none,
}
use corestack_peky.Raft.Os.{raft_election_timeout_expired}
use corestack_peky.Raft.Election.{
  update_term_locked, start_election, raft_timeout, cast_vote, vote_in_term,
  handle_request_vote_request, record_vote, handle_request_vote_response,
}
use corestack_peky.Raft.Replication.{
  commit_loop, raft_commit_entry, append_one, append_loop, learn_commit, follow_leader,
  accept_entries, handle_append_entries_request, advance_commit_index_locked, note_response,
  handle_append_entries_response, raft_leader_send_command,
}
use corestack_peky.Raft.Events.{
  RaftEvent, timeout, vote_request, vote_response, append_request, append_response, command,
  deliver, newer_term, step, Reach, here, next, TermFits,
}

-- The term grew; or it is the same one, and a vote that was given stands.
abbrev pub VoteStands : PersistentState → PersistentState → Type 0
VoteStands p q =
    (p.current_term < q.current_term)
    ⊎ (q.current_term ≡ p.current_term) × ((p.voted_for ≡ raft_none) ⊎ (q.voted_for ≡ p.voted_for))

VoteStands-trans : (p q s : PersistentState) → VoteStands p q → VoteStands q s → VoteStands p s
VoteStands-trans p q s h k = ground arith

pub update_term_locked-VoteStands :
    (r : RaftNode) (t : ℕ) → VoteStands r.pstate (update_term_locked r t).0.pstate
unfolding update_term_locked
update_term_locked-VoteStands r t = ground arith

cast_vote-VoteStands :
    (r : RaftNode) (req : RequestVoteRequest) (resp : RequestVoteResponse)
    → VoteStands r.pstate (cast_vote r req resp).0.pstate
unfolding cast_vote
cast_vote-VoteStands r req resp = ground arith

pub raft_timeout-VoteStands :
    (r : RaftNode) (n : ℕ)
    → r.pstate.current_term < raft_none
    → VoteStands r.pstate (raft_timeout r n).0.pstate
unfolding raft_timeout raft_election_timeout_expired start_election
raft_timeout-VoteStands r n h = ground arith

pub vote_request-VoteStands :
    (r : RaftNode) (req : RequestVoteRequest)
    → VoteStands r.pstate (handle_request_vote_request r req).0.pstate
unfolding handle_request_vote_request vote_in_term
vote_request-VoteStands r req =
    let now = (update_term_locked r req.term).0 in
    let resp : RequestVoteResponse = record {
      term = r.pstate.current_term;
      vote_granted = false;
    } in
    let up = update_term_locked-VoteStands r req.term in
    ground (
      arith,
      up,
      cast_vote-VoteStands r req resp,
      cast_vote-VoteStands now req resp,
      VoteStands-trans r.pstate now.pstate (cast_vote now req resp).0.pstate up,
    )

append_one-term :
    (req : AppendEntriesRequest) (i : ℕ) (r : RaftNode)
    → let p = (append_one req i r).0.pstate in
      (p.current_term ≡ r.pstate.current_term) × (p.voted_for ≡ r.pstate.voted_for)
unfolding append_one
append_one-term req i r = ground arith

append_loop-term :
    (req : AppendEntriesRequest) (n i : ℕ) (r : RaftNode)
    → let p = (append_loop req n i r).0.pstate in
      (p.current_term ≡ r.pstate.current_term) × (p.voted_for ≡ r.pstate.voted_for)
unfolding append_loop
append_loop-term req zero i r = (refl, refl)
append_loop-term req (suc n) i r =
    ground (arith, append_one-term req i r, append_loop-term req n (i + 1) (append_one req i r).0)

append_request-VoteStands :
    (r : RaftNode) (req : AppendEntriesRequest)
    → VoteStands r.pstate (handle_append_entries_request r req).0.pstate
unfolding handle_append_entries_request accept_entries learn_commit follow_leader
append_request-VoteStands r req =
    let now = update_term_locked r req.term in
    let led = follow_leader now.0 req.leader_id in
    ground (arith, update_term_locked-VoteStands r req.term, append_loop-term req req.log_len 0 led)

commit_loop-pstate : (n : ℕ) (r : RaftNode) → (commit_loop n r).0.pstate ≡ r.pstate
unfolding commit_loop
commit_loop-pstate zero r = refl
commit_loop-pstate (suc n) r = ground (
  arith,
  commit_loop-pstate n
      (record r { vstate = record (r.vstate) { last_applied = r.vstate.last_applied + 1 } }),
)

pub step-VoteStands :
    (r : RaftNode) (e : RaftEvent)
    → ((n : ℕ) → e ≡ timeout n → r.pstate.current_term < raft_none)
    → VoteStands r.pstate (step r e).pstate
unfolding step
step-VoteStands r (timeout n) h = raft_timeout-VoteStands r n (h n refl)
step-VoteStands r (vote_request req) h = vote_request-VoteStands r req
step-VoteStands r (vote_response resp peer) h =
    unfold handle_request_vote_response record_vote in
    ground (arith, update_term_locked-VoteStands r resp.term)
step-VoteStands r (append_request req) h = append_request-VoteStands r req
step-VoteStands r (append_response resp peer) h =
    unfold handle_append_entries_response note_response advance_commit_index_locked in
    ground (arith, update_term_locked-VoteStands r resp.term)
step-VoteStands r (command c) h = unfold raft_leader_send_command in ground arith
step-VoteStands r (deliver n) h = unfold raft_commit_entry in ground (arith, commit_loop-pstate n r)
step-VoteStands r (newer_term t) h = update_term_locked-VoteStands r t

-- Over any history of calls in which the term stays below its largest value, the term never falls;
-- and while it is the same, a node that has voted keeps that vote: it never votes twice in a term.
pub Reach-VoteStands : {r s : RaftNode} → Reach TermFits r s → VoteStands r.pstate s.pstate
Reach-VoteStands here = inr (refl, inr refl)
Reach-VoteStands {r = r} (next {s = s} e past h) =
    VoteStands-trans r.pstate s.pstate (step s e).pstate (Reach-VoteStands past)
      (step-VoteStands s e (λ n same. h))
