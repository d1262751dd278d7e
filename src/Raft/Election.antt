-- ===== src/Raft/Election.antt =====
-- Terms, time-outs and votes of raft.c. A handler returns the new node and its answer; it runs as
-- one step, under the node's mutex.
use corestack_peky.Common.{
  ℕ, zero, suc, ◌+◌, ◌/◌, Bool, true, false, ◌&&◌, ◌||◌, not, List, [], ◌∷◌, Option, none, some,
  ltb, leb, ◌==◌, if◌then◌else◌, update, u64,
}
use corestack_peky.Common.Int.{pos}
use corestack_peky.Raft.Types.{
  ServerState, follower, candidate, leader, failed, PersistentState, RaftNode, RaftMessage,
  RequestVoteRequest, RequestVoteResponse, AppendEntriesRequest, request_vote, raft_none,
  zero_entry, zero_cstate, zero_lstate,
}
use corestack_peky.Raft.Os.{
  persist_state_locked, raft_reset_election_timer, raft_election_timeout_expired,
}

unfoldable pub majority : ℕ → ℕ
majority n = n / 2 + 1

unfoldable pub raft_last_log_index : RaftNode → ℕ
raft_last_log_index r = r.pstate.log_len

last_term : PersistentState → ℕ → ℕ
last_term p zero = 0
last_term p (suc n) = (p.log n).term

unfoldable pub raft_last_log_term : RaftNode → ℕ
unfolding last_term
raft_last_log_term r = last_term r.pstate r.pstate.log_len

unfoldable pub check_log : ℕ → ℕ → ℕ → ℕ → Bool
check_log req_log_idx req_log_term last_idx last_term =
    if not (req_log_term == last_term) then ltb last_term req_log_term else leb last_idx req_log_idx

-- The rounds left of a search from index `i`; `none` is SIZE_MAX. The last match wins.
unfoldable pub find_peer_from : RaftNode → ℕ → ℕ → ℕ → Option ℕ → Option ℕ
find_peer_from r peer zero i found = found
find_peer_from r peer (suc n) i found =
    find_peer_from r peer n (i + 1) (if (r.peers i).id == peer then some i else found)

unfoldable pub find_peer_idx : RaftNode → ℕ → Option ℕ
unfolding find_peer_from
find_peer_idx r peer = find_peer_from r peer r.peer_count 0 none

-- `raft_find_peer_index` returns at the first match.
first_peer_from : RaftNode → ℕ → ℕ → ℕ → Option ℕ
first_peer_from r peer zero i = none
first_peer_from r peer (suc n) i =
    let rest = first_peer_from r peer n (i + 1) in if (r.peers i).id == peer then some i else rest

unfoldable pub raft_find_peer_index : RaftNode → ℕ → Option ℕ
unfolding first_peer_from
raft_find_peer_index r peer = first_peer_from r peer r.peer_count 0

unfoldable pub is_failed : ServerState → Bool
is_failed failed = true
is_failed _ = false

unfoldable pub is_leader : ServerState → Bool
is_leader leader = true
is_leader _ = false

unfoldable pub heartbeat_tick : RaftNode → Option AppendEntriesRequest
unfolding is_failed is_leader
heartbeat_tick r =
    if is_failed r.state || not (is_leader r.state)
    then none
    else some (record {
      term = r.pstate.current_term;
      leader_id = r.id;
      prev_log_index = 0;
      prev_log_term = 0;
      leader_commit = r.vstate.commit_index;
      log_len = 0;
      log = λ _. zero_entry;
    })

unfoldable pub raft_init_candidate_state : RaftNode → ℕ → RaftNode
raft_init_candidate_state r term = record r { cstate = record zero_cstate { election_term = term } }

-- The entries below `peer_count` are filled in, the others are 0.
unfoldable pub raft_init_leader_state : RaftNode → RaftNode
unfolding raft_last_log_index
raft_init_leader_state r = record r {
  state = leader;
  leader_id = r.id;
  lstate = record {
    next_index = λ i. if ltb i r.peer_count then u64 (raft_last_log_index r + 1) else 0;
    match_index = λ _. 0;
  };
}

unfoldable pub raft_clear_candidate_state : RaftNode → RaftNode
raft_clear_candidate_state r = record r { cstate = zero_cstate }

unfoldable pub raft_clear_leader_state : RaftNode → RaftNode
raft_clear_leader_state r = record r { lstate = zero_lstate }

-- FOLLOWER, unless the node has failed
unfoldable pub demote : ServerState → ServerState
demote failed = failed
demote _ = follower

-- False is the `return -1` of a failed write.
unfoldable pub update_term_locked : RaftNode → ℕ → RaftNode × Bool
unfolding demote persist_state_locked raft_clear_candidate_state raft_clear_leader_state
    raft_reset_election_timer
update_term_locked r new_term =
    if leb new_term r.pstate.current_term
    then (r, true)
    else let r1 = record r {
      state = demote r.state;
      pstate = record (r.pstate) { current_term = new_term; voted_for = raft_none };
      leader_id = raft_none;
    } in
      let (r2, fine) = persist_state_locked r1 in
      if fine
      then (
        raft_reset_election_timer (raft_clear_leader_state (raft_clear_candidate_state r2)),
        true,
      )
      else (record r2 { state = failed }, false)

-- The requests to the peers `i`, `i + 1`, …, at most `cap` of them.
unfoldable pub vote_requests : RequestVoteRequest → ℕ → ℕ → ℕ → List RaftMessage
vote_requests req zero i cap = []
vote_requests req (suc n) i zero = []
vote_requests req (suc n) i (suc cap) =
    record { peer_idx = i; body = request_vote req } ∷ vote_requests req n (i + 1) cap

-- The new term and the vote for itself, in memory only.
unfoldable pub become_candidate : RaftNode → RaftNode
become_candidate r = record r {
  leader_id = raft_none;
  state = candidate;
  pstate = record (r.pstate) { current_term = u64 (r.pstate.current_term + 1); voted_for = r.id };
}

-- `raft_timeout` behind its guards: the node becomes a candidate.
unfoldable pub start_election : RaftNode → ℕ → RaftNode × List RaftMessage
unfolding majority become_candidate persist_state_locked raft_reset_election_timer
    raft_init_candidate_state raft_init_leader_state raft_last_log_index raft_last_log_term
    vote_requests
start_election r out_cap =
    let (r2, fine) = persist_state_locked (become_candidate r) in
    let r3 = raft_reset_election_timer (raft_init_candidate_state r2 r2.pstate.current_term) in
    let req : RequestVoteRequest = record {
      term = r3.pstate.current_term;
      last_log_index = raft_last_log_index r3;
      last_log_term = raft_last_log_term r3;
      candidate_id = r3.id;
    } in
    if not fine
    then (r2, [])
    else if majority (r3.peer_count + 1) == 1
    then (raft_init_leader_state r3, [])
    else (r3, vote_requests req r3.peer_count 0 out_cap)

-- The messages are the first `out_len` entries of `out`.
unfoldable pub raft_timeout : RaftNode → ℕ → RaftNode × List RaftMessage
unfolding is_failed is_leader
raft_timeout r out_cap =
    let (r', due) = raft_election_timeout_expired r in
    if is_failed r.state || is_leader r.state
    then (r, [])
    else if due
    then start_election r' out_cap
    else (r', [])

-- The vote itself, behind the guards on term and role.
unfoldable pub cast_vote :
    RaftNode → RequestVoteRequest → RequestVoteResponse → RaftNode × RequestVoteResponse
unfolding check_log raft_last_log_index raft_last_log_term persist_state_locked
    raft_reset_election_timer
cast_vote r req resp =
    let r1 = record r { pstate = record (r.pstate) { voted_for = req.candidate_id } } in
    let (r2, fine) = persist_state_locked r1 in
    if (r.pstate.voted_for == raft_none || r.pstate.voted_for == req.candidate_id)
      && check_log req.last_log_index req.last_log_term (raft_last_log_index r)
          (raft_last_log_term r)
    then if fine
      then (raft_reset_election_timer r2, record resp { vote_granted = true })
      else (record r2 { state = failed }, resp)
    else (r, resp)

-- The request is refused if it is stale or the node leads.
unfoldable pub vote_in_term :
    RaftNode → RequestVoteRequest → RequestVoteResponse → RaftNode × RequestVoteResponse
unfolding is_leader
vote_in_term r req resp =
    if ltb req.term r.pstate.current_term || is_leader r.state
    then (r, resp)
    else cast_vote r req resp

unfoldable pub handle_request_vote_request :
    RaftNode → RequestVoteRequest → RaftNode × RequestVoteResponse
handle_request_vote_request r req =
    let resp : RequestVoteResponse = record {
      term = r.pstate.current_term;
      vote_granted = false;
    } in
    if ltb r.pstate.current_term req.term
    then vote_in_term (update_term_locked r req.term).0 req resp
    else vote_in_term r req resp

-- How many of the peers below `n` granted their vote.
unfoldable pub count_votes : (ℕ → Bool) → ℕ → ℕ
count_votes granted zero = 0
count_votes granted (suc n) = count_votes granted n + (if granted n then 1 else 0)

-- The answer of the peer with index `i` is recorded, and the votes are counted.
unfoldable pub record_vote : RaftNode → ℕ → Bool → RaftNode
unfolding majority count_votes raft_init_leader_state
record_vote r i granted =
    let r1 = record r {
      cstate = record (r.cstate) {
        votes_responded = update r.cstate.votes_responded i true;
        votes_granted = update r.cstate.votes_granted i granted;
      };
    } in
    if r.cstate.votes_responded i
    then r
    else if leb (majority (r1.peer_count + 1))
        (1 + count_votes r1.cstate.votes_granted r1.peer_count)
    then record (raft_init_leader_state r1) { latest_heartbeat_ms = pos 0 }
    else r1

unfoldable pub is_candidate : ServerState → Bool
is_candidate candidate = true
is_candidate _ = false

unfoldable pub handle_request_vote_response : RaftNode → RequestVoteResponse → ℕ → RaftNode
unfolding is_candidate
handle_request_vote_response r resp peer =
    if ltb r.pstate.current_term resp.term
    then (update_term_locked r resp.term).0
    else if not (is_candidate r.state)
        || not (resp.term == r.pstate.current_term)
        || not (resp.term == r.cstate.election_term)
    then r
    else elim (find_peer_idx r peer) [ none ↦ r | some i ↦ record_vote r i resp.vote_granted ]
