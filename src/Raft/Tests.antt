-- ===== src/Raft/Tests.antt =====
-- The theorems on terms and votes of raft.c at concrete nodes of a three-server cluster, and runs of the code.
use corestack_peky.Common.{
  ℕ, ◌+◌, ◌<◌, ◌≤◌, ◌≡◌, refl, true, false, inl, inr, arith, u64, [], ◌∷◌, some, update,
}
use corestack_peky.Common.Int.{pos}
use corestack_peky.Raft.Types.{
  candidate, leader, failed, LogEntry, RaftNode, Os, RequestVoteRequest, RequestVoteResponse,
  raft_none, zero_node, zero_entry,
}
use corestack_peky.Raft.Os.{log_write, raft_now_msec, raft_random_election_timeout}
use corestack_peky.Raft.Election.{
  majority, count_votes, update_term_locked, cast_vote, vote_in_term, handle_request_vote_request,
  handle_request_vote_response, find_peer_idx, record_vote, raft_last_log_term,
}
use corestack_peky.Raft.Events.{vote_request, step, here, next}
use corestack_peky.Raft.Terms.{VoteStands, Reach-VoteStands}
use corestack_peky.Raft.Votes.{Vote, vote_granted_sound, vote_granted_complete}
use corestack_peky.Raft.Elections.{election_won, late_vote_ignored}

abbrev quiet : Os
quiet = record { lines = []; writes = []; clock = pos 1000 ∷ pos 1000 ∷ []; rands = [] }

abbrev entry : ℕ → ℕ → LogEntry
entry index term = record zero_entry { index = index; term = term }

-- A follower with the peers 2 and 3, in term 4, holding one entry of term 3.
abbrev voter : RaftNode
voter = record (zero_node quiet) {
  id = 1;
  peers = λ i. record { id = i + 2; host = []; port = 0 };
  peer_count = 2;
  pstate = record {
    current_term = 4;
    voted_for = raft_none;
    log = λ i. entry (i + 1) 3;
    log_len = 1;
  };
  log_open = true;
}

abbrev asks : ℕ → RequestVoteRequest
asks term = record { term = term; last_log_index = 1; last_log_term = 3; candidate_id = 2 }

votes_in_newer_term : (handle_request_vote_request voter (asks 5)).1.vote_granted ≡ true
unfolding handle_request_vote_request update_term_locked vote_in_term cast_vote log_write
    raft_now_msec raft_random_election_timeout
votes_in_newer_term = refl

vote_granted_sound_example : Vote voter (asks 5) (handle_request_vote_request voter (asks 5)).0
vote_granted_sound_example = vote_granted_sound voter (asks 5) votes_in_newer_term

vote_granted_complete_example : (handle_request_vote_request voter (asks 4)).1.vote_granted ≡ true
unfolding raft_last_log_term
vote_granted_complete_example =
    vote_granted_complete voter (asks 4) (record { is_open = refl; no_errors = refl }) (omega arith)
      (inr ((λ e. cc), inl refl)) (inr (refl, omega arith))

abbrev runner : RaftNode
runner = record voter {
  state = candidate;
  pstate = record (voter.pstate) { current_term = 5; voted_for = 1 };
  cstate = record { election_term = 5; votes_responded = λ _. false; votes_granted = λ _. false };
}

late_vote_ignored_example :
    handle_request_vote_response runner (handle_request_vote_request voter (asks 5)).1 2 ≡ runner
late_vote_ignored_example = late_vote_ignored voter runner (asks 5) 2 (omega arith) refl

abbrev granted : RequestVoteResponse
granted = record { term = 5; vote_granted = true }

wins : (handle_request_vote_response runner granted 2).state ≡ leader
unfolding handle_request_vote_response find_peer_idx record_vote
wins = refl

election_won_example :
    let r' = handle_request_vote_response runner granted 2 in
    (runner.state ≡ candidate)
    × (granted.term ≡ runner.pstate.current_term)
    × (runner.cstate.election_term ≡ runner.pstate.current_term)
    × ((j : ℕ) × (find_peer_idx runner 2 ≡ some j)
        × (runner.cstate.votes_responded j ≡ false)
        × (r'.cstate.votes_granted ≡ update runner.cstate.votes_granted j granted.vote_granted))
    × (majority (runner.peer_count + 1) ≤ 1 + count_votes r'.cstate.votes_granted runner.peer_count)
    × (r'.pstate ≡ runner.pstate)
    × ((i : ℕ)
        → i < runner.peer_count
        → (r'.lstate.next_index i ≡ u64 (runner.pstate.log_len + 1))
          × (r'.lstate.match_index i ≡ 0))
election_won_example = election_won runner granted 2 (λ e. cc) wins

Reach-VoteStands_example :
    VoteStands voter.pstate
      (step (step voter (vote_request (asks 5))) (vote_request (asks 5))).pstate
unfolding step handle_request_vote_request update_term_locked vote_in_term cast_vote log_write
    raft_now_msec raft_random_election_timeout
Reach-VoteStands_example =
    Reach-VoteStands {r = voter}
      (next (vote_request (asks 5)) (next (vote_request (asks 5)) here (omega arith)) (omega arith))

abbrev broken : RaftNode
broken = record voter { state = failed }
