-- ===== src/Raft/Cluster/Tests.antt =====
-- Three servers in which the first is elected.
use corestack_peky.Common.{ℕ, ◌<◌, ◌≡◌, refl, true, inl, arith, [], ◌∷◌}
use corestack_peky.Common.Int.{pos}
use corestack_peky.Raft.Types.{
  leader, RaftNode, Os, RequestVoteRequest, raft_none, zero_node, zero_entry,
}
use corestack_peky.Raft.Os.{
  log_write, raft_now_msec, raft_random_election_timeout, raft_election_timeout_expired,
}
use corestack_peky.Raft.Election.{
  majority, count_votes, update_term_locked, cast_vote, vote_in_term, handle_request_vote_request,
  handle_request_vote_response, find_peer_idx, record_vote, raft_last_log_term, raft_timeout,
  start_election, vote_requests, find_peer_from,
}
use corestack_peky.Raft.Cluster.Voters.{voter}
use corestack_peky.Raft.Cluster.Run.{
  Answer, Cluster, election, asked, answered, happens, IsFresh, Reaches, begin, after,
}
use corestack_peky.Raft.Cluster.Safety.{one_leader}

abbrev quiet : Os
quiet = record { lines = []; writes = []; clock = pos 1000 ∷ pos 1000 ∷ []; rands = [] }

abbrev three_servers : ℕ → RaftNode
three_servers k = record (zero_node quiet) {
  id = k;
  peers = λ j. record { id = voter k j; host = []; port = 0 };
  peer_count = 2;
  pstate = record { current_term = 4; voted_for = raft_none; log = λ _. zero_entry; log_len = 0 };
  log_open = true;
}

fresh : (k : ℕ) → k < 3 → IsFresh 3 k (three_servers k)
fresh k lt = record {
  named = refl;
  size = refl;
  peer_ids = λ j lt'. refl;
  follows = refl;
  unvoted = refl;
  elect = omega arith;
}

abbrev at_start : Cluster
at_start = record { nodes = three_servers; requests = []; answers = [] }

abbrev runs : Cluster
runs = happens at_start (election 0 8)

abbrev request : RequestVoteRequest
request = record { term = 5; last_log_index = 0; last_log_term = 0; candidate_id = 0 }

abbrev votes : Cluster
votes = happens runs (asked 1 request)

abbrev answer : Answer
answer = record { from = 1; to = 0; content = record { term = 4; vote_granted = true } }

abbrev again : Answer
again = record { from = 1; to = 0; content = record { term = 5; vote_granted = true } }

-- The first answer, of a voter that had an older term, is too old; asked again it counts.
abbrev asked_again : Cluster
asked_again = happens votes (asked 1 request)

abbrev elected : Cluster
elected = happens asked_again (answered again)

reaches : Reaches 3 three_servers elected
unfolding raft_timeout raft_election_timeout_expired start_election vote_requests raft_last_log_term
    handle_request_vote_request update_term_locked vote_in_term cast_vote log_write raft_now_msec
    raft_random_election_timeout majority
reaches =
    after (answered again)
      (after (asked 1 request)
        (after (asked 1 request) (after (election 0 8) begin (omega arith, omega arith))
          (omega arith, inl refl))
        (omega arith, inl refl))
      (inl refl)

leads : (elected.nodes 0).state ≡ leader
unfolding raft_timeout raft_election_timeout_expired start_election vote_requests
    handle_request_vote_request update_term_locked vote_in_term cast_vote log_write raft_now_msec
    raft_random_election_timeout majority handle_request_vote_response find_peer_idx find_peer_from
    record_vote count_votes
leads = refl

abbrev winner : ℕ
winner = 0

one_leader_example : winner ≡ 0
one_leader_example =
    one_leader 3 winner 0 three_servers elected (omega arith) fresh reaches (omega arith)
      (omega arith) leads leads refl
