-- ===== src/Raft/Elections.antt =====
-- Counting votes in raft.c: quorums, the winner, and the answers that never count.
use corestack_peky.Common.{
  ℕ, zero, suc, ◌+◌, ◌<◌, ◌≤◌, ◌≡◌, ◌≢◌, refl, Bool, true, false, inl, inr, ◌⊎◌, arith, u64,
  Bool-cases, Option-cases, not, ◌||◌, ◌==◌, ltb, some, ◌&&◌, update,
}
use corestack_peky.Raft.Types.{leader, candidate, RaftNode, RequestVoteRequest, RequestVoteResponse}
use corestack_peky.Raft.Election.{
  majority, update_term_locked, cast_vote, vote_in_term, handle_request_vote_request, count_votes,
  record_vote, handle_request_vote_response, find_peer_idx, is_candidate,
}
use corestack_peky.Raft.Votes.{update_term_locked-enters, handle_request_vote_request_lem}

-- How many servers below `n` are in both sets.
unfoldable pub count_both : (ℕ → Bool) → (ℕ → Bool) → ℕ → ℕ
count_both f g n = count_votes (λ i. f i && g i) n

count_both_bound :
    (f g : ℕ → Bool) (n : ℕ) → count_votes f n + count_votes g n ≤ n + count_both f g n
unfolding count_both count_votes
count_both_bound f g zero = omega arith
count_both_bound f g (suc n) = ground (arith, count_both_bound f g n)

pub common_voter : (f : ℕ → Bool) (n : ℕ) → 0 < count_votes f n → (i : ℕ) × (i < n) × (f i ≡ true)
unfolding count_votes
common_voter f zero h = absurd (omega arith)
common_voter f (suc n) h = elim (Bool-cases (f n)) [
  | inl t ↦ (n, omega arith, t)
  | inr u ↦ let (i, lt, t) = common_voter f n (ground arith) in (i, omega arith, t)
]

-- Two sets of at least `majority(n)` out of `n` servers have a server in common.
pub quorums_meet :
    (f g : ℕ → Bool) (n : ℕ)
    → majority n ≤ count_votes f n
    → majority n ≤ count_votes g n
    → (i : ℕ) × (i < n) × (f i ≡ true) × (g i ≡ true)
quorums_meet f g n hf hg =
    let (i, lt, both) =
      common_voter (λ j. f j && g j) n
        (unfold majority count_both in omega (arith, count_both_bound f g n)) in
    (i, lt, ground arith, ground arith)

pub record_vote-leader :
    (r : RaftNode) (j : ℕ) (granted : Bool)
    → r.state ≢ leader
    → let r' = record_vote r j granted in
      r'.state ≡ leader
      → (majority (r.peer_count + 1) ≤ 1 + count_votes r'.cstate.votes_granted r.peer_count)
        × (r'.pstate ≡ r.pstate)
        × ((i : ℕ)
            → i < r.peer_count
            → (r'.lstate.next_index i ≡ u64 (r.pstate.log_len + 1)) × (r'.lstate.match_index i ≡ 0))
unfolding record_vote
record_vote-leader r j granted nl h = (ground arith, ground arith, λ i lt. ground arith)

-- A response has one of three effects: none, a newer term, or a vote that is recorded.
pub response_cases :
    (r : RaftNode) (resp : RequestVoteResponse) (peer : ℕ)
    → let r' = handle_request_vote_response r resp peer in
      (r' ≡ r)
      ⊎ (r' ≡ (update_term_locked r resp.term).0) × (r.pstate.current_term < resp.term)
      ⊎ (j : ℕ) × (find_peer_idx r peer ≡ some j)
        × (r' ≡ record_vote r j resp.vote_granted)
        × (r.state ≡ candidate)
        × (resp.term ≡ r.pstate.current_term)
        × (r.cstate.election_term ≡ r.pstate.current_term)
unfolding handle_request_vote_response
response_cases r resp peer = elim (Option-cases (find_peer_idx r peer)) [
  | inl lost ↦ ground arith
  | inr (j, found) ↦ elim (Bool-cases (ltb r.pstate.current_term resp.term)) [
    | inl newer ↦ rw newer (inr (inl (refl, ground arith)))
    | inr fits ↦
        elim (Bool-cases (
          not (is_candidate r.state)
          || not (resp.term == r.pstate.current_term)
          || not (resp.term == r.cstate.election_term))) [
            | inl drop ↦ rw (fits, drop) (inl refl)
            | inr keep ↦
                rw (fits, keep, found)
                  (inr (inr (j, refl, refl, ground arith, ground arith, ground arith)))
          ]
  ]
]

record_vote-counts :
    (r : RaftNode) (j : ℕ) (granted : Bool)
    → r.state ≢ leader
    → let r' = record_vote r j granted in
      r'.state ≡ leader
      → (r.cstate.votes_responded j ≡ false)
        × (r'.cstate.votes_granted ≡ update r.cstate.votes_granted j granted)
unfolding record_vote
record_vote-counts r j granted nl h = (ground arith, ground arith)

-- A node that was not the leader becomes it on a vote response only as the candidate of that very
-- term. The sender is one of its peers, which had not answered before; the votes it then holds are
-- those granted before and what this response says of the sender's, and with its own vote they make
-- a majority of the cluster. It keeps its log, and its view of every peer starts at the end of that
-- log.
pub election_won :
    (r : RaftNode) (resp : RequestVoteResponse) (peer : ℕ)
    → r.state ≢ leader
    → let r' = handle_request_vote_response r resp peer in
      r'.state ≡ leader
      → (r.state ≡ candidate)
        × (resp.term ≡ r.pstate.current_term)
        × (r.cstate.election_term ≡ r.pstate.current_term)
        × ((j : ℕ) × (find_peer_idx r peer ≡ some j)
            × (r.cstate.votes_responded j ≡ false)
            × (r'.cstate.votes_granted ≡ update r.cstate.votes_granted j resp.vote_granted))
        × (majority (r.peer_count + 1) ≤ 1 + count_votes r'.cstate.votes_granted r.peer_count)
        × (r'.pstate ≡ r.pstate)
        × ((i : ℕ)
            → i < r.peer_count
            → (r'.lstate.next_index i ≡ u64 (r.pstate.log_len + 1)) × (r'.lstate.match_index i ≡ 0))
election_won r resp peer nl = elim (response_cases r resp peer) [
  | inl same ↦ rw same λ h. absurd (nl h)
  | inr (inl (newer, up)) ↦
      rw newer λ h. absurd (ground (arith, update_term_locked-enters r resp.term))
  | inr (inr (j, found, e, cand, term, election)) ↦ rw e λ h.
      let (quorum, log, peers) = record_vote-leader r j resp.vote_granted nl h in
      let (unheard, votes) = record_vote-counts r j resp.vote_granted nl h in
      (cand, term, election, (j, found, unheard, votes), quorum, log, peers)
]

pub answer-term :
    (r : RaftNode) (req : RequestVoteRequest) (resp : RequestVoteResponse)
    → (vote_in_term r req resp).1.term ≡ resp.term
unfolding vote_in_term cast_vote
answer-term r req resp = ground arith

stale_vote_response :
    (r : RaftNode) (resp : RequestVoteResponse) (peer : ℕ)
    → resp.term < r.pstate.current_term
    → handle_request_vote_response r resp peer ≡ r
unfolding handle_request_vote_response
stale_vote_response r resp peer h = ground arith

-- The answer of a voter that was behind the request's term carries the voter's old term, so the
-- candidate of that term drops it: it has no effect, granted or not.
pub late_vote_ignored :
    (v c : RaftNode) (req : RequestVoteRequest) (peer : ℕ)
    → v.pstate.current_term < req.term
    → c.pstate.current_term ≡ req.term
    → handle_request_vote_response c (handle_request_vote_request v req).1 peer ≡ c
late_vote_ignored v c req peer behind same =
    let resp : RequestVoteResponse = record {
      term = v.pstate.current_term;
      vote_granted = false;
    } in
    stale_vote_response c (handle_request_vote_request v req).1 peer (
      rw
        (
          handle_request_vote_request_lem v req,
          answer-term (update_term_locked v req.term).0 req resp,
        )
        (omega arith))
