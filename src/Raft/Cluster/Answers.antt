-- ===== src/Raft/Cluster/Answers.antt =====
-- What an answer to a vote request tells its sender, and what it makes of what the sender knows.
use corestack_peky.Common.{
  ℕ, ◌+◌, ◌≤◌, ◌<◌, ◌≡◌, ◌≢◌, refl, sym, ap, ◌∙◌, arith, Bool, true, false, some, ◌==◌, ◌⊎◌, inl,
  inr, Bool-cases,
}
use corestack_peky.Raft.Types.{
  candidate, leader, RaftNode, PersistentState, raft_none, RequestVoteRequest, RequestVoteResponse,
}
use corestack_peky.Raft.Election.{
  count_votes, majority, record_vote, handle_request_vote_request, handle_request_vote_response,
  find_peer_idx, update_term_locked,
}
use corestack_peky.Raft.Terms.{VoteStands, update_term_locked-VoteStands}
use corestack_peky.Raft.Votes.{handle_request_vote_request_lem, vote_granted_sound}
use corestack_peky.Raft.Elections.{response_cases, record_vote-leader, answer-term}
use corestack_peky.Raft.Cluster.Calm.{Calm-refl, update_term_locked-Calm}
use corestack_peky.Raft.Cluster.Voters.{voter, find_peer_idx_lem}
use corestack_peky.Raft.Cluster.Network.{
  Ledger, enter, NodeKnows, enter-here, Grows-enter, vote_of-voted,
}
use corestack_peky.Raft.Cluster.Keeps.{NodeKnows-moved, NodeKnows-Calm}

-- An answer is true to the votes, or too old for the node it goes to.
abbrev pub IsTrue : Ledger → RequestVoteResponse → ℕ → ℕ → RaftNode → Type 0
IsTrue votes resp from to r = (resp.term < r.pstate.current_term) ⊎ (votes from resp.term ≡ some to)

record_vote-keeps :
    (r : RaftNode) (j : ℕ) (g : Bool)
    → let s = record_vote r j g in
      (s.id ≡ r.id)
      × (s.peers ≡ r.peers)
      × (s.peer_count ≡ r.peer_count)
      × (s.pstate ≡ r.pstate)
      × (s.cstate.election_term ≡ r.cstate.election_term)
unfolding record_vote
record_vote-keeps r j g = ground arith

record_vote-granted :
    (r : RaftNode) (j i : ℕ) (g : Bool)
    → (record_vote r j g).cstate.votes_granted i ≡ true
    → (r.cstate.votes_granted i ≡ true) ⊎ (i ≡ j) × (g ≡ true)
unfolding record_vote
record_vote-granted r j i g h = ground arith

VoteStands-same : (p q : PersistentState) → q ≡ p → VoteStands p q
VoteStands-same p q e = inr (ap (λ x. x.current_term) e, inr (ap (λ x. x.voted_for) e))

NodeKnows-recorded :
    (n : ℕ) (votes : Ledger) (k j peer : ℕ) (g : Bool) (r : RaftNode)
    → NodeKnows n votes k r
    → r.state ≡ candidate
    → r.cstate.election_term ≡ r.pstate.current_term
    → find_peer_idx r peer ≡ some j
    → (g ≡ true → votes peer r.pstate.current_term ≡ some k)
    → NodeKnows n (enter votes k (record_vote r j g).pstate) k (record_vote r j g)
NodeKnows-recorded n votes k j peer g r know cand e found honest =
    let s = record_vote r j g in
    let (id, peers, count, same, elect) = record_vote-keeps r j g in
    let term : s.pstate.current_term ≡ r.pstate.current_term = ap (λ p. p.current_term) same in
    let stands = VoteStands-same r.pstate s.pstate same in
    let bound : s.cstate.election_term ≤ s.pstate.current_term = omega (arith, elect, term, e) in
    NodeKnows-moved n votes k r s know (id, peers, count, bound, stands)
      (λ a. ap (λ p. p.voted_for) same ∙ know.active (inl cand))
      (λ a e' i lt h. Grows-enter n votes k r s know stands (voter k i) s.pstate.current_term k (
        ap (votes (voter k i)) term
        ∙ known i (omega (arith, lt, count)) (record_vote-granted r j i g h)))
      (λ l. (elect ∙ (e ∙ sym term), quorum count l))
  where
    known :
        (i : ℕ)
        → i < r.peer_count
        → (r.cstate.votes_granted i ≡ true) ⊎ (i ≡ j) × (g ≡ true)
        → votes (voter k i) r.pstate.current_term ≡ some k
    known i lt (inl before) = know.granted (inl cand) e i lt before
    known i lt (inr (same, yes_vote)) =
        let (bound, name) = find_peer_idx_lem r peer j found in
        let who : voter k i ≡ peer = ap (voter k) same ∙ (sym (know.peer_ids j bound) ∙ name) in
        ap (λ v. votes v r.pstate.current_term) who ∙ honest yes_vote

    quorum :
        (record_vote r j g).peer_count ≡ r.peer_count
        → (record_vote r j g).state ≡ leader
        → majority n
          ≤ 1 + count_votes (record_vote r j g).cstate.votes_granted (record_vote r j g).peer_count
    quorum count l =
        let (most, _, _) = record_vote-leader r j g (λ x. ground (arith, cand, x)) l in
        let all : n ≡ r.peer_count + 1 = omega (arith, know.size) in rw (all, count) most

pub answer-VoteStands :
    (r : RaftNode) (resp : RequestVoteResponse) (peer : ℕ)
    → VoteStands r.pstate (handle_request_vote_response r resp peer).pstate
answer-VoteStands r resp peer = elim (response_cases r resp peer) [
  | inl same ↦ VoteStands-same r.pstate _ (ap (λ x. x.pstate) same)
  | inr (inl (newer, up)) ↦ rw newer (update_term_locked-VoteStands r resp.term)
  | inr (inr (j, found, recorded, cand, term, election)) ↦
      rw recorded (VoteStands-same r.pstate _ (record_vote-keeps r j resp.vote_granted).3)
]

-- An answer keeps what a server knows.
pub NodeKnows-answer :
    (n : ℕ) (votes : Ledger) (k peer : ℕ) (r : RaftNode) (resp : RequestVoteResponse)
    → k ≢ raft_none
    → NodeKnows n votes k r
    → (resp.vote_granted ≡ true → IsTrue votes resp peer k r)
    → NodeKnows n
        (enter votes k (handle_request_vote_response r resp peer).pstate)
        k
        (handle_request_vote_response r resp peer)
NodeKnows-answer n votes k peer r resp real know honest = elim (response_cases r resp peer) [
  | inl same ↦ rw same (
      NodeKnows-Calm n votes k r r real know (Calm-refl r) (VoteStands-same r.pstate r.pstate refl))
  | inr (inl (newer, up)) ↦ rw newer (
      NodeKnows-Calm n votes k r (update_term_locked r resp.term).0 real know
        (update_term_locked-Calm r resp.term) (update_term_locked-VoteStands r resp.term))
  | inr (inr (j, found, recorded, cand, term, election)) ↦ rw recorded (
      NodeKnows-recorded n votes k j peer resp.vote_granted r know cand election found (λ g.
        elim (honest g) [
          | inl old ↦ absurd (omega (arith, old, term))
          | inr voted ↦ ap (votes peer) (sym term) ∙ voted
        ]))
]

-- A voter's own answer: its vote is entered.
pub IsTrue-vote :
    (votes : Ledger) (v : ℕ) (r c : RaftNode) (req : RequestVoteRequest)
    → req.candidate_id ≢ raft_none
    → req.term ≤ c.pstate.current_term
    → (handle_request_vote_request r req).1.vote_granted ≡ true
    → IsTrue
        (enter votes v (handle_request_vote_request r req).0.pstate)
        (handle_request_vote_request r req).1
        v
        req.candidate_id
        c
IsTrue-vote votes v r c req real sent g =
    let s = (handle_request_vote_request r req).0 in
    let vote = vote_granted_sound r req g in
    let resp : RequestVoteResponse = record {
      term = r.pstate.current_term;
      vote_granted = false;
    } in
    let answered : (handle_request_vote_request r req).1.term ≡ r.pstate.current_term =
      ap (λ x. x.1.term) (handle_request_vote_request_lem r req)
      ∙ answer-term (update_term_locked r req.term).0 req resp in
    let voted : enter votes v s.pstate v req.term ≡ some req.candidate_id =
      ap (enter votes v s.pstate v) (sym vote.term)
      ∙ (enter-here votes v s.pstate
          ∙ (vote_of-voted s.pstate (λ x. real (sym vote.vote ∙ x)) ∙ ap some vote.vote)) in
    elim (Bool-cases (r.pstate.current_term == req.term)) [
      | inl h ↦
          let same : r.pstate.current_term ≡ req.term = ground (arith, h) in
          inr (ap (enter votes v s.pstate v) (answered ∙ same) ∙ voted)
      | inr h ↦ inl (ground (arith, answered, h, vote.current))
    ]
