-- ===== src/Raft/Cluster/Elect.antt =====
-- What a time-out and an answered vote make of what a server knows.
use corestack_peky.Common.{
  ℕ, zero, suc, ◌+◌, ◌≤◌, ◌<◌, ◌≡◌, ◌≢◌, refl, ap, ◌∙◌, arith, Bool, true, false, ◌==◌, ◌||◌, ◌⊎◌,
  inl, inr, if◌then◌else◌, List, [], ◌∷◌, not,
}
use corestack_peky.Raft.Types.{
  candidate, leader, RaftNode, raft_none, zero_cstate, RaftMessage, RequestVoteRequest,
  request_vote, append_entry, append_entry_response, request_vote_response,
}
use corestack_peky.Raft.Os.{
  raft_election_timeout_expired, persist_state_locked, raft_reset_election_timer,
}
use corestack_peky.Raft.Election.{
  count_votes, majority, raft_timeout, start_election, vote_requests, become_candidate,
  raft_init_candidate_state, raft_init_leader_state, raft_last_log_index, raft_last_log_term,
  is_failed, is_leader,
}
use corestack_peky.Raft.Terms.{VoteStands, raft_timeout-VoteStands}
use corestack_peky.Raft.Cluster.Calm.{Calm}
use corestack_peky.Raft.Cluster.Network.{Ledger, enter, NodeKnows}
use corestack_peky.Raft.Cluster.Keeps.{NodeKnows-moved, NodeKnows-Calm}

-- The vote requests among messages.
abbrev pub requests_of : List RaftMessage → List RequestVoteRequest
requests_of [] = []
requests_of (msg ∷ out) =
    let rest = requests_of out in
    elim (msg.body) [
      | request_vote req ↦ req ∷ rest
      | request_vote_response resp ↦ rest
      | append_entry req ↦ rest
      | append_entry_response resp ↦ rest
    ]

abbrev pub In : {A : Type 0} → A → List A → Type 0
In x [] = ⊥
In x (y ∷ ys) = (x ≡ y) ⊎ In x ys

vote_requests-In :
    (req q : RequestVoteRequest) (n i cap : ℕ)
    → In q (requests_of (vote_requests req n i cap))
    → q ≡ req
unfolding vote_requests
vote_requests-In req q zero i cap h = absurd h
vote_requests-In req q (suc n) i zero h = absurd h
vote_requests-In req q (suc n) i (suc cap) (inl e) = e
vote_requests-In req q (suc n) i (suc cap) (inr h) = vote_requests-In req q n (i + 1) cap h

-- A node that has just started an election.
abbrev pub Started : RaftNode → RaftNode → Type 0
Started r s =
    (s.id ≡ r.id)
    × (s.peers ≡ r.peers)
    × (s.peer_count ≡ r.peer_count)
    × (r.pstate.current_term < s.pstate.current_term)
    × (s.pstate.voted_for ≡ r.id)
    × ((s.cstate ≡ r.cstate) × (s.state ≡ candidate)
        ⊎ (s.cstate ≡ record zero_cstate { election_term = s.pstate.current_term })
          × ((s.state ≡ candidate) ⊎ (s.state ≡ leader) × (majority (r.peer_count + 1) ≡ 1)))

start_election-Started :
    (r : RaftNode) (cap : ℕ)
    → r.pstate.current_term < raft_none
    → Started r (start_election r cap).0
unfolding start_election
start_election-Started r cap fits = ground arith

-- The requests name their sender, in its term.
abbrev pub Names : ℕ → RequestVoteRequest → RaftNode × List RaftMessage → Type 0
Names id q done =
    In q (requests_of done.1) → (q.term ≡ done.0.pstate.current_term) × (q.candidate_id ≡ id)

election-outcome :
    (failed? single : Bool) (r₁ r₂ r₃ : RaftNode) (req q : RequestVoteRequest) (n cap id : ℕ)
    → req.term ≡ r₃.pstate.current_term
    → req.candidate_id ≡ id
    → Names id q
        (if failed? then (r₁, []) else if single then (r₂, []) else (r₃, vote_requests req n 0 cap))
election-outcome true single r₁ r₂ r₃ req q n cap id e f h = absurd h
election-outcome false true r₁ r₂ r₃ req q n cap id e f h = absurd h
election-outcome false false r₁ r₂ r₃ req q n cap id e f h =
    let same = vote_requests-In req q n 0 cap h in
    (ap (λ x. x.term) same ∙ e, ap (λ x. x.candidate_id) same ∙ f)

start_election-requests :
    (r : RaftNode) (cap : ℕ) (q : RequestVoteRequest) → Names r.id q (start_election r cap)
unfolding start_election
start_election-requests r cap q =
    let (r₁, fine) = persist_state_locked (become_candidate r) in
    let r₃ = raft_reset_election_timer (raft_init_candidate_state r₁ r₁.pstate.current_term) in
    let req : RequestVoteRequest = record {
      term = r₃.pstate.current_term;
      last_log_index = raft_last_log_index r₃;
      last_log_term = raft_last_log_term r₃;
      candidate_id = r₃.id;
    } in
    election-outcome (not fine) (majority (r₃.peer_count + 1) == 1) r₁ (raft_init_leader_state r₃)
      r₃ req q r₃.peer_count cap r.id refl refl

timeout-outcome :
    (idle due : Bool) (r₁ r₂ : RaftNode) (started : RaftNode × List RaftMessage)
    (q : RequestVoteRequest) (id : ℕ)
    → Names id q started
    → Names id q (if idle then (r₁, []) else if due then started else (r₂, []))
timeout-outcome true due r₁ r₂ started q id h = λ x. absurd x
timeout-outcome false true r₁ r₂ started q id h = h
timeout-outcome false false r₁ r₂ started q id h = λ x. absurd x

pub timeout-requests :
    (r : RaftNode) (cap : ℕ) (q : RequestVoteRequest) → Names r.id q (raft_timeout r cap)
unfolding raft_timeout raft_election_timeout_expired
timeout-requests r cap q =
    let (r', due) = raft_election_timeout_expired r in
    timeout-outcome (is_failed r.state || is_leader r.state) due r r' (start_election r' cap) q r.id
      (start_election-requests r' cap q)

pub timeout_cases :
    (r : RaftNode) (cap : ℕ)
    → r.pstate.current_term < raft_none
    → Calm r (raft_timeout r cap).0 ⊎ Started r (raft_timeout r cap).0
unfolding raft_timeout raft_election_timeout_expired
timeout_cases r cap fits =
    ground (arith, start_election-Started (raft_election_timeout_expired r).0 cap fits)

NodeKnows-Started :
    (n : ℕ) (votes : Ledger) (k : ℕ) (r s : RaftNode)
    → NodeKnows n votes k r
    → VoteStands r.pstate s.pstate
    → Started r s
    → NodeKnows n (enter votes k s.pstate) k s
NodeKnows-Started n votes k r s know stands (id, peers, count, newer, own, rest) =
    let elect : s.cstate.election_term ≤ s.pstate.current_term = ground (arith, know.elect) in
    NodeKnows-moved n votes k r s know (id, peers, count, elect, stands) (λ a. own ∙ know.named)
      (λ a e j lt g. absurd (no_votes (id, peers, count, newer, own, rest) e j g))
      (first_lead (id, peers, count, newer, own, rest))
  where
    no_votes :
        Started r s
        → s.cstate.election_term ≡ s.pstate.current_term
        → (j : ℕ) → s.cstate.votes_granted j ≡ true
        → ⊥
    no_votes started e j g = ground (arith, know.elect)

    first_lead :
        Started r s
        → s.state ≡ leader
        → (s.cstate.election_term ≡ s.pstate.current_term)
          × (majority n ≤ 1 + count_votes s.cstate.votes_granted s.peer_count)
    first_lead started l =
        let alone : s.cstate ≡ record zero_cstate { election_term = s.pstate.current_term } =
          ground arith in
        let one : majority (r.peer_count + 1) ≡ 1 = ground arith in
        let all : n ≡ r.peer_count + 1 = omega (arith, know.size) in
        (ap (λ c. c.election_term) alone, omega (arith, ap majority all, one))

-- A time-out keeps what a server knows, its own vote in the new term included.
pub NodeKnows-timeout :
    (n : ℕ) (votes : Ledger) (k cap : ℕ) (r : RaftNode)
    → k ≢ raft_none
    → r.pstate.current_term < raft_none
    → NodeKnows n votes k r
    → NodeKnows n (enter votes k (raft_timeout r cap).0.pstate) k (raft_timeout r cap).0
NodeKnows-timeout n votes k cap r real fits know =
    let s = (raft_timeout r cap).0 in
    let stands = raft_timeout-VoteStands r cap fits in
    elim (timeout_cases r cap fits) [
      | inl calm ↦ NodeKnows-Calm n votes k r s real know calm stands
      | inr started ↦ NodeKnows-Started n votes k r s know stands started
    ]
