-- ===== src/Raft/Cluster/Honest.antt =====
-- What holds of a cluster at all times, by the votes that were given.
use corestack_peky.Common.{ℕ, ◌≤◌, ◌<◌, ◌≡◌, ◌≢◌, arith, true, inl, inr, Bool-cases, ◌==◌, update}
use corestack_peky.Raft.Types.{RaftNode, RequestVoteRequest, RequestVoteResponse}
use corestack_peky.Raft.Terms.{VoteStands}
use corestack_peky.Raft.Cluster.Network.{Ledger, Grows, enter, NodeKnows, Grows-enter}
use corestack_peky.Raft.Cluster.Keeps.{NodeKnows-other}
use corestack_peky.Raft.Cluster.Elect.{In}
use corestack_peky.Raft.Cluster.Answers.{IsTrue}
use corestack_peky.Raft.Cluster.Run.{Answer, Cluster}

abbrev pub RequestSent : ℕ → (ℕ → RaftNode) → RequestVoteRequest → Type 0
RequestSent n nodes q = (q.candidate_id < n) × (q.term ≤ (nodes q.candidate_id).pstate.current_term)

abbrev pub AnswerSent : ℕ → Ledger → (ℕ → RaftNode) → Answer → Type 0
AnswerSent n votes nodes a =
    (a.to < n) × (a.content.vote_granted ≡ true → IsTrue votes a.content a.from a.to (nodes a.to))

-- What holds of a cluster, by the votes that were given.
pub record IsHonest (n : ℕ) (votes : Ledger) (c : Cluster) : Type 0 where
  pub knows : (k : ℕ) → k < n → NodeKnows n votes k (c.nodes k)
  pub asks : (q : RequestVoteRequest) → In q c.requests → RequestSent n c.nodes q
  pub answers : (a : Answer) → In a c.answers → AnswerSent n votes c.nodes a

pub update-same : (nodes : ℕ → RaftNode) (k : ℕ) (s : RaftNode) → update nodes k s k ≡ s
update-same nodes k s = ground arith

update-other :
    (nodes : ℕ → RaftNode) (k i : ℕ) (s : RaftNode) → i ≢ k → update nodes k s i ≡ nodes i
update-other nodes k i s h = ground arith

pub later-term :
    (nodes : ℕ → RaftNode) (k i : ℕ) (s : RaftNode)
    → VoteStands (nodes k).pstate s.pstate
    → (nodes i).pstate.current_term ≤ (update nodes k s i).pstate.current_term
later-term nodes k i s stands = elim (Bool-cases (k == i)) [
  | inl t ↦
      let same : k ≡ i = ground (arith, t) in
      rw (← same, update-same nodes k s) (ground (arith, stands))
  | inr f ↦ rw f (omega arith)
]

IsTrue-later :
    (votes votes' : Ledger) (resp : RequestVoteResponse) (v k : ℕ) (r s : RaftNode)
    → Grows votes votes'
    → r.pstate.current_term ≤ s.pstate.current_term
    → IsTrue votes resp v k r
    → IsTrue votes' resp v k s
IsTrue-later votes votes' resp v k r s grows le (inl old) = inl (omega arith)
IsTrue-later votes votes' resp v k r s grows le (inr voted) = inr (grows v resp.term k voted)

-- One node moves.
pub IsHonest-node :
    (n k : ℕ) (votes : Ledger) (c : Cluster) (s : RaftNode)
    → IsHonest n votes c
    → k < n
    → VoteStands (c.nodes k).pstate s.pstate
    → NodeKnows n (enter votes k s.pstate) k s
    → IsHonest n (enter votes k s.pstate) (record c { nodes = update c.nodes k s })
IsHonest-node n k votes c s honest lt stands know =
    let grows = Grows-enter n votes k (c.nodes k) s (honest.knows k lt) stands in
    record {
      knows = λ i lt'. elim (Bool-cases (k == i)) [
        | inl t ↦ let same : k ≡ i = ground (arith, t) in rw (← same, update-same c.nodes k s) know
        | inr f ↦
            let other : i ≢ k = ground (arith, f) in
            rw (update-other c.nodes k i s other)
              (NodeKnows-other n votes i k (c.nodes i) s.pstate other grows (honest.knows i lt'))
      ];
      asks = λ q h.
          let (bound, term) = honest.asks q h in
          (bound, omega (arith, term, later-term c.nodes k q.candidate_id s stands));
      answers = λ a h.
          let (bound, true_to) = honest.answers a h in
          (
            bound,
            λ g.
                IsTrue-later votes (enter votes k s.pstate) a.content a.from a.to (c.nodes a.to)
                  (update c.nodes k s a.to) grows (later-term c.nodes k a.to s stands) (true_to g),
          );
    }
