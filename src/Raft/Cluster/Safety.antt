-- ===== src/Raft/Cluster/Safety.antt =====
-- Election safety: never two leaders in one term.
use corestack_peky.Common.{
  ℕ, ◌≤◌, ◌<◌, ◌≡◌, ◌≢◌, sym, ap, ◌∙◌, arith, Bool, true, false, Option, none, some, some-injective,
  inr, ◌==◌,
}
use corestack_peky.Raft.Types.{leader, RaftNode, raft_none}
use corestack_peky.Raft.Election.{count_votes, majority}
use corestack_peky.Raft.Elections.{quorums_meet}
use corestack_peky.Raft.Cluster.Voters.{voter, count_votes-voter, count_votes-most}
use corestack_peky.Raft.Cluster.Network.{Ledger, NodeKnows}
use corestack_peky.Raft.Cluster.Run.{Cluster, IsFresh, Reaches}
use corestack_peky.Raft.Cluster.Occurs.{Reaches-IsHonest}

-- Whether a vote is one for `c`.
abbrev is_for : ℕ → Option ℕ → Bool
is_for c none = false
is_for c (some d) = d == c

is_for-some : (c : ℕ) (vote : Option ℕ) → is_for c vote ≡ true → vote ≡ some c
is_for-some c none h = ground (arith, h)
is_for-some c (some d) h = ground (arith, h)

is_for-same : (c : ℕ) (vote : Option ℕ) → vote ≡ some c → is_for c vote ≡ true
is_for-same c none h = ground (arith, h)
is_for-same c (some d) h = ground (arith, h)

-- A leader has the votes of a majority in its term.
leader-quorum :
    (n k : ℕ) (votes : Ledger) (r : RaftNode)
    → k < n
    → k ≢ raft_none
    → NodeKnows n votes k r
    → r.state ≡ leader
    → majority n ≤ count_votes (λ v. is_for k (votes v r.pstate.current_term)) n
leader-quorum n k votes r lt real know lead =
    let t = r.pstate.current_term in
    let f : ℕ → Bool = λ v. is_for k (votes v t) in
    let (e, most) = know.leads lead in
    let own : r.pstate.voted_for ≡ k = know.active (inr lead) in
    let mine : f k ≡ true =
      is_for-same k (votes k t) (know.now (λ x. real (sym own ∙ x)) ∙ ap some own) in
    let counted =
      count_votes-most r.cstate.votes_granted (λ j. f (voter k j)) r.peer_count
        (λ j lt' g. is_for-same k (votes (voter k j) t) (know.granted (inr lead) e j lt' g)) in
    let all = count_votes-voter f k r.peer_count (omega (arith, lt, know.size)) mine in
    rw (← know.size) (omega (arith, most, counted, all, ap majority know.size))

-- At most `raft_none` servers begin as followers without a vote, each with the others as its peers.
-- Elections, vote requests and answers (only ones that were sent, in any order, again, or never) and
-- all other calls follow, with any arguments, where no time-out comes in the largest term. Then two
-- servers that lead in the same term are the same server.
pub one_leader :
    (n i j : ℕ) (start : ℕ → RaftNode) (c : Cluster)
    → n ≤ raft_none
    → ((k : ℕ) → k < n → IsFresh n k (start k))
    → Reaches n start c
    → i < n
    → j < n
    → (c.nodes i).state ≡ leader
    → (c.nodes j).state ≡ leader
    → (c.nodes i).pstate.current_term ≡ (c.nodes j).pstate.current_term
    → i ≡ j
one_leader n i j start c le fresh reach lti ltj leadi leadj same =
    let (votes, honest) = Reaches-IsHonest n start c le fresh reach in
    let t = (c.nodes j).pstate.current_term in
    let mi =
      leader-quorum n i votes (c.nodes i) lti (λ x. omega arith) (honest.knows i lti) leadi in
    let mj =
      leader-quorum n j votes (c.nodes j) ltj (λ x. omega arith) (honest.knows j ltj) leadj in
    let mi' : majority n ≤ count_votes (λ v. is_for i (votes v t)) n = rw (← same) mi in
    let (v, lt, fi, fj) =
      quorums_meet (λ v. is_for i (votes v t)) (λ v. is_for j (votes v t)) n mi' mj in
    some-injective _ _ (sym (is_for-some i (votes v t) fi) ∙ is_for-some j (votes v t) fj)
