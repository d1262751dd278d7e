-- ===== src/Raft/Cluster/Keeps.antt =====
-- Calls keep what a server knows.
use corestack_peky.Common.{
  ℕ, suc, ◌+◌, ◌≤◌, ◌<◌, ◌≡◌, ◌≢◌, sym, ap, ◌∙◌, arith, true, some, ◌==◌, ◌⊎◌, inl, inr, Bool-cases,
}
use corestack_peky.Raft.Types.{candidate, leader, RaftNode, PersistentState, raft_none}
use corestack_peky.Raft.Election.{count_votes, majority}
use corestack_peky.Raft.Terms.{VoteStands}
use corestack_peky.Raft.Cluster.Calm.{Calm}
use corestack_peky.Raft.Cluster.Voters.{voter}
use corestack_peky.Raft.Cluster.Network.{
  Ledger, Grows, vote_of, enter, NodeKnows, Moves, enter-here, enter-other, enter-earlier,
  vote_of-some, vote_of-voted, Grows-enter,
}

-- A vote of one server changes nothing for another, except that more votes are known.
pub NodeKnows-other :
    (n : ℕ) (votes : Ledger) (i k : ℕ) (r : RaftNode) (p : PersistentState)
    → i ≢ k
    → Grows votes (enter votes k p)
    → NodeKnows n votes i r
    → NodeKnows n (enter votes k p) i r
NodeKnows-other n votes i k r p other grows know = record {
  named = know.named;
  size = know.size;
  peer_ids = know.peer_ids;
  past = λ t c e. know.past t c (sym (enter-other votes k i t p other) ∙ e);
  now = λ h. grows i r.pstate.current_term r.pstate.voted_for (know.now h);
  elect = know.elect;
  active = know.active;
  granted = λ a e j lt g. grows (voter i j) r.pstate.current_term i (know.granted a e j lt g);
  leads = know.leads;
}

-- A node that moved knows its own vote, and what it knew.
pub NodeKnows-moved :
    (n : ℕ) (votes : Ledger) (k : ℕ) (r s : RaftNode)
    → NodeKnows n votes k r
    → Moves r s
    → ((s.state ≡ candidate) ⊎ (s.state ≡ leader) → s.pstate.voted_for ≡ k)
    → ((s.state ≡ candidate) ⊎ (s.state ≡ leader)
        → s.cstate.election_term ≡ s.pstate.current_term
        → (j : ℕ) → j < s.peer_count
        → s.cstate.votes_granted j ≡ true
        → enter votes k s.pstate (voter k j) s.pstate.current_term ≡ some k)
    → (s.state ≡ leader
        → (s.cstate.election_term ≡ s.pstate.current_term)
          × (majority n ≤ 1 + count_votes s.cstate.votes_granted s.peer_count))
    → NodeKnows n (enter votes k s.pstate) k s
NodeKnows-moved n votes k r s know (id, peers, count, elect, stands) active granted leads = record {
  named = id ∙ know.named;
  size = ap suc count ∙ know.size;
  peer_ids = λ j lt. ap (λ ps. (ps j).id) peers ∙ know.peer_ids j (omega (arith, count));
  past = moved-past;
  now = λ h. enter-here votes k s.pstate ∙ vote_of-voted s.pstate h;
  elect = elect;
  active = active;
  granted = granted;
  leads = leads;
}
  where
    moved-past :
        (t c : ℕ)
        → enter votes k s.pstate k t ≡ some c
        → (c ≢ raft_none)
          × ((t < s.pstate.current_term) ⊎ (t ≡ s.pstate.current_term) × (s.pstate.voted_for ≡ c))
    moved-past t c e = elim (Bool-cases (t == s.pstate.current_term)) [
      | inl h ↦
          let same : t ≡ s.pstate.current_term = ground (arith, h) in
          let e' : vote_of s.pstate ≡ some c =
            sym (enter-here votes k s.pstate) ∙ ap (enter votes k s.pstate k) (sym same) ∙ e in
          let (real, voted) = vote_of-some s.pstate c e' in (real, inr (same, voted))
      | inr h ↦
          let earlier : t ≢ s.pstate.current_term = ground (arith, h) in
          let e' : votes k t ≡ some c = sym (enter-earlier votes k k t s.pstate earlier) ∙ e in
          let (real, when) = know.past t c e' in (real, inl (ground (arith, earlier, when, stands)))
    ]

-- After a calm call a node is a candidate or a leader only as before.
Calm-same :
    (r s : RaftNode)
    → Calm r s
    → (s.state ≡ candidate) ⊎ (s.state ≡ leader)
    → (s.state ≡ r.state) × (s.pstate.current_term ≡ r.pstate.current_term) × (s.cstate ≡ r.cstate)
Calm-same r s (id, peers, count, later, cstate, state) a = ground arith

same-active :
    (r s : RaftNode)
    → s.state ≡ r.state
    → (s.state ≡ candidate) ⊎ (s.state ≡ leader)
    → (r.state ≡ candidate) ⊎ (r.state ≡ leader)
same-active r s same (inl c) = inl (sym same ∙ c)
same-active r s same (inr l) = inr (sym same ∙ l)

-- A calm call.
pub NodeKnows-Calm :
    (n : ℕ) (votes : Ledger) (k : ℕ) (r s : RaftNode)
    → k ≢ raft_none
    → NodeKnows n votes k r
    → Calm r s
    → VoteStands r.pstate s.pstate
    → NodeKnows n (enter votes k s.pstate) k s
NodeKnows-Calm n votes k r s real know (id, peers, count, later, cstate, state) stands =
    let calm : Calm r s = (id, peers, count, later, cstate, state) in
    let elect : s.cstate.election_term ≤ s.pstate.current_term = ground (arith, know.elect) in
    NodeKnows-moved n votes k r s know (id, peers, count, elect, stands) (calm-active calm)
      (calm-granted calm) (calm-leads calm)
  where
    calm-active : Calm r s → (s.state ≡ candidate) ⊎ (s.state ≡ leader) → s.pstate.voted_for ≡ k
    calm-active calm a =
        let (state', term, votes') = Calm-same r s calm a in
        let own = know.active (same-active r s state' a) in ground (arith, own, term, stands)

    calm-granted :
        Calm r s
        → (s.state ≡ candidate) ⊎ (s.state ≡ leader)
        → s.cstate.election_term ≡ s.pstate.current_term
        → (j : ℕ) → j < s.peer_count
        → s.cstate.votes_granted j ≡ true
        → enter votes k s.pstate (voter k j) s.pstate.current_term ≡ some k
    calm-granted calm a e j lt g =
        let (state', term, votes') = Calm-same r s calm a in
        let known =
          know.granted (same-active r s state' a)
            (ap (λ c. c.election_term) (sym votes') ∙ (e ∙ term)) j (omega (arith, count))
            (ap (λ c. c.votes_granted j) (sym votes') ∙ g) in
        Grows-enter n votes k r s know stands (voter k j) s.pstate.current_term k
          (ap (votes (voter k j)) term ∙ known)

    calm-leads :
        Calm r s
        → s.state ≡ leader
        → (s.cstate.election_term ≡ s.pstate.current_term)
          × (majority n ≤ 1 + count_votes s.cstate.votes_granted s.peer_count)
    calm-leads calm l =
        let (state', term, votes') = Calm-same r s calm (inr l) in
        let (e, quorum) = know.leads (sym state' ∙ l) in
        (ap (λ c. c.election_term) votes' ∙ (e ∙ sym term), rw (votes', count) quorum)
