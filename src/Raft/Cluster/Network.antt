-- ===== src/Raft/Cluster/Network.antt =====
-- The votes that servers have given, and what a server knows of them.
use corestack_peky.Common.{
  ℕ, suc, ◌+◌, ◌≤◌, ◌<◌, ◌≡◌, ◌≢◌, sym, ap, ◌∙◌, arith, true, Option, none, some, ◌==◌, ◌&&◌, ◌⊎◌,
  inl, inr, Bool-cases, if◌then◌else◌,
}
use corestack_peky.Raft.Types.{candidate, leader, RaftNode, PersistentState, raft_none}
use corestack_peky.Raft.Election.{count_votes, majority}
use corestack_peky.Raft.Terms.{VoteStands}
use corestack_peky.Raft.Cluster.Voters.{voter}

-- Whom a server has voted for in a term.
abbrev pub Ledger : Type 0
Ledger = ℕ → ℕ → Option ℕ

abbrev pub Grows : Ledger → Ledger → Type 0
Grows votes votes' = (v t c : ℕ) → votes v t ≡ some c → votes' v t ≡ some c

abbrev pub vote_of : PersistentState → Option ℕ
vote_of p = if p.voted_for == raft_none then none else some p.voted_for

-- The vote that a server now has is entered.
abbrev pub enter : Ledger → ℕ → PersistentState → Ledger
enter votes k p v t = if v == k && t == p.current_term then vote_of p else votes v t

-- What node `k` of `n` knows.
pub record NodeKnows (n : ℕ) (votes : Ledger) (k : ℕ) (r : RaftNode) : Type 0 where
  pub named : r.id ≡ k
  pub size : suc r.peer_count ≡ n
  pub peer_ids : (j : ℕ) → j < r.peer_count → (r.peers j).id ≡ voter k j
  pub past :
      (t c : ℕ)
      → votes k t ≡ some c
      → (c ≢ raft_none)
        × ((t < r.pstate.current_term) ⊎ (t ≡ r.pstate.current_term) × (r.pstate.voted_for ≡ c))
  pub now : r.pstate.voted_for ≢ raft_none → votes k r.pstate.current_term ≡ some r.pstate.voted_for
  pub elect : r.cstate.election_term ≤ r.pstate.current_term
  pub active : (r.state ≡ candidate) ⊎ (r.state ≡ leader) → r.pstate.voted_for ≡ k
  pub granted :
      (r.state ≡ candidate) ⊎ (r.state ≡ leader)
      → r.cstate.election_term ≡ r.pstate.current_term
      → (j : ℕ) → j < r.peer_count
      → r.cstate.votes_granted j ≡ true
      → votes (voter k j) r.pstate.current_term ≡ some k
  pub leads :
      r.state ≡ leader
      → (r.cstate.election_term ≡ r.pstate.current_term)
        × (majority n ≤ 1 + count_votes r.cstate.votes_granted r.peer_count)

-- What a call changes of a node, as far as names and terms go.
abbrev pub Moves : RaftNode → RaftNode → Type 0
Moves r s =
    (s.id ≡ r.id)
    × (s.peers ≡ r.peers)
    × (s.peer_count ≡ r.peer_count)
    × (s.cstate.election_term ≤ s.pstate.current_term)
    × VoteStands r.pstate s.pstate

pub enter-here :
    (votes : Ledger) (k : ℕ) (p : PersistentState) → enter votes k p k p.current_term ≡ vote_of p
enter-here votes k p = ground arith

pub enter-other :
    (votes : Ledger) (k v t : ℕ) (p : PersistentState) → v ≢ k → enter votes k p v t ≡ votes v t
enter-other votes k v t p other = ground arith

pub enter-earlier :
    (votes : Ledger) (k v t : ℕ) (p : PersistentState)
    → t ≢ p.current_term
    → enter votes k p v t ≡ votes v t
enter-earlier votes k v t p other = ground arith

pub vote_of-some :
    (p : PersistentState) (c : ℕ) → vote_of p ≡ some c → (c ≢ raft_none) × (p.voted_for ≡ c)
vote_of-some p c e = ground arith

pub vote_of-voted : (p : PersistentState) → p.voted_for ≢ raft_none → vote_of p ≡ some p.voted_for
vote_of-voted p e = ground arith

pub Grows-enter :
    (n : ℕ) (votes : Ledger) (k : ℕ) (r s : RaftNode)
    → NodeKnows n votes k r
    → VoteStands r.pstate s.pstate
    → Grows votes (enter votes k s.pstate)
Grows-enter n votes k r s know stands v t c e =
    elim (Bool-cases (v == k && t == s.pstate.current_term)) [
      | inr f ↦ rw f e
      | inl h ↦
          let here : v ≡ k = ground arith in
          let now : t ≡ s.pstate.current_term = ground arith in
          let e' : votes k s.pstate.current_term ≡ some c =
            ap (votes k) (sym now) ∙ ap (λ x. votes x t) (sym here) ∙ e in
          let (real, when) = know.past s.pstate.current_term c e' in
          let voted : s.pstate.voted_for ≡ c = ground (arith, real, when, stands) in
          rw h (rw (sym voted) (vote_of-voted s.pstate (λ x. real (sym voted ∙ x))))
    ]
