-- ===== src/Raft/Cluster/Run.antt =====
-- A cluster: servers, the vote requests and answers under way, and what can happen.
use corestack_peky.Common.{ℕ, suc, ◌≤◌, ◌<◌, ◌≡◌, List, [], ◌∷◌, ◌++◌, update}
use corestack_peky.Raft.Types.{
  follower, RaftNode, raft_none, RequestVoteRequest, RequestVoteResponse,
}
use corestack_peky.Raft.Election.{
  raft_timeout, handle_request_vote_request, handle_request_vote_response,
}
use corestack_peky.Raft.Events.{
  RaftEvent, timeout, vote_request, vote_response, append_request, append_response, command,
  deliver, newer_term, step,
}
use corestack_peky.Raft.Cluster.Voters.{voter}
use corestack_peky.Raft.Cluster.Elect.{requests_of, In}

-- An answer, the server that gave it, and the candidate that it goes to.
pub record Answer : Type 0 where
  pub from : ℕ
  pub to : ℕ
  pub content : RequestVoteResponse

pub record Cluster : Type 0 where
  pub nodes : ℕ → RaftNode
  pub requests : List RequestVoteRequest
  pub answers : List Answer

-- Messages stay under way: they can come in any order, again, or never.
pub data Occurrence : Type 0 where
  election : ℕ → ℕ → Occurrence
  asked : ℕ → RequestVoteRequest → Occurrence
  answered : Answer → Occurrence
  other_call : ℕ → RaftEvent → Occurrence

-- The calls that exchange no votes; their arguments can be anything.
abbrev pub IsOther : RaftEvent → Type 0
IsOther (timeout cap) = ⊥
IsOther (vote_request req) = ⊥
IsOther (vote_response resp peer) = ⊥
IsOther (append_request req) = Unit {0}
IsOther (append_response resp peer) = Unit {0}
IsOther (command c) = Unit {0}
IsOther (deliver cap) = Unit {0}
IsOther (newer_term t) = Unit {0}

-- Only what was sent comes; a term below its largest value can be left by a time-out.
abbrev pub Possible : ℕ → Cluster → Occurrence → Type 0
Possible n c (election k cap) = (k < n) × ((c.nodes k).pstate.current_term < raft_none)
Possible n c (asked v req) = (v < n) × In req c.requests
Possible n c (answered a) = In a c.answers
Possible n c (other_call k e) = (k < n) × IsOther e

abbrev pub happens : Cluster → Occurrence → Cluster
happens c (election k cap) =
    let (s, out) = raft_timeout (c.nodes k) cap in
    record c { nodes = update c.nodes k s; requests = requests_of out ++ c.requests }
happens c (asked v req) =
    let (s, resp) = handle_request_vote_request (c.nodes v) req in
    record c {
      nodes = update c.nodes v s;
      answers = record { from = v; to = req.candidate_id; content = resp } ∷ c.answers;
    }
happens c (answered a) = record c {
  nodes = update c.nodes a.to (handle_request_vote_response (c.nodes a.to) a.content a.from);
}
happens c (other_call k e) = record c { nodes = update c.nodes k (step (c.nodes k) e) }

-- Node `k` before it has voted, with the other servers as its peers.
pub record IsFresh (n k : ℕ) (r : RaftNode) : Type 0 where
  pub named : r.id ≡ k
  pub size : suc r.peer_count ≡ n
  pub peer_ids : (j : ℕ) → j < r.peer_count → (r.peers j).id ≡ voter k j
  pub follows : r.state ≡ follower
  pub unvoted : r.pstate.voted_for ≡ raft_none
  pub elect : r.cstate.election_term ≤ r.pstate.current_term

-- The clusters that `n` servers can come to.
pub data Reaches (n : ℕ) (start : ℕ → RaftNode) : Cluster → Type 0 where
  begin : Reaches n start (record { nodes = start; requests = []; answers = [] })
  after :
      {c : Cluster} (o : Occurrence)
      → Reaches n start c
      → Possible n c o
      → Reaches n start (happens c o)
