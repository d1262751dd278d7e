-- ===== src/Raft/Cluster/Occurs.antt =====
-- Everything that can happen to a cluster keeps it honest.
use corestack_peky.Common.{
  ℕ, ◌≤◌, ◌<◌, ◌≡◌, ◌≢◌, ◌∙◌, subst, arith, none, List, [], ◌∷◌, ◌++◌, ◌⊎◌, inl, inr, update,
}
use corestack_peky.Raft.Types.{RaftNode, raft_none, RequestVoteRequest}
use corestack_peky.Raft.Election.{
  raft_timeout, handle_request_vote_request, handle_request_vote_response,
}
use corestack_peky.Raft.Events.{
  RaftEvent, timeout, vote_request, vote_response, append_request, append_response, command,
  deliver, newer_term, step,
}
use corestack_peky.Raft.Terms.{raft_timeout-VoteStands, vote_request-VoteStands, step-VoteStands}
use corestack_peky.Raft.Cluster.Network.{Ledger, enter, NodeKnows}
use corestack_peky.Raft.Cluster.Calm.{
  Calm, vote_request-Calm, append_request-Calm, append_response-Calm, command-Calm, deliver-Calm,
  update_term_locked-Calm,
}
use corestack_peky.Raft.Cluster.Keeps.{NodeKnows-Calm}
use corestack_peky.Raft.Cluster.Elect.{requests_of, In, timeout-requests, NodeKnows-timeout}
use corestack_peky.Raft.Cluster.Answers.{IsTrue-vote, NodeKnows-answer, answer-VoteStands}
use corestack_peky.Raft.Cluster.Run.{
  Answer, Cluster, Occurrence, election, asked, answered, other_call, IsOther, Possible, happens,
  IsFresh, Reaches, begin, after,
}
use corestack_peky.Raft.Cluster.Honest.{IsHonest, update-same, later-term, IsHonest-node}

other-Calm : (r : RaftNode) (e : RaftEvent) → IsOther e → Calm r (step r e)
unfolding step
other-Calm r (timeout cap) h = absurd h
other-Calm r (vote_request req) h = absurd h
other-Calm r (vote_response resp peer) h = absurd h
other-Calm r (append_request req) h = append_request-Calm r req
other-Calm r (append_response resp peer) h = append_response-Calm r resp peer
other-Calm r (command c) h = command-Calm r c
other-Calm r (deliver cap) h = deliver-Calm r cap
other-Calm r (newer_term t) h = update_term_locked-Calm r t

IsOther-timeout : (e : RaftEvent) (n : ℕ) → IsOther e → e ≡ timeout n → ⊥
IsOther-timeout e n other same = subst IsOther same other

-- A name below `n` is no stand-in for nobody.
below-real : (k n : ℕ) → k < n → n ≤ raft_none → k ≢ raft_none
below-real k n lt le e = omega arith

In-split : {A : Type 0} (x : A) (xs ys : List A) → In x (xs ++ ys) → In x xs ⊎ In x ys
In-split x [] ys h = inr h
In-split x (y ∷ xs) ys (inl e) = inl (inl e)
In-split x (y ∷ xs) ys (inr h) = elim (In-split x xs ys h) [ inl l ↦ inl (inr l) | inr r ↦ inr r ]

IsHonest-election :
    (n k cap : ℕ) (votes : Ledger) (c : Cluster)
    → n ≤ raft_none
    → k < n
    → (c.nodes k).pstate.current_term < raft_none
    → IsHonest n votes c
    → IsHonest n
        (enter votes k (raft_timeout (c.nodes k) cap).0.pstate)
        (happens c (election k cap))
IsHonest-election n k cap votes c le lt fits honest =
    let r = c.nodes k in
    let s = (raft_timeout r cap).0 in
    let know = honest.knows k lt in
    let moved =
      IsHonest-node n k votes c s honest lt (raft_timeout-VoteStands r cap fits)
        (NodeKnows-timeout n votes k cap r (below-real k n lt le) fits know) in
    record {
      knows = moved.knows;
      asks = λ q h. elim (In-split q (requests_of (raft_timeout r cap).1) c.requests h) [
        | inl new ↦
            let (term, named) = timeout-requests r cap q new in
            let sender : q.candidate_id ≡ k = named ∙ know.named in
            (omega (arith, sender, lt), rw (sender, update-same c.nodes k s, term) (omega arith))
        | inr old ↦ moved.asks q old
      ];
      answers = moved.answers;
    }

IsHonest-asked :
    (n v : ℕ) (votes : Ledger) (c : Cluster) (req : RequestVoteRequest)
    → n ≤ raft_none
    → v < n
    → In req c.requests
    → IsHonest n votes c
    → IsHonest n
        (enter votes v (handle_request_vote_request (c.nodes v) req).0.pstate)
        (happens c (asked v req))
IsHonest-asked n v votes c req le lt sent honest =
    let r = c.nodes v in
    let s = (handle_request_vote_request r req).0 in
    let stands = vote_request-VoteStands r req in
    let (bound, term) = honest.asks req sent in
    let moved = IsHonest-node n v votes c s honest lt stands (
      NodeKnows-Calm n votes v r s (below-real v n lt le) (honest.knows v lt)
        (vote_request-Calm r req) stands) in
    record {
      knows = moved.knows;
      asks = moved.asks;
      answers = λ a h. elim h [
        | inl new ↦ rw new (
          bound,
          λ g.
              IsTrue-vote votes v r (update c.nodes v s req.candidate_id) req
                (below-real req.candidate_id n bound le)
                (omega (arith, term, later-term c.nodes v req.candidate_id s stands)) g,
        )
        | inr old ↦ moved.answers a old
      ];
    }

IsHonest-answered :
    (n : ℕ) (votes : Ledger) (c : Cluster) (a : Answer)
    → n ≤ raft_none
    → In a c.answers
    → IsHonest n votes c
    → IsHonest n
        (enter votes a.to (handle_request_vote_response (c.nodes a.to) a.content a.from).pstate)
        (happens c (answered a))
IsHonest-answered n votes c a le sent honest =
    let r = c.nodes a.to in
    let (lt, true_to) = honest.answers a sent in
    IsHonest-node n a.to votes c (handle_request_vote_response r a.content a.from) honest lt
      (answer-VoteStands r a.content a.from)
      (NodeKnows-answer n votes a.to a.from r a.content (below-real a.to n lt le)
        (honest.knows a.to lt) true_to)

IsHonest-other_call :
    (n k : ℕ) (votes : Ledger) (c : Cluster) (e : RaftEvent)
    → n ≤ raft_none
    → k < n
    → IsOther e
    → IsHonest n votes c
    → IsHonest n (enter votes k (step (c.nodes k) e).pstate) (happens c (other_call k e))
IsHonest-other_call n k votes c e le lt other honest =
    let r = c.nodes k in
    let stands = step-VoteStands r e (λ m same. absurd (IsOther-timeout e m other same)) in
    IsHonest-node n k votes c (step r e) honest lt stands (
      NodeKnows-Calm n votes k r (step r e) (below-real k n lt le) (honest.knows k lt)
        (other-Calm r e other) stands)

happens-IsHonest :
    (n : ℕ) (votes : Ledger) (c : Cluster) (o : Occurrence)
    → n ≤ raft_none
    → Possible n c o
    → IsHonest n votes c
    → (votes' : Ledger) × IsHonest n votes' (happens c o)
happens-IsHonest n votes c (election k cap) le (lt, fits) honest =
    (_, IsHonest-election n k cap votes c le lt fits honest)
happens-IsHonest n votes c (asked v req) le (lt, sent) honest =
    (_, IsHonest-asked n v votes c req le lt sent honest)
happens-IsHonest n votes c (answered a) le sent honest =
    (_, IsHonest-answered n votes c a le sent honest)
happens-IsHonest n votes c (other_call k e) le (lt, other) honest =
    (_, IsHonest-other_call n k votes c e le lt other honest)

fresh-NodeKnows : (n k : ℕ) (r : RaftNode) → IsFresh n k r → NodeKnows n (λ v t. none) k r
fresh-NodeKnows n k r fresh = record {
  named = fresh.named;
  size = fresh.size;
  peer_ids = fresh.peer_ids;
  past = λ t c e. ground (arith, e);
  now = λ h. absurd (h fresh.unvoted);
  elect = fresh.elect;
  active = λ a. ground (arith, a, fresh.follows);
  granted = λ a e j lt g. ground (arith, a, fresh.follows);
  leads = λ l. ground (arith, l, fresh.follows);
}

-- Whatever a cluster comes to, there are votes by which it is honest.
pub Reaches-IsHonest :
    (n : ℕ) (start : ℕ → RaftNode) (c : Cluster)
    → n ≤ raft_none
    → ((k : ℕ) → k < n → IsFresh n k (start k))
    → Reaches n start c
    → (votes : Ledger) × IsHonest n votes c
Reaches-IsHonest n start _ le fresh begin = (
  (λ v t. none),
  record {
    knows = λ k lt. fresh-NodeKnows n k (start k) (fresh k lt);
    asks = λ q h. absurd h;
    answers = λ a h. absurd h;
  },
)
Reaches-IsHonest n start _ le fresh (after {c = c} o past can) =
    let (votes, honest) = Reaches-IsHonest n start c le fresh past in
    happens-IsHonest n votes c o le can honest
