-- ===== src/Raft/Cluster/Voters.antt =====
-- The servers behind a node's peers, and the votes counted over them.
use corestack_peky.Common.{
  ℕ, zero, suc, ◌+◌, ◌≤◌, ◌<◌, ◌≡◌, refl, sym, ap, ◌∙◌, arith, Bool, true, Option, none, some, ltb,
  ◌==◌, ◌⊎◌, inl, inr, Bool-cases, if◌then◌else◌, ltb→lt,
}
use corestack_peky.Raft.Types.{RaftNode}
use corestack_peky.Raft.Election.{count_votes, find_peer_idx, find_peer_from}

-- The server that node `k` has at place `j` of its peers: all but itself, in order.
abbrev pub voter : ℕ → ℕ → ℕ
voter k j = if ltb j k then j else suc j

pub voter-bound : (k j n : ℕ) → suc j < n → voter k j < n
voter-bound k j n h = ground arith

voter-below : (k j : ℕ) → j < k → voter k j ≡ j
voter-below k j h = ground arith

voter-above : (k j : ℕ) → k ≤ j → voter k j ≡ suc j
voter-above k j h = ground arith

count_votes-below :
    (f : ℕ → Bool) (k m : ℕ) → m ≤ k → count_votes (λ j. f (voter k j)) m ≡ count_votes f m
unfolding count_votes
count_votes-below f k zero h = refl
count_votes-below f k (suc m) h =
    rw (voter-below k m (omega arith), count_votes-below f k m (omega arith)) refl

-- Counting a set of servers below `n` by node `k`: itself, and its peers.
pub count_votes-voter :
    (f : ℕ → Bool) (k m : ℕ)
    → k ≤ m
    → f k ≡ true
    → 1 + count_votes (λ j. f (voter k j)) m ≡ count_votes f (suc m)
unfolding count_votes
count_votes-voter f k zero h own = let same : k ≡ 0 = omega arith in rw (ap f (sym same) ∙ own) refl
count_votes-voter f k (suc m) h own = elim (Bool-cases (ltb m k)) [
  | inl t ↦
      let same : k ≡ suc m = omega (arith, ltb→lt m k t) in
      rw (count_votes-below f k (suc m) (omega arith), ap f (sym same) ∙ own) (omega arith)
  | inr u ↦
      let le : k ≤ m = ground (arith, u) in
      let ih = count_votes-voter f k m le own in rw (voter-above k m le) (omega (arith, ih))
]

pub count_votes-most :
    (f g : ℕ → Bool) (n : ℕ)
    → ((i : ℕ) → i < n → f i ≡ true → g i ≡ true)
    → count_votes f n ≤ count_votes g n
unfolding count_votes
count_votes-most f g zero h = omega arith
count_votes-most f g (suc n) h =
    let rest = count_votes-most f g n (λ i lt e. h i (omega arith) e) in
    let last = h n (omega arith) in ground (arith, rest, last)

-- A peer that is found is one of the node's, with that id.
find_peer_from_lem :
    (r : RaftNode) (peer n i j : ℕ) (found : Option ℕ)
    → find_peer_from r peer n i found ≡ some j
    → (found ≡ some j) ⊎ (j < i + n) × ((r.peers j).id ≡ peer)
unfolding find_peer_from
find_peer_from_lem r peer zero i j found e = inl e
find_peer_from_lem r peer (suc n) i j found e = ground (
  arith,
  find_peer_from_lem r peer n (i + 1) j (if (r.peers i).id == peer then some i else found) e,
)

pub find_peer_idx_lem :
    (r : RaftNode) (peer j : ℕ)
    → find_peer_idx r peer ≡ some j
    → (j < r.peer_count) × ((r.peers j).id ≡ peer)
unfolding find_peer_idx
find_peer_idx_lem r peer j e =
    let found = find_peer_from_lem r peer r.peer_count 0 j none e in ground (arith, found)
