-- ===== src/Raft/Commit.antt =====
-- Commitment and delivery in raft.c: `AdvanceCommitIndex_locked` and `raft_commit_entry`.
use corestack_peky.Common.{
  ℕ, zero, suc, ◌+◌, ◌-◌, ◌<◌, ◌≤◌, ◌≡◌, refl, true, false, inl, inr, ◌⊎◌, arith, min, ℕ_discrete,
  Bool-cases, ltb, slice,
}
use native.Mathlib.Nat.{add-zero}
use corestack_peky.Raft.Types.{leader, RaftNode}
use corestack_peky.Raft.Election.{majority}
use corestack_peky.Raft.Replication.{
  count_matches, commits_at, advance_from, advance_commit_index_locked, commit_loop,
  raft_commit_entry,
}

-- Entry `n` may be committed: it is of the leader's term, and a majority of the cluster, the leader
-- included, holds the log up to it.
abbrev pub MayCommit : RaftNode → ℕ → Type 0
MayCommit r n =
    ((r.pstate.log (n - 1)).term ≡ r.pstate.current_term)
    × (majority (r.peer_count + 1) ≤ 1 + count_matches r.lstate.match_index n r.peer_count)

commits_at_lem : (r : RaftNode) (n : ℕ) → commits_at r n ≡ true → MayCommit r n
unfolding commits_at
commits_at_lem r n h = ground arith

MayCommit-commits_at : (r : RaftNode) (n : ℕ) → MayCommit r n → commits_at r n ≡ true
unfolding commits_at
MayCommit-commits_at r n h = ground arith

advance_from_sound :
    (r : RaftNode) (n : ℕ)
    → (advance_from r n ≡ r.vstate.commit_index)
      ⊎ (r.vstate.commit_index < advance_from r n)
        × (advance_from r n ≤ n)
        × MayCommit r (advance_from r n)
unfolding advance_from
advance_from_sound r zero = inl refl
advance_from_sound r (suc n) = elim (Bool-cases (ltb r.vstate.commit_index (suc n))) [
  | inr done ↦ rw done (inl refl)
  | inl open' ↦ elim (Bool-cases (commits_at r (suc n))) [
    | inl hit ↦ rw (open', hit) (inr (ground arith, omega arith, commits_at_lem r (suc n) hit))
    | inr miss ↦ rw (open', miss) (ground (arith, advance_from_sound r n))
  ]
]

advance_from_max :
    (r : RaftNode) (n k : ℕ)
    → r.vstate.commit_index < k
    → k ≤ n
    → MayCommit r k
    → k ≤ advance_from r n
unfolding advance_from
advance_from_max r zero k lo hi m = absurd (omega arith)
advance_from_max r (suc n) k lo hi m = elim (Bool-cases (commits_at r (suc n))) [
  | inl hit ↦ ground arith
  | inr miss ↦ elim (ℕ_discrete k (suc n)) [
    | yes e ↦ absurd (ground (arith, MayCommit-commits_at r (suc n) (rw e at m)))
    | no ne ↦ ground (arith, advance_from_max r n k lo (omega arith) m)
  ]
]

advance_commit_index_locked-leader :
    (r : RaftNode)
    → r.state ≡ leader
    → (advance_commit_index_locked r).vstate.commit_index ≡ advance_from r r.pstate.log_len
unfolding advance_commit_index_locked
advance_commit_index_locked-leader r h = ground arith

-- On a leader the commit index becomes the largest index of the log that may be committed: an entry
-- of the leader's own term that a majority holds. It never falls, and stays if there is none.
pub advance_commit_index_locked_lem :
    (r : RaftNode)
    → r.state ≡ leader
    → let c = (advance_commit_index_locked r).vstate.commit_index in
      ((c ≡ r.vstate.commit_index)
        ⊎ (r.vstate.commit_index < c) × (c ≤ r.pstate.log_len) × MayCommit r c)
      × ((k : ℕ) → r.vstate.commit_index < k → k ≤ r.pstate.log_len → MayCommit r k → k ≤ c)
advance_commit_index_locked_lem r h =
    rw (advance_commit_index_locked-leader r h)
      (advance_from_sound r r.pstate.log_len, λ k. advance_from_max r r.pstate.log_len k)

-- What one delivery hands out.
abbrev pub due : RaftNode → ℕ → ℕ
due r room = min room (r.vstate.commit_index - r.vstate.last_applied)

abbrev pub applied : RaftNode → ℕ → RaftNode
applied r n = record r { vstate = record (r.vstate) { last_applied = r.vstate.last_applied + n } }

commit_loop_lem :
    (room : ℕ) (r : RaftNode) (n : ℕ)
    → n ≡ due r room
    → commit_loop room r ≡ (applied r n, slice r.pstate.log r.vstate.last_applied n)
unfolding commit_loop
commit_loop_lem zero r n e = let z : n ≡ 0 = omega arith in rw (z, add-zero)
commit_loop_lem (suc room) r zero e =
    let stop : ltb r.vstate.last_applied r.vstate.commit_index ≡ false = ground arith in
    rw (stop, add-zero)
commit_loop_lem (suc room) r (suc n) e =
    let go : ltb r.vstate.last_applied r.vstate.commit_index ≡ true = ground arith in
    let more : r.vstate.last_applied + 1 + n ≡ r.vstate.last_applied + suc n = omega arith in
    rw (go, commit_loop_lem room (applied r 1) n (omega arith), more)

-- `raft_commit_entry` hands out the committed entries that were not handed out before, in log order
-- and as many as fit, and counts them as applied. Nothing else of the node changes.
pub raft_commit_entry_lem :
    (r : RaftNode) (room : ℕ)
    → raft_commit_entry r room
      ≡ (applied r (due r room), slice r.pstate.log r.vstate.last_applied (due r room))
unfolding raft_commit_entry
raft_commit_entry_lem r room = commit_loop_lem room r (due r room) refl
