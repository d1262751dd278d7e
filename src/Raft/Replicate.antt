-- ===== src/Raft/Replicate.antt =====
-- Leader and follower together (raft.c): the request that a leader builds is one that a follower
-- with a matching log accepts.
use corestack_peky.Common.{
  ℕ, zero, suc, ◌+◌, ◌-◌, ◌<◌, ◌≤◌, ◌≡◌, refl, true, false, inl, inr, ◌⊎◌, arith, min, some, ◌∙◌,
  sym, ap, dec_lt, ℕ_discrete,
}
use corestack_peky.Raft.Types.{
  LogEntry, RaftNode, AppendEntriesRequest, AppendEntriesResponse, raft_log_cap, raft_append_batch,
  entry_line, truncate_line,
}
use corestack_peky.Raft.Os.{log_write, raft_now_msec}
use corestack_peky.Raft.Os.Lines.{Writable, log_write-Writable, writes-now, writes-now-random}
use corestack_peky.Raft.Election.{update_term_locked}
use corestack_peky.Raft.Replication.{
  raft_append_entries, append_one, append_loop, log_matches, follow_leader, accept_entries,
  handle_append_entries_request,
}
use corestack_peky.Raft.Votes.{update_term_locked-Writable}
use corestack_peky.Raft.Append.{Accepted, append_success, led, led_lem}

-- The previous entry that the request names is in the log.
abbrev pub FitsAt : RaftNode → AppendEntriesRequest → Type 0
FitsAt r req =
    (req.prev_log_index ≤ r.pstate.log_len)
    × ((req.prev_log_index ≡ 0)
        ⊎ ((r.pstate.log (req.prev_log_index - 1)).term ≡ req.prev_log_term))

append_one-succeeds :
    (req : AppendEntriesRequest) (i : ℕ) (r : RaftNode)
    → Writable r.log_open r.os
    → r.pstate.log_len ≤ raft_log_cap
    → req.prev_log_index + i ≤ r.pstate.log_len
    → req.prev_log_index + i < raft_log_cap
    → (req.log i).index ≡ req.prev_log_index + i + 1
    → let (s, going) = append_one req i r in
      (going ≡ true)
      × Writable s.log_open s.os
      × (s.pstate.log_len ≤ raft_log_cap)
      × (req.prev_log_index + (i + 1) ≤ s.pstate.log_len)
unfolding append_one
append_one-succeeds req i r w room reached free idx =
    let e = req.log i in
    let cut = log_write (truncate_line e.index) r.log_open r.os in
    ground (
      arith,
      log_write-Writable (truncate_line e.index) r.log_open r.os w,
      log_write-Writable (entry_line e) r.log_open r.os w,
      log_write-Writable (entry_line e) r.log_open cut.0,
    )

append_loop-succeeds :
    (req : AppendEntriesRequest) (n i : ℕ) (r : RaftNode)
    → Writable r.log_open r.os
    → r.pstate.log_len ≤ raft_log_cap
    → req.prev_log_index + i ≤ r.pstate.log_len
    → req.prev_log_index + (i + n) ≤ raft_log_cap
    → ((j : ℕ) → j < i + n → (req.log j).index ≡ req.prev_log_index + j + 1)
    → (append_loop req n i r).1 ≡ true
unfolding append_loop
append_loop-succeeds req zero i r w room reached free idx = refl
append_loop-succeeds req (suc n) i r w room reached free idx =
    let (going, w', room', reached') =
      append_one-succeeds req i r w room reached (omega arith) (idx i (omega arith)) in
    rw going (
      append_loop-succeeds req n (i + 1) (append_one req i r).0 w' room' reached' (omega arith)
        (λ j lt. idx j (omega arith)))

led-Writable :
    (r : RaftNode) (req : AppendEntriesRequest)
    → Writable r.log_open r.os
    → Writable (led r req).log_open (led r req).os
unfolding led follow_leader
led-Writable r req w =
    let now = (update_term_locked r req.term).0 in
    ground (
      arith,
      update_term_locked-Writable r req.term w,
      writes-now now.os,
      writes-now-random (raft_now_msec now.os).0,
    )

accept_entries-succeeds :
    (r : RaftNode) (req : AppendEntriesRequest) (resp : AppendEntriesResponse)
    → log_matches r req ≡ true
    → (append_loop req req.log_len 0 r).1 ≡ true
    → (accept_entries r req resp).1.success ≡ true
unfolding accept_entries
accept_entries-succeeds r req resp fits done = ground arith

FitsAt-log_matches :
    (r : RaftNode) (req : AppendEntriesRequest) → FitsAt r req → log_matches r req ≡ true
unfolding log_matches
FitsAt-log_matches r req f = ground arith

-- A request from a term that is not old succeeds if the previous entry fits, the inbound entries are
-- numbered on from it and the log has room for them, as long as the log file can be written.
pub append_complete :
    (r : RaftNode) (req : AppendEntriesRequest)
    → Writable r.log_open r.os
    → r.pstate.log_len ≤ raft_log_cap
    → r.pstate.current_term ≤ req.term
    → FitsAt r req
    → req.prev_log_index + req.log_len ≤ raft_log_cap
    → ((j : ℕ) → j < req.log_len → (req.log j).index ≡ req.prev_log_index + j + 1)
    → (handle_append_entries_request r req).1.success ≡ true
unfolding handle_append_entries_request
append_complete r req w room cur fits free idx =
    let now = update_term_locked r req.term in
    let resp : AppendEntriesResponse = record {
      term = now.0.pstate.current_term;
      success = false;
      match_index = 0;
    } in
    let (log, len, _) = led_lem r req in
    let fits' : FitsAt (led r req) req = rw (log, len) fits in
    let done =
      append_loop-succeeds req req.log_len 0 (led r req) (led-Writable r req w) (rw len room)
        (omega arith) (omega arith) (λ j lt. idx j (omega arith)) in
    unfold led in
    ground (
      arith,
      update_term_locked-Writable r req.term w,
      accept_entries-succeeds (led r req) req resp (FitsAt-log_matches (led r req) req fits')
          (done),
    )

-- What the leader sends to the peer with index `i`: the entries from `next_index[i]` on, at most 64.
pub record Batch (r : RaftNode) (i : ℕ) (req : AppendEntriesRequest) : Type 0 where
  pub term : req.term ≡ r.pstate.current_term
  pub prev : req.prev_log_index + 1 ≡ r.lstate.next_index i
  pub prev_term :
      (0 < req.prev_log_index) → req.prev_log_term ≡ (r.pstate.log (req.prev_log_index - 1)).term
  pub count : req.log_len ≡ min raft_append_batch (r.pstate.log_len - req.prev_log_index)
  pub entries : (j : ℕ) → j < req.log_len → req.log j ≡ r.pstate.log (req.prev_log_index + j)
  pub commit : req.leader_commit ≡ r.vstate.commit_index

-- The leader's request to a peer whose next index lies in the log, or just behind it.
pub raft_append_entries_lem :
    (r : RaftNode) (i : ℕ) {req : AppendEntriesRequest}
    → r.pstate.log_len ≤ raft_log_cap
    → 0 < r.lstate.next_index i
    → r.lstate.next_index i ≤ r.pstate.log_len + 1
    → raft_append_entries r i ≡ some req
    → Batch r i req
unfolding raft_append_entries
raft_append_entries_lem r i room lo hi h = record {
  term = ground arith;
  prev = ground arith;
  prev_term = ground arith;
  count = ground arith;
  entries = λ j lt. ground arith;
  commit = ground arith;
}

-- The terms of the first `n` entries are the same in both logs.
abbrev pub Agree : RaftNode → RaftNode → ℕ → Type 0
Agree l f n = (k : ℕ) → k < n → (f.pstate.log k).term ≡ (l.pstate.log k).term

module _ (l f : RaftNode) (i : ℕ) {req : AppendEntriesRequest} (b : Batch l i req)
    (room : l.pstate.log_len ≤ raft_log_cap) (hi : l.lstate.next_index i ≤ l.pstate.log_len + 1)
    (indexed : (k : ℕ) → k < l.pstate.log_len → (l.pstate.log k).index ≡ k + 1)
    (same : Agree l f req.prev_log_index) where
  Batch-FitsAt : req.prev_log_index ≤ f.pstate.log_len → FitsAt f req
  Batch-FitsAt le = (
    le,
    elim (ℕ_discrete req.prev_log_index 0) [
      | yes z ↦ inl z
      | no nz ↦ inr (same (req.prev_log_index - 1) (omega arith) ∙ sym (b.prev_term (omega arith)))
    ],
  )

  Batch-index : (j : ℕ) → j < req.log_len → (req.log j).index ≡ req.prev_log_index + j + 1
  Batch-index j lt =
      rw (b.entries j lt) (indexed (req.prev_log_index + j) (omega (arith, b.count, b.prev)))

  Accepted-Agree :
      (f' : RaftNode) (resp : AppendEntriesResponse)
      → Accepted req f f' resp
      → Agree l f' (req.prev_log_index + req.log_len)
  Accepted-Agree f' resp a k lt = elim (dec_lt k req.prev_log_index) [
    | yes low ↦ rw (a.holds.before k low) (same k low)
    | no high ↦
        let j = k - req.prev_log_index in
        let at : req.prev_log_index + j ≡ k = omega arith in
        let (term, _, _) = a.holds.placed j (omega arith) in
        rw at at (term ∙ ap (λ (e : LogEntry). e.term) (b.entries j (omega arith)))
  ]

-- Replication: a follower in the leader's term or an older one, whose log agrees in its terms with
-- the leader's up to the leader's next index for it, and that can write its log file, accepts the
-- leader's request. Its log then agrees with the leader's up to the end of the batch, which it
-- reports back, and holds at least that much.
pub replication :
    (l f : RaftNode) (i : ℕ) {req : AppendEntriesRequest}
    → l.pstate.log_len ≤ raft_log_cap
    → ((k : ℕ) → k < l.pstate.log_len → (l.pstate.log k).index ≡ k + 1)
    → 0 < l.lstate.next_index i
    → l.lstate.next_index i ≤ l.pstate.log_len + 1
    → raft_append_entries l i ≡ some req
    → Writable f.log_open f.os
    → f.pstate.log_len ≤ raft_log_cap
    → f.pstate.current_term ≤ l.pstate.current_term
    → l.lstate.next_index i ≤ f.pstate.log_len + 1
    → Agree l f (l.lstate.next_index i - 1)
    → let (f', resp) = handle_append_entries_request f req in
      let n =
        l.lstate.next_index i
        - 1
        + min raft_append_batch (l.pstate.log_len - (l.lstate.next_index i - 1)) in
      (resp.success ≡ true) × (resp.match_index ≡ n) × (n ≤ f'.pstate.log_len) × Agree l f' n
replication l f i {req} room indexed lo hi sent w froom cur reach same =
    let b = raft_append_entries_lem l i room lo hi sent in
    let at : req.prev_log_index ≡ l.lstate.next_index i - 1 = omega (arith, b.prev) in
    let same' : Agree l f req.prev_log_index = rw at same in
    let success =
      append_complete f req w froom (omega (arith, b.term))
        (Batch-FitsAt l f i b room hi indexed same' (omega arith)) (omega (arith, b.count))
        (Batch-index l f i b room hi indexed same') in
    let (_, a) = append_success f req froom success in
    let end : req.prev_log_index + req.log_len
        ≡ l.lstate.next_index i
          - 1
          + min raft_append_batch (l.pstate.log_len - (l.lstate.next_index i - 1)) =
      omega (arith, b.count) in
    (
      success,
      a.match_index ∙ end,
      omega (arith, a.holds.reached),
      rw (← end) (Accepted-Agree l f i b room hi indexed same' _ _ a),
    )
