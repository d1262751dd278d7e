-- ===== src/Raft/Append.antt =====
-- The follower's side of raft.c: what `HandleAppendEntriesRequest` does to the log.
use corestack_peky.Common.{
  ℕ, zero, suc, ◌+◌, ◌-◌, ◌<◌, ◌≤◌, ◌≡◌, ◌≢◌, refl, true, false, inl, inr, ◌⊎◌, arith, Bool-cases,
  ltb, not, ◌||◌, ◌∙◌, min, if◌then◌else◌, ℕ_discrete,
}
use native.Mathlib.Nat.{add-zero, zero-add}
use corestack_peky.Raft.Types.{
  PersistentState, RaftNode, AppendEntriesRequest, AppendEntriesResponse, raft_log_cap,
}
use corestack_peky.Raft.Boot.{append_entry}
use corestack_peky.Raft.Election.{update_term_locked}
use corestack_peky.Raft.Replication.{
  append_one, append_loop, log_matches, learn_commit, follow_leader, accept_entries,
  handle_append_entries_request,
}

-- Between rounds: `q` is `p` with the first `i` inbound entries in their places, each as sent or as
-- it was found there with the same term; what is before and behind them is as it was.
pub record Holds (req : AppendEntriesRequest) (p : PersistentState) (i : ℕ) (q : PersistentState)
    : Type 0 where
  pub room : q.log_len ≤ raft_log_cap
  pub reached : req.prev_log_index + i ≤ q.log_len
  pub before : (k : ℕ) → k < req.prev_log_index → q.log k ≡ p.log k
  pub placed :
      (j : ℕ)
      → j < i
      → ((q.log (req.prev_log_index + j)).term ≡ (req.log j).term)
        × ((req.log j).index ≡ req.prev_log_index + j + 1)
        × ((q.log (req.prev_log_index + j) ≡ req.log j)
            ⊎ (q.log (req.prev_log_index + j) ≡ p.log (req.prev_log_index + j)))
  pub behind : (k : ℕ) → req.prev_log_index + i ≤ k → k < q.log_len → q.log k ≡ p.log k

pub append_one-goes :
    (req : AppendEntriesRequest) (i : ℕ) (s : RaftNode)
    → s.pstate.log_len ≤ raft_log_cap
    → req.prev_log_index + i ≤ s.pstate.log_len
    → (append_one req i s).1 ≡ true
    → let s' = (append_one req i s).0 in
      (s'.vstate ≡ s.vstate)
      × ((req.log i).index ≡ req.prev_log_index + i + 1)
      × ((req.prev_log_index + i < s.pstate.log_len)
            × ((s.pstate.log (req.prev_log_index + i)).term ≡ (req.log i).term)
            × (s'.pstate ≡ s.pstate)
          ⊎ (s'.pstate
              ≡ append_entry (record (s.pstate) { log_len = req.prev_log_index + i }) (req.log i))
            × (req.prev_log_index + i < raft_log_cap))
unfolding append_one
append_one-goes req i s room reached h = ground arith

Holds-keep :
    (req : AppendEntriesRequest) (p : PersistentState) (i : ℕ) (q : PersistentState)
    → Holds req p i q
    → (req.log i).index ≡ req.prev_log_index + i + 1
    → req.prev_log_index + i < q.log_len
    → (q.log (req.prev_log_index + i)).term ≡ (req.log i).term
    → Holds req p (i + 1) q
Holds-keep req p i q h idx held same = record {
  room = h.room;
  reached = omega arith;
  before = h.before;
  placed = λ j lt. elim (ℕ_discrete j i) [
    | yes e ↦ rw e (same, idx, inr (h.behind (req.prev_log_index + i) (omega arith) held))
    | no ne ↦ h.placed j (omega arith)
  ];
  behind = λ k le lt. h.behind k (omega arith) lt;
}

Holds-put :
    (req : AppendEntriesRequest) (p : PersistentState) (i : ℕ) (q : PersistentState)
    → Holds req p i q
    → (req.log i).index ≡ req.prev_log_index + i + 1
    → req.prev_log_index + i < raft_log_cap
    → Holds req p (i + 1) (append_entry (record q { log_len = req.prev_log_index + i }) (req.log i))
unfolding append_entry
Holds-put req p i q h idx free = record {
  room = omega arith;
  reached = omega arith;
  before = λ k lt. ground (arith, h.before k);
  placed = λ j lt. ground (arith, h.placed j);
  behind = λ k le lt. absurd (omega arith);
}

append_one-Holds :
    (req : AppendEntriesRequest) (p : PersistentState) (i : ℕ) (s : RaftNode)
    → Holds req p i s.pstate
    → (append_one req i s).1 ≡ true
    → Holds req p (i + 1) (append_one req i s).0.pstate × ((append_one req i s).0.vstate ≡ s.vstate)
append_one-Holds req p i s h on =
    let (commit, idx, out) = append_one-goes req i s h.room h.reached on in
    elim out [
      | inl (held, same, e) ↦ (rw e (Holds-keep req p i s.pstate h idx held same), commit)
      | inr (e, free) ↦ (rw e (Holds-put req p i s.pstate h idx free), commit)
    ]

append_loop-Holds :
    (req : AppendEntriesRequest) (p : PersistentState) (n i : ℕ) (s : RaftNode)
    → Holds req p i s.pstate
    → (append_loop req n i s).1 ≡ true
    → Holds req p (i + n) (append_loop req n i s).0.pstate
      × ((append_loop req n i s).0.vstate ≡ s.vstate)
unfolding append_loop
append_loop-Holds req p zero i s h on = (rw add-zero h, refl)
append_loop-Holds req p (suc n) i s h on = elim (Bool-cases (append_one req i s).1) [
  | inr stop ↦ ground arith
  | inl going ↦
      let (h', v) = append_one-Holds req p i s h going in
      let (h'', v') = append_loop-Holds req p n (i + 1) (append_one req i s).0 h' (ground arith) in
      let e : i + suc n ≡ i + 1 + n = omega arith in rw (going, e) (h'', v' ∙ v)
]

Holds-start :
    (req : AppendEntriesRequest) (p : PersistentState)
    → p.log_len ≤ raft_log_cap
    → req.prev_log_index ≤ p.log_len
    → Holds req p 0 p
Holds-start req p room le = record {
  room = room;
  reached = omega arith;
  before = λ k lt. refl;
  placed = λ j lt. absurd (omega arith);
  behind = λ k le lt. refl;
}

log_matches_lem :
    (r : RaftNode) (req : AppendEntriesRequest)
    → log_matches r req ≡ true
    → (req.prev_log_index ≤ r.pstate.log_len)
      × ((req.prev_log_index ≡ 0)
          ⊎ ((r.pstate.log (req.prev_log_index - 1)).term ≡ req.prev_log_term))
unfolding log_matches
log_matches_lem r req h = ground arith

learn_commit-pstate : (r : RaftNode) (c : ℕ) → (learn_commit r c).pstate ≡ r.pstate
unfolding learn_commit
learn_commit-pstate r c = ground arith

learn_commit_lem :
    (r : RaftNode) (c : ℕ)
    → (learn_commit r c).vstate.commit_index
      ≡ (if ltb r.vstate.commit_index c then min c r.pstate.log_len else r.vstate.commit_index)
unfolding learn_commit
learn_commit_lem r c = ground arith

-- What acceptance means for the persistent states, commit indices and answer.
pub record Accepted (req : AppendEntriesRequest) (r s : RaftNode) (resp : AppendEntriesResponse)
    : Type 0 where
  pub fits :
      (req.prev_log_index ≡ 0) ⊎ ((r.pstate.log (req.prev_log_index - 1)).term ≡ req.prev_log_term)
  pub holds : Holds req r.pstate req.log_len s.pstate
  pub match_index : resp.match_index ≡ req.prev_log_index + req.log_len
  pub commit : s.vstate.commit_index ≡ (
      if ltb r.vstate.commit_index req.leader_commit
      then min req.leader_commit s.pstate.log_len
      else r.vstate.commit_index)

accept_entries-Accepted :
    (r : RaftNode) (req : AppendEntriesRequest) (resp : AppendEntriesResponse)
    → resp.success ≡ false
    → r.pstate.log_len ≤ raft_log_cap
    → (accept_entries r req resp).1.success ≡ true
    → Accepted req r (accept_entries r req resp).0 (accept_entries r req resp).1
unfolding accept_entries
accept_entries-Accepted r req resp none room h = elim (Bool-cases (log_matches r req)) [
  | inr differs ↦ ground arith
  | inl fits ↦ elim (Bool-cases (append_loop req req.log_len 0 r).1) [
    | inr stop ↦ ground arith
    | inl done ↦
        let (le, prev) = log_matches_lem r req fits in
        let (held, v) =
          append_loop-Holds req r.pstate req.log_len 0 r (Holds-start req r.pstate room le) done in
        rw (fits, done)
          (record {
            fits = prev;
            holds = rw learn_commit-pstate (rw zero-add at held);
            match_index = omega (arith, held.room, held.reached);
            commit =
                learn_commit_lem (append_loop req req.log_len 0 r).0 req.leader_commit
                ∙ (rw (learn_commit-pstate, v));
          })
  ]
]

-- The node that the handler checks the log of: in the request's term, and with the old log.
unfoldable pub led : RaftNode → AppendEntriesRequest → RaftNode
led r req = follow_leader (update_term_locked r req.term).0 req.leader_id

pub led_lem :
    (r : RaftNode) (req : AppendEntriesRequest)
    → ((led r req).pstate.log ≡ r.pstate.log)
      × ((led r req).pstate.log_len ≡ r.pstate.log_len)
      × ((led r req).vstate ≡ r.vstate)
unfolding led follow_leader update_term_locked
led_lem r req = ground arith

Accepted-led :
    (req : AppendEntriesRequest) (r l s : RaftNode) (resp : AppendEntriesResponse)
    → l.pstate.log ≡ r.pstate.log
    → l.pstate.log_len ≡ r.pstate.log_len
    → l.vstate ≡ r.vstate
    → Accepted req l s resp
    → Accepted req r s resp
Accepted-led req r l s resp e f g a = record {
  fits = rw (← e) a.fits;
  holds = record {
    room = a.holds.room;
    reached = a.holds.reached;
    before = rw (← e) a.holds.before;
    placed = rw (← e) a.holds.placed;
    behind = rw (← e) a.holds.behind;
  };
  match_index = a.match_index;
  commit = rw (← g) a.commit;
}

-- A request that is answered with success comes from a current term and fits the log at the entry
-- before the inbound ones. Then each inbound entry has its place right behind that entry and stands
-- there, as sent or as it was with the same term; the entries before are untouched, and so are those
-- behind that stay; the answer reports the last inbound index, and the commit index is raised to the
-- leader's, but not past the log.
pub append_success :
    (r : RaftNode) (req : AppendEntriesRequest)
    → r.pstate.log_len ≤ raft_log_cap
    → let (s, resp) = handle_append_entries_request r req in
      resp.success ≡ true → (r.pstate.current_term ≤ req.term) × Accepted req r s resp
unfolding handle_append_entries_request
append_success r req room h =
    let now = update_term_locked r req.term in
    let resp : AppendEntriesResponse = record {
      term = now.0.pstate.current_term;
      success = false;
      match_index = 0;
    } in
    let (same_log, same_len, same_commit) = led_lem r req in
    elim (Bool-cases (ltb req.term r.pstate.current_term || not now.1)) [
      | inl out ↦ ground arith
      | inr on ↦ (
        ground arith,
        rw on (
            Accepted-led req r (led r req) _ _ same_log same_len same_commit (
              unfold led in
              accept_entries-Accepted (led r req) req resp refl (rw same_len room) (ground arith))),
      )
    ]

-- A request from an old term, one for entries behind the end of the log, and one whose previous
-- entry has another term are answered with failure; log and commit index stay as they are.
pub append_refused :
    (r : RaftNode) (req : AppendEntriesRequest)
    → (req.term < r.pstate.current_term)
      ⊎ (r.pstate.log_len < req.prev_log_index)
      ⊎ (0 < req.prev_log_index)
        × ((r.pstate.log (req.prev_log_index - 1)).term ≢ req.prev_log_term)
    → let (s, resp) = handle_append_entries_request r req in
      (resp.success ≡ false)
      × (s.pstate.log ≡ r.pstate.log)
      × (s.pstate.log_len ≡ r.pstate.log_len)
      × (s.vstate ≡ r.vstate)
unfolding handle_append_entries_request accept_entries log_matches led update_term_locked
    follow_leader
append_refused r req h = ground arith
