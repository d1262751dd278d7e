-- ===== src/Raft/Recovery/Handlers.antt =====
-- Every call of raft.c keeps the log file in step with the persistent state, or fails the node.
use corestack_peky.Common.{
  ℕ, zero, suc, ◌+◌, ◌-◌, ◌^◌, ◌≤◌, ◌<◌, ◌≡◌, refl, Bool, true, inl, inr, Bool-cases, ltb, leb,
  ◌==◌, arith, u64, ==_iff, ltb→lt,
}
use corestack_peky.Raft.Types.{
  RaftNode, LogEntry, RequestVoteRequest, RequestVoteResponse, AppendEntriesRequest,
  AppendEntriesResponse, state_line, entry_line, truncate_line, raft_log_cap,
}
use corestack_peky.Raft.Os.{log_write}
use corestack_peky.Raft.Os.Lines.{lines-now, lines-now-random}
use corestack_peky.Raft.Boot.{append_entry}
use corestack_peky.Raft.Election.{cast_vote, vote_in_term}
use corestack_peky.Raft.Replication.{
  store_entry, append_one, append_loop, learn_commit, follow_leader, accept_entries, log_matches,
}
use corestack_peky.Raft.Recovery.Durable.{
  Durable, Safe, Durable-state, Durable-entry, Durable-truncate,
}
use corestack_peky.Raft.Failure.{cast_vote-failed}

cast_vote-Safe :
    (r : RaftNode) (req : RequestVoteRequest) (resp : RequestVoteResponse)
    → Durable r.os.lines r.pstate
    → Safe (cast_vote r req resp).0
unfolding cast_vote
cast_vote-Safe r req resp d =
    let vote = state_line r.pstate.current_term req.candidate_id in
    elim (Bool-cases (log_write vote r.log_open r.os).1) [
      | inl w ↦ ground (
        arith,
        lines-now-random (log_write vote r.log_open r.os).0,
        Durable-state r.os d r.log_open r.pstate.current_term req.candidate_id w,
      )
      | inr w ↦ ground arith
    ]

store_entry-Safe :
    (r : RaftNode) (e : LogEntry)
    → Durable r.os.lines r.pstate
    → e.index ≡ r.pstate.log_len + 1
    → Safe (store_entry e r).0
unfolding store_entry
store_entry-Safe r e d idx = elim (Bool-cases (leb raft_log_cap r.pstate.log_len)) [
  | inl full ↦ rw full (inr d)
  | inr free ↦ elim (Bool-cases (log_write (entry_line e) r.log_open r.os).1) [
    | inl w ↦ rw (free, w) (inr (Durable-entry r.os d r.log_open e idx (ground arith) w))
    | inr w ↦ rw (free, w) (inl refl)
  ]
]

store_entry-pstate :
    (r : RaftNode) (e : LogEntry)
    → (store_entry e r).1 ≡ true
    → (store_entry e r).0.pstate ≡ append_entry r.pstate e
unfolding store_entry
store_entry-pstate r e h = ground arith

store_entry-Durable :
    (r : RaftNode) (e : LogEntry)
    → Durable r.os.lines r.pstate
    → e.index ≡ r.pstate.log_len + 1
    → (store_entry e r).1 ≡ true
    → Durable (store_entry e r).0.os.lines (store_entry e r).0.pstate
unfolding store_entry
store_entry-Durable r e d idx h = elim (Bool-cases (leb raft_log_cap r.pstate.log_len)) [
  | inl full ↦ ground arith
  | inr free ↦ elim (Bool-cases (log_write (entry_line e) r.log_open r.os).1) [
    | inl w ↦ rw (free, w) (Durable-entry r.os d r.log_open e idx (ground arith) w)
    | inr w ↦ ground arith
  ]
]

-- Before round `i` the log holds everything up to the inbound entry `i`.
record Going (req : AppendEntriesRequest) (i : ℕ) (r : RaftNode) : Type 0 where
  durable : Durable r.os.lines r.pstate
  reached : req.prev_log_index + i ≤ r.pstate.log_len

abbrev Progress : AppendEntriesRequest → ℕ → RaftNode × Bool → Type 0
Progress req i out = Safe out.0 × (out.1 ≡ true → Going req i out.0)

store_entry-Progress :
    (req : AppendEntriesRequest) (i : ℕ) (r : RaftNode) (e : LogEntry)
    → Durable r.os.lines r.pstate
    → e.index ≡ r.pstate.log_len + 1
    → req.prev_log_index + i ≡ r.pstate.log_len
    → Progress req (i + 1) (store_entry e r)
store_entry-Progress req i r e d idx at = (
  store_entry-Safe r e d idx,
  λ h. record {
    durable = store_entry-Durable r e d idx h;
    reached = rw (store_entry-pstate r e h) (unfold append_entry in omega arith);
  },
)

-- The conflicting entry and all behind it are gone, and the inbound one takes its place.
cut-Progress :
    (req : AppendEntriesRequest) (i : ℕ) (r : RaftNode)
    → Going req i r
    → let e = req.log i in
      let p = u64 (e.index + 2 ^ 64 - 1) in
      let (os', fine) = log_write (truncate_line e.index) r.log_open r.os in
      e.index ≡ u64 (req.prev_log_index + i + 1)
      → p < r.pstate.log_len
      → fine ≡ true
      → Progress req
          (i + 1)
          (store_entry e (record r { pstate = record (r.pstate) { log_len = p }; os = os' }))
cut-Progress req i r g sent held w =
    let e = req.log i in
    let at : u64 (e.index + 2 ^ 64 - 1) ≡ e.index - 1 = omega (arith, g.durable.room, g.reached) in
    store_entry-Progress req i _ e
      (rw at (
        Durable-truncate r.os g.durable r.log_open e.index
          (omega (arith, g.durable.room, g.reached)) (omega (arith, g.durable.room, g.reached)) w))
      (omega (arith, g.durable.room, g.reached)) (omega (arith, g.durable.room, g.reached))

append_one-Progress :
    (req : AppendEntriesRequest) (i : ℕ) (r : RaftNode)
    → Going req i r
    → Progress req (i + 1) (append_one req i r)
unfolding append_one
append_one-Progress req i r g =
    let e = req.log i in
    let p = u64 (e.index + 2 ^ 64 - 1) in
    elim (Bool-cases (e.index == u64 (req.prev_log_index + i + 1))) [
      | inr skip ↦ rw skip (inr g.durable, λ h. cc)
      | inl sent ↦ elim (Bool-cases (ltb p r.pstate.log_len)) [
        | inr beyond ↦
            rw (sent, beyond)
              (store_entry-Progress req i r e g.durable (ground (arith, g.durable.room, g.reached))
                (ground (arith, g.durable.room, g.reached)))
        | inl held ↦ elim (Bool-cases ((r.pstate.log p).term == e.term)) [
          | inl same ↦
              rw (sent, held, same)
                (
                  inr g.durable,
                  λ h. record {
                    durable = g.durable;
                    reached = ground (arith, g.durable.room, g.reached);
                  },
                )
          | inr clash ↦ elim (Bool-cases (log_write (truncate_line e.index) r.log_open r.os).1) [
            | inr w ↦ rw (sent, held, clash, w) (inl refl, λ h. cc)
            | inl w ↦
                rw (sent, held, clash, w)
                  (cut-Progress req i r g ((==_iff _ _).0 sent) (ltb→lt _ _ held) w)
          ]
        ]
      ]
    ]

append_loop-Safe :
    (req : AppendEntriesRequest) (n i : ℕ) (r : RaftNode)
    → Going req i r
    → Safe (append_loop req n i r).0
unfolding append_loop
append_loop-Safe req zero i r g = inr g.durable
append_loop-Safe req (suc n) i r g =
    let (safe, on) = append_one-Progress req i r g in
    elim (Bool-cases (append_one req i r).1) [
      | inl going ↦ rw going (append_loop-Safe req n (i + 1) (append_one req i r).0 (on going))
      | inr stop ↦ rw stop safe
    ]

learn_commit-Safe : (r : RaftNode) (c : ℕ) → Safe r → Safe (learn_commit r c)
unfolding learn_commit
learn_commit-Safe r c s = ground arith

pub accept_entries-Safe :
    (r : RaftNode) (req : AppendEntriesRequest) (resp : AppendEntriesResponse)
    → Durable r.os.lines r.pstate
    → Safe (accept_entries r req resp).0
unfolding accept_entries
accept_entries-Safe r req resp d = elim (Bool-cases (log_matches r req)) [
  | inr differs ↦ rw differs (inr d)
  | inl fits ↦ ground (
    arith,
    append_loop-Safe req req.log_len 0 r
        (record { durable = d; reached = unfold log_matches in ground arith }),
    learn_commit-Safe (append_loop req req.log_len 0 r).0 req.leader_commit,
  )
]

pub follow_leader-Durable :
    (r : RaftNode) (id : ℕ)
    → Durable r.os.lines r.pstate
    → Durable (follow_leader r id).os.lines (follow_leader r id).pstate
unfolding follow_leader
follow_leader-Durable r id d = rw (lines-now-random, lines-now) d

pub vote_in_term-Safe :
    (r : RaftNode) (req : RequestVoteRequest) (resp : RequestVoteResponse)
    → Safe r
    → Safe (vote_in_term r req resp).0
unfolding vote_in_term
vote_in_term-Safe r req resp (inl f) = inl (ground (arith, cast_vote-failed r req resp))
vote_in_term-Safe r req resp (inr d) = ground (arith, cast_vote-Safe r req resp d)
