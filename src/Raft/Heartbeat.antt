-- ===== src/Raft/Heartbeat.antt =====
-- Heartbeats, acknowledgements and failed writes of raft.c, as the code has them.
use corestack_peky.Common.{
  ℕ, zero, suc, ◌+◌, ◌<◌, ◌≤◌, ◌≡◌, ◌≢◌, refl, true, false, arith, u64, some, [], ◌∷◌, ◌++◌, List,
  min, ◌⊎◌, inl, inr, none, none-ne-some, Option, Bool-cases, not, ◌||◌, leb, ◌==◌, if◌then◌else◌,
  ◌>>=◌, ◌∙◌, ap,
}
use corestack_peky.Raft.Types.{
  leader, candidate, failed, RaftNode, AppendEntriesRequest, AppendEntriesResponse, raft_log_cap,
  state_line, LogLine, WriteOutcome, write_error, sync_error, Os, VolatileState,
}
use corestack_peky.Raft.Os.{log_write, raft_now_msec, raft_election_timeout_expired}
use corestack_peky.Raft.Os.Lines.{log_write_outcome, log_write-now, lines-now, writes-now}
use corestack_peky.Raft.Election.{
  heartbeat_tick, find_peer_idx, find_peer_from, is_leader, start_election, raft_timeout,
}
use corestack_peky.Raft.Replication.{
  raft_append_entries, append_loop, log_matches, learn_commit, accept_entries,
  handle_append_entries_request, advance_commit_index_locked, note_response,
  handle_append_entries_response,
}
use corestack_peky.Raft.Votes.{update_term_locked-old}
use corestack_peky.Raft.Append.{led, led_lem}
use corestack_peky.Raft.Replicate.{raft_append_entries_lem}

append_loop-none :
    (req : AppendEntriesRequest) (n : ℕ) (r : RaftNode) → n ≡ 0 → append_loop req n 0 r ≡ (r, true)
unfolding append_loop
append_loop-none req zero r h = refl
append_loop-none req (suc n) r h = absurd (omega arith)

accept_heartbeat :
    (r : RaftNode) (req : AppendEntriesRequest) (resp : AppendEntriesResponse)
    → req.log_len ≡ 0
    → req.prev_log_index ≡ 0
    → let (s, resp') = accept_entries r req resp in
      (resp'.success ≡ true)
      × (s.pstate ≡ r.pstate)
      × (r.vstate.commit_index < req.leader_commit
          → s.vstate.commit_index ≡ min req.leader_commit r.pstate.log_len)
unfolding accept_entries log_matches learn_commit
accept_heartbeat r req resp empty first =
    let loop = append_loop-none req req.log_len r empty in
    (ground arith, ground arith, λ lt. ground arith)

-- A heartbeat of a leader in the follower's term, whose commit index is above the follower's, sets
-- the follower's commit index to the leader's, or to the length of the follower's log if that is
-- less. It does so whatever entries that log holds: none of them is compared with the leader's.
pub heartbeat_commits :
    (l f : RaftNode) {req : AppendEntriesRequest}
    → heartbeat_tick l ≡ some req
    → f.pstate.current_term ≡ l.pstate.current_term
    → f.vstate.commit_index < l.vstate.commit_index
    → let (f', resp) = handle_append_entries_request f req in
      (resp.success ≡ true)
      × (f'.vstate.commit_index ≡ min l.vstate.commit_index f.pstate.log_len)
      × (f'.pstate.log ≡ f.pstate.log)
      × (f'.pstate.log_len ≡ f.pstate.log_len)
unfolding heartbeat_tick handle_append_entries_request led
heartbeat_commits l f {req} sent same behind =
    let resp : AppendEntriesResponse = record {
      term = f.pstate.current_term;
      success = false;
      match_index = 0;
    } in
    ground (
      arith,
      update_term_locked-old f req.term,
      accept_heartbeat (led f req) req resp,
      led_lem f req,
    )

-- A successful answer that reaches no further than the peer's next index.
note_response-success :
    (r : RaftNode) (i : ℕ) (resp : AppendEntriesResponse)
    → resp.success ≡ true
    → resp.match_index ≤ r.lstate.next_index i
    → (v : VolatileState) × (note_response r i resp ≡ record r { vstate = v })
unfolding note_response advance_commit_index_locked
note_response-success r i resp s le = ((note_response r i resp).vstate, ground arith)

raft_append_entries-vstate :
    (l : RaftNode) (i : ℕ) (v : VolatileState) {req : AppendEntriesRequest}
    → raft_append_entries l i ≡ some req
    → raft_append_entries (record l { vstate = v }) i
      ≡ some (record req { leader_commit = v.commit_index })
unfolding raft_append_entries
raft_append_entries-vstate l i v sent =
    elim (Bool-cases (not (is_leader l.state) || leb l.peer_count i)) [
      | inl refused ↦ absurd (none-ne-some _ (rw refused at sent))
      | inr fine ↦
          let carry : AppendEntriesRequest → Option AppendEntriesRequest =
            λ q. some (record q { leader_commit = v.commit_index }) in
          rw fine (ap (λ o. o >>= carry) (rw fine at sent))
    ]

raft_append_entries-leads :
    (l : RaftNode) (i : ℕ) {req : AppendEntriesRequest}
    → raft_append_entries l i ≡ some req
    → l.state ≡ leader
unfolding raft_append_entries is_leader
raft_append_entries-leads l i sent = ground (arith, sent)

find_peer_from-vstate :
    (l : RaftNode) (peer n i : ℕ) (found : Option ℕ) (v : VolatileState)
    → find_peer_from (record l { vstate = v }) peer n i found ≡ find_peer_from l peer n i found
unfolding find_peer_from
find_peer_from-vstate l peer zero i found v = refl
find_peer_from-vstate l peer (suc n) i found v =
    find_peer_from-vstate l peer n (i + 1) (if (l.peers i).id == peer then some i else found) v

-- The leader after the same answer of a peer has come `n` times.
abbrev pub acknowledged : ℕ → RaftNode → AppendEntriesResponse → ℕ → RaftNode
acknowledged zero l resp peer = l
acknowledged (suc n) l resp peer =
    handle_append_entries_response (acknowledged n l resp peer) resp peer

acknowledged-vstate :
    (l : RaftNode) (i peer n : ℕ) (resp : AppendEntriesResponse)
    → l.state ≡ leader
    → resp.term ≡ l.pstate.current_term
    → resp.success ≡ true
    → resp.match_index ≤ l.lstate.next_index i
    → find_peer_idx l peer ≡ some i
    → (v : VolatileState) × (acknowledged n l resp peer ≡ record l { vstate = v })
unfolding handle_append_entries_response find_peer_idx
acknowledged-vstate l i peer zero resp lead term success le found = (l.vstate, refl)
acknowledged-vstate l i peer (suc n) resp lead term success le found =
    let (v, before) = acknowledged-vstate l i peer n resp lead term success le found in
    let (v', same) = note_response-success (record l { vstate = v }) i resp success le in
    let where_found : find_peer_idx (record l { vstate = v }) peer ≡ some i =
      find_peer_from-vstate l peer l.peer_count 0 none v ∙ found in
    (
      v',
      ap (λ r. handle_append_entries_response r resp peer) before
          ∙ ground (arith, where_found, same),
    )

-- A follower's acknowledgement, in the leader's term, of a batch of a single entry, the last of the
-- leader's log, however often it comes, changes nothing that the leader knows of its followers: the
-- match index and the next index of every peer stay. The next batch for that follower is then the
-- same single entry, with the leader's commit index. The log fits its array.
pub single_entry_stalls :
    (l : RaftNode) (i peer n : ℕ) {req : AppendEntriesRequest} (resp : AppendEntriesResponse)
    → l.pstate.log_len ≤ raft_log_cap
    → 0 < l.pstate.log_len
    → l.lstate.next_index i ≡ l.pstate.log_len
    → raft_append_entries l i ≡ some req
    → resp.term ≡ l.pstate.current_term
    → resp.success ≡ true
    → resp.match_index ≡ req.prev_log_index + req.log_len
    → find_peer_idx l peer ≡ some i
    → let l' = acknowledged n l resp peer in
      (req.log_len ≡ 1)
      × (l'.lstate ≡ l.lstate)
      × (raft_append_entries l' i ≡ some (record req { leader_commit = l'.vstate.commit_index }))
single_entry_stalls l i peer n {req} resp room some' last sent term success match found =
    let b = raft_append_entries_lem l i room (omega arith) (omega arith) sent in
    let one : req.log_len ≡ 1 = ground (arith, b.count) in
    let le : resp.match_index ≤ l.lstate.next_index i = ground (arith, b.count, b.prev) in
    let (v, same) =
      acknowledged-vstate l i peer n resp (raft_append_entries-leads l i sent) term success le
        found in
    (one, rw same refl, rw same (raft_append_entries-vstate l i v sent))

-- What a write that fails leaves in the file: nothing when the line could not be written, the line
-- when it is only `fdatasync` that failed.
abbrev pub FailedWrite : RaftNode → LogLine → RaftNode → Type 0
FailedWrite r l r' =
    ((r.log_open ≡ false) ⊎ ((ws : List WriteOutcome) × (r.os.writes ≡ write_error ∷ ws)))
      × (r'.os.lines ≡ r.os.lines)
    ⊎ ((r.log_open ≡ true) × ((ws : List WriteOutcome) × (r.os.writes ≡ sync_error ∷ ws)))
      × (r'.os.lines ≡ r.os.lines ++ l ∷ [])

log_write-fails :
    (l : LogLine) (r : RaftNode) (os : Os)
    → os.lines ≡ r.os.lines
    → os.writes ≡ r.os.writes
    → (log_write (state_line 0 0) r.log_open r.os).1 ≡ false
    → FailedWrite r l (record r { os = (log_write l r.log_open os).0 })
unfolding log_write
log_write-fails l r os lines writes fails = ground arith

-- A time-out whose write of the new term and vote fails leaves a candidate of that term that asks
-- nobody for a vote and is not FAILED. Nothing is added to its log file if the file is closed or the
-- write itself failed; the term and vote are added if it was `fdatasync` that failed.
pub raft_timeout-write_error :
    (r : RaftNode) (out_cap : ℕ)
    → r.state ≢ failed
    → r.state ≢ leader
    → (raft_election_timeout_expired r).1 ≡ true
    → (log_write (state_line 0 0) r.log_open r.os).1 ≡ false
    → let (r', out) = raft_timeout r out_cap in
      (r'.state ≡ candidate)
      × (r'.pstate.current_term ≡ u64 (r.pstate.current_term + 1))
      × (r'.pstate.voted_for ≡ r.id)
      × (out ≡ [])
      × FailedWrite r (state_line (u64 (r.pstate.current_term + 1)) r.id) r'
unfolding raft_timeout start_election raft_election_timeout_expired
raft_timeout-write_error r out_cap nf nl due fails =
    let os = (raft_now_msec r.os).0 in
    let l = state_line (u64 (r.pstate.current_term + 1)) r.id in
    let left = log_write-fails l r os (lines-now r.os) (writes-now r.os) fails in
    ground (
      arith,
      left,
      log_write_outcome l (state_line 0 0) r.log_open os,
      log_write-now (state_line 0 0) r.log_open r.os,
    )
