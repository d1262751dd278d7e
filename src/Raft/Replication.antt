-- ===== src/Raft/Replication.antt =====
-- Log replication of raft.c: the leader's requests, the follower's handler, commitment, delivery.
use corestack_peky.Common.{
  ℕ, zero, suc, ◌+◌, ◌-◌, ◌^◌, Bool, true, false, ◌&&◌, ◌||◌, not, List, [], ◌∷◌, Option, none,
  some, ltb, leb, ◌==◌, if◌then◌else◌, update, u64,
}
use corestack_peky.Raft.Types.{
  failed, LogEntry, ClientCommand, RaftNode, AppendEntriesRequest, AppendEntriesResponse,
  raft_log_cap, raft_append_batch, zero_entry,
}
use corestack_peky.Raft.Os.{
  persist_log_entry_locked, persist_truncate_locked, raft_now_msec, raft_reset_election_timer,
}
use corestack_peky.Raft.Boot.{append_entry}
use corestack_peky.Raft.Election.{
  majority, raft_last_log_index, demote, is_leader, update_term_locked, find_peer_idx,
}

-- How many of the peers below `n` hold the log up to index `k`.
unfoldable pub count_matches : (ℕ → ℕ) → ℕ → ℕ → ℕ
count_matches match_index k zero = 0
count_matches match_index k (suc n) =
    count_matches match_index k n + (if leb k (match_index n) then 1 else 0)

-- The test of one round of the loop: an entry of this term that a majority holds.
unfoldable pub commits_at : RaftNode → ℕ → Bool
unfolding count_matches majority
commits_at r n =
    (r.pstate.log (n - 1)).term == r.pstate.current_term
    && leb (majority (r.peer_count + 1)) (1 + count_matches r.lstate.match_index n r.peer_count)

-- The rounds from `n` down to above `commit_index`; the new commit index.
unfoldable pub advance_from : RaftNode → ℕ → ℕ
advance_from r zero = r.vstate.commit_index
advance_from r (suc n) =
    let lower = advance_from r n in
    if not (ltb r.vstate.commit_index (suc n))
    then r.vstate.commit_index
    else if commits_at r (suc n)
    then suc n
    else lower

unfoldable pub advance_commit_index_locked : RaftNode → RaftNode
unfolding is_leader raft_last_log_index
advance_commit_index_locked r = if not (is_leader r.state) then r else (record r {
  vstate = record (r.vstate) { commit_index = advance_from r (raft_last_log_index r) };
})

-- The loop of `raft_commit_entry`, with `room` entries left in `out`.
unfoldable pub commit_loop : ℕ → RaftNode → RaftNode × List LogEntry
commit_loop zero r = (r, [])
commit_loop (suc room) r =
    let e = r.pstate.log r.vstate.last_applied in
    let rest =
      commit_loop room
        (record r { vstate = record (r.vstate) { last_applied = r.vstate.last_applied + 1 } }) in
    if ltb r.vstate.last_applied r.vstate.commit_index then (rest.0, e ∷ rest.1) else (r, [])

unfoldable pub raft_commit_entry : RaftNode → ℕ → RaftNode × List LogEntry
unfolding commit_loop
raft_commit_entry r out_cap = commit_loop out_cap r

-- `*req` of `raft_append_entries`; the entries of the array behind `entryCount` are 0.
unfoldable pub raft_append_entries : RaftNode → ℕ → Option AppendEntriesRequest
unfolding is_leader
raft_append_entries r peer_idx =
    let next_idx = r.lstate.next_index peer_idx in
    let prev_log_idx = u64 (next_idx + 2 ^ 64 - 1) in
    let available = r.pstate.log_len - next_idx + 1 in
    let entry_count : ℕ =
      if leb next_idx r.pstate.log_len
      then (if ltb available raft_append_batch then available else raft_append_batch)
      else 0 in
    if not (is_leader r.state) || leb r.peer_count peer_idx
    then none
    else some (record {
      term = r.pstate.current_term;
      leader_id = r.id;
      prev_log_index = prev_log_idx;
      prev_log_term = if ltb 0 prev_log_idx then (r.pstate.log (prev_log_idx - 1)).term else 0;
      leader_commit = r.vstate.commit_index;
      log_len = entry_count;
      log = λ i. if ltb i entry_count then r.pstate.log (u64 (prev_log_idx + i)) else zero_entry;
    })

-- Persist an entry and put it behind the log; false is an early `return resp`.
unfoldable pub store_entry : LogEntry → RaftNode → RaftNode × Bool
unfolding persist_log_entry_locked append_entry
store_entry e r =
    let (r', fine) = persist_log_entry_locked r e in
    if leb raft_log_cap r.pstate.log_len
    then (r, false)
    else if fine
    then (record r' { pstate = append_entry r'.pstate e }, true)
    else (record r' { state = failed }, false)

-- One round of the loop over the inbound entries; false is an early `return resp`.
unfoldable pub append_one : AppendEntriesRequest → ℕ → RaftNode → RaftNode × Bool
unfolding persist_truncate_locked store_entry
append_one req i r =
    let incoming = req.log i in
    let pos = u64 (incoming.index + 2 ^ 64 - 1) in
    let (r', fine) = persist_truncate_locked r incoming.index in
    if not (incoming.index == u64 (req.prev_log_index + i + 1))
    then (r, false)
    else if not (ltb pos r.pstate.log_len)
    then store_entry incoming r
    else if (r.pstate.log pos).term == incoming.term
    then (r, true)
    else if fine
    then store_entry incoming (record r' { pstate = record (r'.pstate) { log_len = pos } })
    else (record r' { state = failed }, false)

-- The rounds `i`, `i + 1`, …, `n` of them.
unfoldable pub append_loop : AppendEntriesRequest → ℕ → ℕ → RaftNode → RaftNode × Bool
append_loop req zero i r = (r, true)
append_loop req (suc n) i r =
    let (r', going) = append_one req i r in
    let rest = append_loop req n (i + 1) r' in if going then rest else (r', false)

-- The log must hold the entry before the inbound ones, with the leader's term.
unfoldable pub log_matches : RaftNode → AppendEntriesRequest → Bool
log_matches r req =
    leb req.prev_log_index r.pstate.log_len
    && (req.prev_log_index == 0
        || (r.pstate.log (req.prev_log_index - 1)).term == req.prev_log_term)

unfoldable pub learn_commit : RaftNode → ℕ → RaftNode
unfolding raft_last_log_index
learn_commit r leader_commit =
    let last = raft_last_log_index r in
    if ltb r.vstate.commit_index leader_commit
    then (record r {
      vstate = record (r.vstate) {
        commit_index = if ltb leader_commit last then leader_commit else last;
      };
    })
    else r

-- Contact with a valid leader: the node follows it, and its timers start again.
unfoldable pub follow_leader : RaftNode → ℕ → RaftNode
unfolding demote raft_reset_election_timer
follow_leader r leader_id =
    let (os', now) = raft_now_msec r.os in
    raft_reset_election_timer (record r {
      state = demote r.state;
      leader_id = leader_id;
      latest_heartbeat_ms = now;
      os = os';
    })

-- `HandleAppendEntriesRequest` from the check of the previous entry on.
unfoldable pub accept_entries :
    RaftNode → AppendEntriesRequest → AppendEntriesResponse → RaftNode × AppendEntriesResponse
accept_entries r req resp =
    let (r', done) = append_loop req req.log_len 0 r in
    if not (log_matches r req) then (r, resp) else if not done then (r', resp) else (
      learn_commit r' req.leader_commit,
      record resp { success = true; match_index = u64 (req.prev_log_index + req.log_len) },
    )

unfoldable pub handle_append_entries_request :
    RaftNode → AppendEntriesRequest → RaftNode × AppendEntriesResponse
handle_append_entries_request r req =
    let (r', fine) = update_term_locked r req.term in
    let stale : AppendEntriesResponse = record {
      term = r.pstate.current_term;
      success = false;
      match_index = 0;
    } in
    if ltb req.term r.pstate.current_term || not fine
    then ((if ltb req.term r.pstate.current_term then r else r'), stale)
    else accept_entries (follow_leader r' req.leader_id) req
        (record stale { term = r'.pstate.current_term })

-- The answer of the peer with index `i`, in the leader's term.
unfoldable pub note_response : RaftNode → ℕ → AppendEntriesResponse → RaftNode
note_response r i resp =
    let next = r.lstate.next_index i in
    if resp.success
    then advance_commit_index_locked (
        if ltb next resp.match_index
        then (record r {
          lstate = record {
            next_index = update r.lstate.next_index i (u64 (resp.match_index + 1));
            match_index = update r.lstate.match_index i resp.match_index;
          };
        })
        else r)
    else if ltb 1 next
    then (record r {
      lstate = record (r.lstate) { next_index = update r.lstate.next_index i (next - 1) };
    })
    else r

unfoldable pub handle_append_entries_response : RaftNode → AppendEntriesResponse → ℕ → RaftNode
unfolding is_leader
handle_append_entries_response r resp peer =
    if not (is_leader r.state) || ltb resp.term r.pstate.current_term
    then r
    else if ltb r.pstate.current_term resp.term
    then (update_term_locked r resp.term).0
    else elim (find_peer_idx r peer) [ none ↦ r | some i ↦ note_response r i resp ]

-- False is the `return -1`.
unfoldable pub raft_leader_send_command : RaftNode → ClientCommand → RaftNode × Bool
unfolding is_leader raft_last_log_index persist_log_entry_locked append_entry majority
raft_leader_send_command r command =
    let entry : LogEntry = record {
      index = u64 (raft_last_log_index r + 1);
      term = r.pstate.current_term;
      command = command;
    } in
    let (r1, fine) = persist_log_entry_locked r entry in
    let r2 = record r1 { pstate = append_entry r1.pstate entry } in
    if not (is_leader r.state) || leb raft_log_cap r.pstate.log_len
    then (r, false)
    else if not fine
    then (record r1 { state = failed }, false)
    else if majority (r2.peer_count + 1) == 1
    then ((record r2 { vstate = record (r2.vstate) { commit_index = entry.index } }), true)
    else (r2, true)
