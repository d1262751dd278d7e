-- ===== src/Raft/Os.antt =====
-- The system calls of raft.c: log writes, the clock, `rand`, and the timers built on them.
pub mod Lines
use corestack_peky.Common.{ℕ, ◌+◌, ◌%◌, Bool, true, false, List, [], ◌∷◌, ◌++◌}
use corestack_peky.Common.Int.{ℤ, pos, negsuc, ◌-ℤ◌, lebℤ}
use corestack_peky.Raft.Types.{
  LogLine, LogEntry, entry_line, state_line, truncate_line, WriteOutcome, written, write_error,
  sync_error, Os, RaftNode,
}

next_write : List WriteOutcome → WriteOutcome × List WriteOutcome
next_write [] = (written, [])
next_write (w ∷ ws) = (w, ws)

-- A failed `fdatasync` reports an error, though the line stands in the file.
put_line : WriteOutcome → LogLine → Os → Os × Bool
put_line written l os = (record os { lines = os.lines ++ l ∷ [] }, true)
put_line write_error l os = (os, false)
put_line sync_error l os = (record os { lines = os.lines ++ l ∷ [] }, false)

-- `dprintf` to the log file, then `fdatasync`; on a closed descriptor nothing is written.
unfoldable pub log_write : LogLine → Bool → Os → Os × Bool
unfolding next_write put_line
log_write l false os = (os, false)
log_write l true os = let (w, ws) = next_write os.writes in put_line w l (record os { writes = ws })

unfoldable pub persist_state_locked : RaftNode → RaftNode × Bool
persist_state_locked r =
    let (os, fine) =
      log_write (state_line r.pstate.current_term r.pstate.voted_for) r.log_open r.os in
    (record r { os = os }, fine)

unfoldable pub persist_log_entry_locked : RaftNode → LogEntry → RaftNode × Bool
persist_log_entry_locked r entry =
    let (os, fine) = log_write (entry_line entry) r.log_open r.os in (record r { os = os }, fine)

unfoldable pub persist_truncate_locked : RaftNode → ℕ → RaftNode × Bool
persist_truncate_locked r from =
    let (os, fine) = log_write (truncate_line from) r.log_open r.os in (record r { os = os }, fine)

first_or {ℓ} : {A : Type ℓ} → A → List A → A × List A
first_or d [] = (d, [])
first_or d (x ∷ xs) = (x, xs)

-- -1 when `clock_gettime` fails
unfoldable pub raft_now_msec : Os → Os × ℤ
unfolding first_or
raft_now_msec os =
    let (now, later) = first_or (negsuc 0) os.clock in (record os { clock = later }, now)

-- 150..299 ms
unfoldable pub raft_random_election_timeout : Os → Os × ℤ
unfolding first_or
raft_random_election_timeout os =
    let (n, later) = first_or 0 os.rands in (record os { rands = later }, pos (150 + n % 150))

unfoldable pub raft_reset_election_timer : RaftNode → RaftNode
raft_reset_election_timer r =
    let (os', duration) = raft_random_election_timeout r.os in
    let (os'', now) = raft_now_msec os' in
    record r { election_timeout_duration_ms = duration; latest_heartbeat_ms = now; os = os'' }

expired : ℤ → ℤ → ℤ → Bool
expired (negsuc n) latest duration = false
expired (pos n) latest duration = lebℤ duration (pos n -ℤ latest)

unfoldable pub raft_election_timeout_expired : RaftNode → RaftNode × Bool
unfolding expired
raft_election_timeout_expired r =
    let (os', now) = raft_now_msec r.os in
    (record r { os = os' }, expired now r.latest_heartbeat_ms r.election_timeout_duration_ms)
