-- ===== src/Raft/Os/Lines.antt =====
-- What the system calls of raft.c leave in the log file.
use corestack_peky.Common.{Bool, true, [], ◌∷◌, ◌++◌, ◌≡◌, arith}
use corestack_peky.Raft.Types.{LogLine, Os}
use corestack_peky.Raft.Os.{log_write, raft_now_msec, raft_random_election_timeout}

-- A write that reports success has put its line behind the others.
pub lines-log_write :
    (l : LogLine) (open? : Bool) (os : Os)
    → (log_write l open? os).1 ≡ true
    → (log_write l open? os).0.lines ≡ os.lines ++ l ∷ []
unfolding log_write
lines-log_write l open? os h = ground arith

-- Whether a write reports success does not depend on the line.
pub log_write_outcome :
    (k l : LogLine) (open? : Bool) (os : Os) → (log_write k open? os).1 ≡ (log_write l open? os).1
unfolding log_write
log_write_outcome k l open? os = ground arith

pub lines-now : (os : Os) → (raft_now_msec os).0.lines ≡ os.lines
unfolding raft_now_msec
lines-now os = ground arith

-- The two calls of `raft_reset_election_timer`.
pub lines-now-random :
    (os : Os) → (raft_now_msec (raft_random_election_timeout os).0).0.lines ≡ os.lines
unfolding raft_random_election_timeout
lines-now-random os = ground (arith, lines-now (raft_random_election_timeout os).0)

-- Reading the clock does not disturb the writes.
pub log_write-now :
    (l : LogLine) (open? : Bool) (os : Os)
    → (log_write l open? (raft_now_msec os).0).1 ≡ (log_write l open? os).1
unfolding log_write raft_now_msec
log_write-now l open? os = ground arith

-- No write fails from here on.
pub record Writable (open? : Bool) (os : Os) : Type 0 where
  pub is_open : open? ≡ true
  pub no_errors : os.writes ≡ []

pub log_write-Writable :
    (l : LogLine) (open? : Bool) (os : Os)
    → Writable open? os
    → ((log_write l open? os).1 ≡ true) × ((log_write l open? os).0.writes ≡ [])
unfolding log_write
log_write-Writable l open? os w = ground arith

pub writes-now : (os : Os) → (raft_now_msec os).0.writes ≡ os.writes
unfolding raft_now_msec
writes-now os = ground arith

pub writes-now-random :
    (os : Os) → (raft_now_msec (raft_random_election_timeout os).0).0.writes ≡ os.writes
unfolding raft_random_election_timeout
writes-now-random os = ground (arith, writes-now (raft_random_election_timeout os).0)
