-- ===== src/Raft/Types.antt =====
-- The data of include/tetrish/raft.h, and what the state machine sees of the operating system.
-- A C array is a function of the index; `log_len` and `peer_count` say how much of it is live.
use corestack_peky.Common.{ℕ, ◌-◌, ◌^◌, Bool, false, List, []}
use corestack_peky.Common.Int.{ℤ, pos}

abbrev pub raft_max_peers : ℕ
raft_max_peers = 8

abbrev pub raft_log_cap : ℕ
raft_log_cap = 1024

abbrev pub raft_append_batch : ℕ
raft_append_batch = 64

-- UINT64_MAX
abbrev pub raft_none : ℕ
raft_none = 2 ^ 64 - 1

pub data ServerState : Type 0 where
  follower candidate leader failed : ServerState

-- `cmd_type` is the integer of a `core_cmd_type`: the restore casts any `int` to it.
pub record ClientCommand : Type 0 where
  pub cmd_type : ℕ
  pub room_key : ℕ
  pub player_id : ℕ
  pub input : ℕ

pub record LogEntry : Type 0 where
  pub index : ℕ
  pub term : ℕ
  pub command : ClientCommand

pub record AppendEntriesRequest : Type 0 where
  pub term : ℕ
  pub leader_id : ℕ
  pub prev_log_index : ℕ
  pub prev_log_term : ℕ
  pub leader_commit : ℕ
  pub log_len : ℕ
  pub log : ℕ → LogEntry

pub record AppendEntriesResponse : Type 0 where
  pub term : ℕ
  pub success : Bool
  pub match_index : ℕ

pub record RequestVoteRequest : Type 0 where
  pub term : ℕ
  pub last_log_index : ℕ
  pub last_log_term : ℕ
  pub candidate_id : ℕ

pub record RequestVoteResponse : Type 0 where
  pub term : ℕ
  pub vote_granted : Bool

-- The tag of `raft_msg_type` with the member of the union that it selects.
pub data MessageBody : Type 0 where
  request_vote : RequestVoteRequest → MessageBody
  request_vote_response : RequestVoteResponse → MessageBody
  append_entry : AppendEntriesRequest → MessageBody
  append_entry_response : AppendEntriesResponse → MessageBody

pub record RaftMessage : Type 0 where
  pub peer_idx : ℕ
  pub body : MessageBody

pub record RaftPeer : Type 0 where
  pub id : ℕ
  pub host : List ℕ
  pub port : ℕ

pub record PersistentState : Type 0 where
  pub current_term : ℕ
  pub voted_for : ℕ
  pub log : ℕ → LogEntry
  pub log_len : ℕ

pub record VolatileState : Type 0 where
  pub commit_index : ℕ
  pub last_applied : ℕ

pub record VolatileStateCandidate : Type 0 where
  pub election_term : ℕ
  pub votes_responded : ℕ → Bool
  pub votes_granted : ℕ → Bool

pub record VolatileStateLeader : Type 0 where
  pub next_index : ℕ → ℕ
  pub match_index : ℕ → ℕ

-- The lines of the log file: `STATE`, `ENTRY`, `TRUNCATE`, or text that no `sscanf` matches.
pub data LogLine : Type 0 where
  state_line : ℕ → ℕ → LogLine
  entry_line : LogEntry → LogLine
  truncate_line : ℕ → LogLine
  other_line : LogLine

-- What one `dprintf` and the `fdatasync` behind it do.
pub data WriteOutcome : Type 0 where
  written write_error sync_error : WriteOutcome

-- The log file, and what the next writes, clock readings and calls of `rand` will answer.
pub record Os : Type 0 where
  pub lines : List LogLine
  pub writes : List WriteOutcome
  pub clock : List ℤ
  pub rands : List ℕ

pub record RaftNode : Type 0 where
  pub state : ServerState
  pub id : ℕ
  pub leader_id : ℕ
  pub peers : ℕ → RaftPeer
  pub peer_count : ℕ
  pub pstate : PersistentState
  pub vstate : VolatileState
  pub cstate : VolatileStateCandidate
  pub lstate : VolatileStateLeader
  pub election_timeout_duration_ms : ℤ
  pub latest_heartbeat_ms : ℤ
  pub heartbeat_interval_ms : ℤ
  pub log_open : Bool  -- `log_file` is not -1
  pub os : Os

-- What `memset` to 0 leaves.
abbrev pub zero_entry : LogEntry
zero_entry = record {
  index = 0;
  term = 0;
  command = record { cmd_type = 0; room_key = 0; player_id = 0; input = 0 };
}

-- The persistent state of a node that has no log file yet.
abbrev pub fresh_pstate : PersistentState
fresh_pstate = record {
  current_term = 0;
  voted_for = raft_none;
  log = λ _. zero_entry;
  log_len = 0;
}

abbrev pub zero_cstate : VolatileStateCandidate
zero_cstate = record { election_term = 0; votes_responded = λ _. false; votes_granted = λ _. false }

abbrev pub zero_lstate : VolatileStateLeader
zero_lstate = record { next_index = λ _. 0; match_index = λ _. 0 }

abbrev pub zero_node : Os → RaftNode
zero_node os = record {
  state = follower;
  id = 0;
  leader_id = 0;
  peers = λ _. record { id = 0; host = []; port = 0 };
  peer_count = 0;
  pstate = record { current_term = 0; voted_for = 0; log = λ _. zero_entry; log_len = 0 };
  vstate = record { commit_index = 0; last_applied = 0 };
  cstate = zero_cstate;
  lstate = zero_lstate;
  election_timeout_duration_ms = pos 0;
  latest_heartbeat_ms = pos 0;
  heartbeat_interval_ms = pos 0;
  log_open = false;
  os = os;
}
