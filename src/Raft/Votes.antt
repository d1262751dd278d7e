-- ===== src/Raft/Votes.antt =====
-- Who gets a vote, what a vote leaves behind, and when an election is won (raft.c).
use corestack_peky.Common.{
  ℕ, ◌<◌, ◌≤◌, ◌≡◌, ◌≢◌, ◌↔◌, refl, true, false, inl, inr, ◌⊎◌, arith, Bool-cases, ltb, List, [],
  ◌∷◌, ◌++◌,
}
use corestack_peky.Raft.Types.{
  leader, RaftNode, RequestVoteRequest, RequestVoteResponse, LogLine, raft_none, state_line,
}
use corestack_peky.Raft.Os.{log_write}
use corestack_peky.Raft.Os.Lines.{
  lines-log_write, lines-now-random, Writable, log_write-Writable, writes-now-random,
}
use corestack_peky.Raft.Election.{
  check_log, raft_last_log_index, raft_last_log_term, update_term_locked, cast_vote, vote_in_term,
  handle_request_vote_request,
}

-- The candidate's log is at least as up to date as the voter's: a later last term, or the same last
-- term and no fewer entries.
pub check_log_lem :
    (idx term last_idx last_term : ℕ)
    → (check_log idx term last_idx last_term ≡ true)
      ↔ ((last_term < term) ⊎ ((term ≡ last_term) × (last_idx ≤ idx)))
unfolding check_log
check_log_lem idx term last_idx last_term = ground arith

-- The test of `HandleRequestVoteRequest` on the voter's vote and log.
abbrev pub MayVote : RaftNode → RequestVoteRequest → Type 0
MayVote r req =
    ((r.pstate.voted_for ≡ raft_none) ⊎ (r.pstate.voted_for ≡ req.candidate_id))
    × (check_log req.last_log_index req.last_log_term (raft_last_log_index r) (raft_last_log_term r)
        ≡ true)

-- What a granted vote leaves: the term, the vote, and a log file that ends with both.
pub record Granted (r : RaftNode) (req : RequestVoteRequest) : Type 0 where
  pub term : r.pstate.current_term ≡ req.term
  pub vote : r.pstate.voted_for ≡ req.candidate_id
  pub earlier : List LogLine
  pub written : r.os.lines ≡ earlier ++ state_line req.term req.candidate_id ∷ []

cast_vote-granted :
    (r : RaftNode) (req : RequestVoteRequest) (resp : RequestVoteResponse)
    → resp.vote_granted ≡ false
    → (cast_vote r req resp).1.vote_granted ≡ true
    → MayVote r req
      × ((cast_vote r req resp).0.pstate.current_term ≡ r.pstate.current_term)
      × ((cast_vote r req resp).0.pstate.voted_for ≡ req.candidate_id)
      × ((cast_vote r req resp).0.os.lines
          ≡ r.os.lines ++ state_line r.pstate.current_term req.candidate_id ∷ [])
unfolding cast_vote
cast_vote-granted r req resp none h =
    let l = state_line r.pstate.current_term req.candidate_id in
    ground
      (arith, lines-log_write l r.log_open r.os, lines-now-random (log_write l r.log_open r.os).0)

pub update_term_locked-enters :
    (r : RaftNode) (t : ℕ)
    → let s = (update_term_locked r t).0 in
      (s.pstate.log_len ≡ r.pstate.log_len)
      × (raft_last_log_term s ≡ raft_last_log_term r)
      × ((r.pstate.current_term < t)
            × (s.pstate.current_term ≡ t)
            × (s.pstate.voted_for ≡ raft_none)
            × (s.state ≢ leader)
          ⊎ (t ≤ r.pstate.current_term) × (s ≡ r))
unfolding update_term_locked raft_last_log_term
update_term_locked-enters r t = ground arith

pub update_term_locked-old :
    (r : RaftNode) (t : ℕ) → t ≤ r.pstate.current_term → update_term_locked r t ≡ (r, true)
unfolding update_term_locked
update_term_locked-old r t h = ground arith

-- The handler decides in the request's term, unless that is an old one.
pub handle_request_vote_request_lem :
    (r : RaftNode) (req : RequestVoteRequest)
    → handle_request_vote_request r req
      ≡ vote_in_term
          (update_term_locked r req.term).0
          req
          (record { term = r.pstate.current_term; vote_granted = false })
unfolding handle_request_vote_request
handle_request_vote_request_lem r req = elim (Bool-cases (ltb r.pstate.current_term req.term)) [
  | inl newer ↦ rw newer
  | inr old ↦ rw (old, update_term_locked-old r req.term (ground arith))
]

-- What a voter's answer commits it to.
pub record Vote (r : RaftNode) (req : RequestVoteRequest) (r' : RaftNode) : Type 0 where
  pub current : r.pstate.current_term ≤ req.term
  pub free :
      (r.pstate.current_term < req.term)
      ⊎ (r.pstate.voted_for ≡ raft_none)
      ⊎ (r.pstate.voted_for ≡ req.candidate_id)
  pub up_to_date :
      (raft_last_log_term r < req.last_log_term)
      ⊎ ((req.last_log_term ≡ raft_last_log_term r) × (r.pstate.log_len ≤ req.last_log_index))
  pub term : r'.pstate.current_term ≡ req.term
  pub vote : r'.pstate.voted_for ≡ req.candidate_id
  pub written :
      r'.os.lines
      ≡ (update_term_locked r req.term).0.os.lines ++ state_line req.term req.candidate_id ∷ []

-- A vote is granted only in the node's own term or a newer one, only if the node has not voted for
-- another candidate in that term, and only to a log at least as up to date as its own; then the node
-- has the request's term and vote, and the last line of its log file holds both.
pub vote_granted_sound :
    (r : RaftNode) (req : RequestVoteRequest)
    → (handle_request_vote_request r req).1.vote_granted ≡ true
    → Vote r req (handle_request_vote_request r req).0
vote_granted_sound r req = rw (handle_request_vote_request_lem r req) λ h.
    let s = (update_term_locked r req.term).0 in
    let resp : RequestVoteResponse = record {
      term = r.pstate.current_term;
      vote_granted = false;
    } in
    unfold vote_in_term raft_last_log_index in
    ground (
      arith,
      update_term_locked-enters r req.term,
      cast_vote-granted s req resp refl,
      check_log_lem req.last_log_index req.last_log_term s.pstate.log_len (raft_last_log_term s),
    )

cast_vote-grants :
    (r : RaftNode) (req : RequestVoteRequest) (resp : RequestVoteResponse)
    → MayVote r req
    → Writable r.log_open r.os
    → (cast_vote r req resp).1.vote_granted ≡ true
unfolding cast_vote
cast_vote-grants r req resp m w = ground (
  arith,
  log_write-Writable (state_line r.pstate.current_term req.candidate_id) r.log_open r.os w,
)

pub update_term_locked-Writable :
    (r : RaftNode) (t : ℕ)
    → Writable r.log_open r.os
    → let s = (update_term_locked r t).0 in
      Writable s.log_open s.os × ((update_term_locked r t).1 ≡ true)
unfolding update_term_locked
update_term_locked-Writable r t w =
    let l = state_line t raft_none in
    ground (
      arith,
      log_write-Writable l r.log_open r.os w,
      writes-now-random (log_write l r.log_open r.os).0,
    )

-- The vote is granted whenever the rules of the protocol allow it and the log file can be written: a
-- free vote in a term that is not old, for a log that is up to date, by a node that does not lead
-- that term.
pub vote_granted_complete :
    (r : RaftNode) (req : RequestVoteRequest)
    → Writable r.log_open r.os
    → r.pstate.current_term ≤ req.term
    → (r.pstate.current_term < req.term)
      ⊎ (r.state ≢ leader)
        × ((r.pstate.voted_for ≡ raft_none) ⊎ (r.pstate.voted_for ≡ req.candidate_id))
    → (raft_last_log_term r < req.last_log_term)
      ⊎ ((req.last_log_term ≡ raft_last_log_term r) × (r.pstate.log_len ≤ req.last_log_index))
    → (handle_request_vote_request r req).1.vote_granted ≡ true
vote_granted_complete r req w cur free log =
    rw (handle_request_vote_request_lem r req)
      let s = (update_term_locked r req.term).0 in
        let resp : RequestVoteResponse = record {
          term = r.pstate.current_term;
          vote_granted = false;
        } in
        unfold vote_in_term raft_last_log_index in
        ground (
          arith,
          update_term_locked-enters r req.term,
          cast_vote-grants s req resp,
          update_term_locked-Writable r req.term w,
          check_log_lem req.last_log_index req.last_log_term s.pstate.log_len
              (raft_last_log_term s),
        )
