-- ===== src/Raft/Election/Grant.antt =====
-- When `RequestVote` grants a vote.
use kvstorage_base_raft_cpp.Base.{ℕ, ◌≤◌, ◌<◌, ◌≡◌, ◌↔◌, ◌⊎◌, true, none, some, arith}
use kvstorage_base_raft_cpp.Message.{RequestVoteArgs}
use kvstorage_base_raft_cpp.Archive.{Archive}
use kvstorage_base_raft_cpp.Raft.{Raft, up_to_date, get_last_log_index, get_last_log_term}
use kvstorage_base_raft_cpp.Raft.Store.{persist}
use kvstorage_base_raft_cpp.Raft.Election.{request_vote, vote_at_term, vote}

-- The candidate's log is at least as new as the node's: by the last term, then by the last index.
abbrev pub IsUpToDate : RequestVoteArgs → Raft → Type 0
IsUpToDate args r =
    (get_last_log_term r < args.last_log_term)
    ⊎ ((args.last_log_term ≡ get_last_log_term r) × (get_last_log_index r ≤ args.last_log_index))

up_to_date_iff :
    (args : RequestVoteArgs) (r : Raft)
    → (up_to_date r args.last_log_index args.last_log_term ≡ true) ↔ IsUpToDate args r
unfolding up_to_date get_last_log_index get_last_log_term
up_to_date_iff args r = (λ h. ground arith, λ h. ground arith)

abbrev pub IsFreeToVote : RequestVoteArgs → Raft → Type 0
IsFreeToVote args r =
    (r.current_term < args.term)
    ⊎ ((r.current_term ≡ args.term)
        × ((r.voted_for ≡ none) ⊎ (r.voted_for ≡ some args.candidate_id)))

module _ ⦃a : Archive⦄ (now : ℕ) (args : RequestVoteArgs) (r : Raft) where
  granted_of :
      IsUpToDate args r → IsFreeToVote args r → (request_vote now args r).0.vote_granted ≡ true
  unfolding request_vote vote_at_term vote up_to_date get_last_log_index get_last_log_term
  granted_of new free = ground arith

  of_granted :
      (request_vote now args r).0.vote_granted ≡ true → IsUpToDate args r × IsFreeToVote args r
  unfolding request_vote vote_at_term vote up_to_date get_last_log_index get_last_log_term
  of_granted h = (ground arith, ground arith)

  -- A vote is granted exactly when the candidate's log is at least as new as the node's and its term
  -- is newer than the node's, or is the node's while it has voted for no other in that term.
  pub vote_granted_iff :
      ((request_vote now args r).0.vote_granted ≡ true) ↔ (IsUpToDate args r × IsFreeToVote args r)
  vote_granted_iff = (of_granted, λ h. granted_of h.0 h.1)

  -- A granted vote is on record, at the candidate's term, which the reply tells.
  pub granted_recorded :
      (request_vote now args r).0.vote_granted ≡ true
      → let (reply, q) = request_vote now args r in
        (q.voted_for ≡ some args.candidate_id)
        × (q.current_term ≡ args.term)
        × (reply.term ≡ args.term)
  unfolding request_vote vote_at_term vote up_to_date persist
  granted_recorded h = ground arith
