-- ===== src/Raft/Election/Frame.antt =====
-- What the handlers of an election leave as it is.
use kvstorage_base_raft_cpp.Base.{
  ℕ, zero, suc, ◌+◌, refl, inl, inr, Bool, arith, ltb, ◌==◌, if◌then◌else◌, Bool-cases, length,
}
use kvstorage_base_raft_cpp.Message.{RequestVoteArgs, RequestVoteReply}
use kvstorage_base_raft_cpp.Archive.{Archive}
use kvstorage_base_raft_cpp.Raft.{Raft, is_leader, send_request_vote, commit_with_timeout}
use kvstorage_base_raft_cpp.Raft.Store.{persist}
use kvstorage_base_raft_cpp.Raft.Progress.{Kept, Kept-refl, Aside, Posts, Posts-trans}
use kvstorage_base_raft_cpp.Raft.Election.{
  request_votes, request_vote, vote_at_term, vote, receive_vote, count_vote, become_leader,
  become_candidate, do_election, request_vote_args, max_randomized_election_time, election_time_out,
}

module _ ⦃a : Archive⦄ where
  abbrev request_if_other : ℕ → ℕ → ℕ → Raft → Raft
  request_if_other i now c r =
      if i == r.me
      then r
      else commit_with_timeout (send_request_vote i (request_vote_args r) c)
          max_randomized_election_time now r

  request_if_other-Posts : (i now c : ℕ) (r : Raft) → Posts r (request_if_other i now c r)
  unfolding commit_with_timeout
  request_if_other-Posts i now c r = ground arith

  pub request_votes-Posts : (n i now c : ℕ) (r : Raft) → Posts r (request_votes n i now c r)
  unfolding request_votes
  request_votes-Posts zero i now c r = refl
  request_votes-Posts (suc n) i now c r =
      Posts-trans r _ _ (request_if_other-Posts i now c r)
        (request_votes-Posts n (i + 1) now c (request_if_other i now c r))

  pub request_vote-Kept :
      (now : ℕ) (args : RequestVoteArgs) (r : Raft) → Kept r (request_vote now args r).1
  unfolding request_vote vote_at_term vote persist
  request_vote-Kept now args r = record {
    term_grows = ground arith;
    vote_kept = λ e v p. ground arith;
  }

  pub request_vote-Aside :
      (now : ℕ) (args : RequestVoteArgs) (r : Raft) → Aside r (request_vote now args r).1
  unfolding request_vote vote_at_term vote persist
  request_vote-Aside now args r = ground arith

  pub receive_vote-Kept :
      (now c : ℕ) (ok : Bool) (reply : RequestVoteReply) (r : Raft)
      → Kept r (receive_vote now c ok reply r)
  unfolding receive_vote count_vote become_leader persist commit_with_timeout
  receive_vote-Kept now c ok reply r = record {
    term_grows = ground arith;
    vote_kept = λ e v p. ground arith;
  }

  pub receive_vote-Aside :
      (now c : ℕ) (ok : Bool) (reply : RequestVoteReply) (r : Raft)
      → Aside r (receive_vote now c ok reply r)
  unfolding receive_vote count_vote become_leader persist commit_with_timeout
  receive_vote-Aside now c ok reply r = ground arith

  do_election-Kept : (now : ℕ) (r : Raft) → Kept r (do_election now r)
  unfolding do_election become_candidate persist
  do_election-Kept now r = elim (Bool-cases (is_leader r.status)) [
    | inl e ↦ rw e (Kept-refl r)
    | inr e ↦
        rw (e, request_votes-Posts r.peers 0 now (length r.counters) (become_candidate now r))
          (record { term_grows = omega arith; vote_kept = λ same v p. absurd (omega arith) })
  ]

  do_election-Aside : (now : ℕ) (r : Raft) → Aside r (do_election now r)
  unfolding do_election become_candidate persist
  do_election-Aside now r = elim (Bool-cases (is_leader r.status)) [
    | inl e ↦ rw e (ground arith)
    | inr e ↦
        rw (e, request_votes-Posts r.peers 0 now (length r.counters) (become_candidate now r))
          (ground arith)
  ]

  pub election_time_out-Kept : (wake now : ℕ) (r : Raft) → Kept r (election_time_out wake now r)
  unfolding election_time_out
  election_time_out-Kept wake now r = elim (Bool-cases (ltb wake r.last_reset_election_time)) [
    | inl e ↦ rw e (Kept-refl r)
    | inr e ↦ rw e (do_election-Kept now r)
  ]

  pub election_time_out-Aside : (wake now : ℕ) (r : Raft) → Aside r (election_time_out wake now r)
  unfolding election_time_out
  election_time_out-Aside wake now r = elim (Bool-cases (ltb wake r.last_reset_election_time)) [
    | inl e ↦ rw e (ground arith)
    | inr e ↦ rw e (do_election-Aside now r)
  ]
