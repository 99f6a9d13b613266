-- ===== src/Raft/Election.antt =====
-- Elections, raftCore/raft.cc: `RequestVote`, `doElection`, `sendRequestVote`, and one round of
-- `electionTimeOutTicker`. Times are in milliseconds. The flag that `sendRequestVote` returns is
-- read by no caller and is left out.
pub mod Grant
pub mod Frame
pub mod Bystander
pub mod Majority
pub mod Round
use kvstorage_base_raft_cpp.Base.{
  ℕ, zero, suc, ◌+◌, ◌/◌, Bool, true, false, not, Option, none, some, List, [], ◌∷◌, ◌++◌, ltb, leb,
  ◌==◌, if◌then◌else◌, get_elem?, set, length, map,
}
use kvstorage_base_raft_cpp.Message.{RequestVoteArgs, RequestVoteReply, voted, expire, normal}
use kvstorage_base_raft_cpp.Archive.{Archive}
use kvstorage_base_raft_cpp.Raft.{
  Raft, follower, candidate, leader, is_leader, send_request_vote, do_heart_beat, up_to_date,
  get_last_log_index, get_last_log_index_and_term, commit_with_timeout,
}
use kvstorage_base_raft_cpp.Raft.Store.{persist}

-- `maxRandomizedElectionTime` of common/config.h.
abbrev pub max_randomized_election_time : ℕ
max_randomized_election_time = 500

-- What a node does at the sight of a newer term.
abbrev pub step_down : ℕ → Raft → Raft
step_down term r = record r { status = follower; current_term = term; voted_for = none }

-- `m_votedFor != -1 && m_votedFor != candidate`.
abbrev pub voted_for_another : Option ℕ → ℕ → Bool
voted_for_another none c = false
voted_for_another (some v) c = not (v == c)

-- The vote, at a term that is not behind.
pub vote : ℕ → RequestVoteArgs → Raft → RequestVoteReply × Raft
vote now args r =
    if not (up_to_date r args.last_log_index args.last_log_term)
    then (record { term = r.current_term; vote_granted = false; vote_state = voted }, r)
    else if voted_for_another r.voted_for args.candidate_id
    then (record { term = r.current_term; vote_granted = false; vote_state = voted }, r)
    else (
      record { term = r.current_term; vote_granted = true; vote_state = normal },
      record r { voted_for = some args.candidate_id; last_reset_election_time = now },
    )

pub vote_at_term : ℕ → RequestVoteArgs → Raft → RequestVoteReply × Raft
unfolding vote
vote_at_term now args r =
    if ltb args.term r.current_term
    then (record { term = r.current_term; vote_granted = false; vote_state = expire }, r)
    else vote now args (if ltb r.current_term args.term then step_down args.term r else r)

-- The number behind a shared pointer.
abbrev pub counter_at : Raft → ℕ → ℕ
counter_at r c = elim (get_elem? r.counters c) [ none ↦ 0 | some n ↦ n ]

-- `xs[i] = v` for each position of `ys`.
abbrev pub assign_along : List ℕ → ℕ → List ℕ → List ℕ
assign_along [] v xs = xs
assign_along (y ∷ ys) v [] = []
assign_along (y ∷ ys) v (x ∷ xs) = v ∷ assign_along ys v xs

module _ ⦃a : Archive⦄ where
  -- `Raft::RequestVote` at time `now`. The state is stored on every branch.
  unfoldable pub request_vote : ℕ → RequestVoteArgs → Raft → RequestVoteReply × Raft
  unfolding vote_at_term
  request_vote now args r = let (reply, q) = vote_at_term now args r in (reply, persist q)

  abbrev pub request_vote_args : Raft → RequestVoteArgs
  request_vote_args r =
      let (last_log_index, last_log_term) = get_last_log_index_and_term r in
      record {
        term = r.current_term;
        candidate_id = r.me;
        last_log_index = last_log_index;
        last_log_term = last_log_term;
      }

  -- The loop of `doElection` over the nodes `i`, `i + 1`, …, `i + n - 1`.
  pub request_votes : ℕ → ℕ → ℕ → ℕ → Raft → Raft
  request_votes zero i now c r = r
  request_votes (suc n) i now c r = request_votes n (i + 1) now c (
      if i == r.me
      then r
      else commit_with_timeout (send_request_vote i (request_vote_args r) c)
          max_randomized_election_time now r)

  pub become_candidate : ℕ → Raft → Raft
  become_candidate now r =
      let q = persist (record r {
        status = candidate;
        current_term = r.current_term + 1;
        voted_for = some r.me;
      }) in
      record q { counters = q.counters ++ 1 ∷ []; last_reset_election_time = now }

  -- `Raft::doElection`.
  unfoldable pub do_election : ℕ → Raft → Raft
  unfolding become_candidate request_votes
  do_election now r =
      if is_leader r.status
      then r
      else request_votes r.peers 0 now (length r.counters) (become_candidate now r)

  -- The first task of a new leader; the indices of all nodes are set anew.
  pub become_leader : ℕ → Raft → Raft
  become_leader now r =
      let next = get_last_log_index r + 1 in
      persist (
        commit_with_timeout do_heart_beat max_randomized_election_time now (record r {
          status = leader;
          next_index = map (λ _. next) r.next_index;
          match_index = assign_along r.next_index 0 r.match_index;
        }))

  -- A vote is counted; at a majority the node becomes the leader.
  pub count_vote : ℕ → ℕ → Raft → Raft
  unfolding become_leader
  count_vote now c r =
      let num = counter_at r c + 1 in
      if leb (r.peers / 2 + 1) num
      then become_leader now (record r { counters = set r.counters c 0 })
      else record r { counters = set r.counters c num }

  -- `Raft::sendRequestVote` once the call has returned: `ok` says whether it went through.
  unfoldable pub receive_vote : ℕ → ℕ → Bool → RequestVoteReply → Raft → Raft
  unfolding count_vote
  receive_vote now c ok reply r =
      if not ok
      then r
      else if ltb r.current_term reply.term
      then persist (step_down reply.term r)
      else if ltb reply.term r.current_term
      then r
      else if not reply.vote_granted
      then r
      else count_vote now c r

  -- `electionTimeOutTicker` after its sleep, which began at `wake`: an election is held at `now`
  -- unless the timer was reset meanwhile.
  unfoldable pub election_time_out : ℕ → ℕ → Raft → Raft
  unfolding do_election
  election_time_out wake now r =
      if ltb wake r.last_reset_election_time then r else do_election now r
