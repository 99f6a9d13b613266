-- ===== src/Raft/Election/Round.antt =====
-- The round of an election: one request for every other node.
use mathlib.Core.List.{append-nil, append_assoc}
use kvstorage_base_raft_cpp.Base.{
  ℕ, zero, suc, ◌+◌, ◌≡◌, refl, ap, ◌∙◌, false, some, List, [], ◌∷◌, ◌++◌, length, ◌==◌,
  if◌then◌else◌, Bool-cases, inl, inr, Bool, true, arith,
}
use kvstorage_base_raft_cpp.Message.{RequestVoteArgs, AppendEntriesArgs}
use kvstorage_base_raft_cpp.Archive.{Archive}
use kvstorage_base_raft_cpp.Raft.{
  Raft, Posted, candidate, is_leader, send_request_vote, commit_with_timeout, get_last_log_index,
  get_last_log_term, get_last_log_index_and_term,
}
use kvstorage_base_raft_cpp.Raft.Store.{persist}
use kvstorage_base_raft_cpp.Raft.Posts.{HasAppend, NoAppends}
use kvstorage_base_raft_cpp.Raft.Log.{Inv, get_last_log_index_lem}
use kvstorage_base_raft_cpp.Raft.Election.{
  max_randomized_election_time, request_vote_args, request_votes, become_candidate, do_election,
}

-- What a node asks for that starts an election: a vote for it in the next term, by a node whose log
-- is no newer than its own.
abbrev pub candidacy_of : Raft → RequestVoteArgs
candidacy_of r = record {
  term = r.current_term + 1;
  candidate_id = r.me;
  last_log_index = r.last_snapshot_include_index + length r.logs;
  last_log_term = get_last_log_term r;
}

-- The tasks of a round for the nodes `i`, …, `i + n - 1`, without the node `me`.
abbrev pub vote_tasks : RequestVoteArgs → ℕ → ℕ → ℕ → ℕ → List Posted
vote_tasks args now c zero i = []
vote_tasks args now c (suc n) i =
    let rest = vote_tasks args now c n (i + 1) in
    if i == args.candidate_id
    then rest
    else record {
      task = send_request_vote i args c;
      start_time = now;
      timeout = max_randomized_election_time;
    }
      ∷ rest

HasAppend-if :
    (b : Bool) (k : ℕ) (args : AppendEntriesArgs) (c : ℕ) (p : Posted) (ps : List Posted)
    → HasAppend k args c (if b then ps else p ∷ ps)
    → HasAppend k args c (p ∷ ps)
HasAppend-if true k args c p ps h = inr h
HasAppend-if false k args c p ps h = h

pub vote_tasks-NoAppends :
    (args : RequestVoteArgs) (now c n i : ℕ) → NoAppends (vote_tasks args now c n i)
vote_tasks-NoAppends args now c zero i k sent d h = absurd h
vote_tasks-NoAppends args now c (suc n) i k sent d h =
    let p : Posted = record {
      task = send_request_vote i args c;
      start_time = now;
      timeout = max_randomized_election_time;
    } in
    elim (HasAppend-if (i == args.candidate_id) k sent d p (vote_tasks args now c n (i + 1)) h) [
      | inl here ↦ absurd (ground (arith, here))
      | inr rest ↦ vote_tasks-NoAppends args now c n (i + 1) k sent d rest
    ]

module _ ⦃a : Archive⦄ where
  pub request_votes-tasks :
      (n i now c : ℕ) (r : Raft)
      → request_votes n i now c r
        ≡ record r { rpc_tasks = r.rpc_tasks ++ vote_tasks (request_vote_args r) now c n i }
  unfolding request_votes commit_with_timeout get_last_log_index_and_term
  request_votes-tasks zero i now c r = rw (append-nil r.rpc_tasks) refl
  request_votes-tasks (suc n) i now c r = elim (Bool-cases (i == r.me)) [
    | inl own ↦ rw own (request_votes-tasks n (i + 1) now c r)
    | inr other ↦
        let p : Posted = record {
          task = send_request_vote i (request_vote_args r) c;
          start_time = now;
          timeout = max_randomized_election_time;
        } in
        let q : Raft = record r { rpc_tasks = r.rpc_tasks ++ p ∷ [] } in
        let rest = vote_tasks (request_vote_args r) now c n (i + 1) in
        rw other (
          request_votes-tasks n (i + 1) now c q
          ∙ ap (λ (ts : List Posted). record r { rpc_tasks = ts })
              (append_assoc r.rpc_tasks (p ∷ []) rest))
  ]

  -- The state of a new candidate, stored.
  abbrev pub candidate_state : ℕ → Raft → Raft
  candidate_state now r =
      record (persist (record r {
        status = candidate;
        current_term = r.current_term + 1;
        voted_for = some r.me;
      })) { counters = r.counters ++ 1 ∷ []; last_reset_election_time = now }

  -- A node in order that is no leader and holds an election stands in the next term with a vote for
  -- itself, which it stores, and posts one task for every other node: a request for a vote in that
  -- term, with the index and the term of its last entry. All share one new counter, which stands at
  -- 1, and the election timer starts again.
  pub do_election_lem :
      (now : ℕ) (r : Raft)
      → Inv r
      → is_leader r.status ≡ false
      → do_election now r ≡ record (candidate_state now r) {
        rpc_tasks = r.rpc_tasks ++ vote_tasks (candidacy_of r) now (length r.counters) r.peers 0;
      }
  unfolding do_election become_candidate persist get_last_log_index get_last_log_term
  do_election_lem now r inv other =
      rw
        (
          other,
          request_votes-tasks r.peers 0 now (length r.counters) (become_candidate now r),
          get_last_log_index_lem r inv.consecutive,
        )
        refl
