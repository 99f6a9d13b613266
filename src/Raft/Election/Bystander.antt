-- ===== src/Raft/Election/Bystander.antt =====
-- What a vote, its reply and a time out leave of the elections that a node holds, and what they add.
use kvstorage_base_raft_cpp.Base.{
  ℕ, ◌+◌, ◌/◌, ◌≤◌, ◌≡◌, ◌⊎◌, refl, ap, inl, inr, Bool, true, false, some, List, [], ◌∷◌, ◌++◌,
  arith, ltb, length, get_elem?, set,
}
use kvstorage_base_raft_cpp.Message.{RequestVoteArgs, RequestVoteReply}
use kvstorage_base_raft_cpp.Archive.{Archive}
use kvstorage_base_raft_cpp.Raft.{Raft, Posted, is_leader, do_heart_beat, commit_with_timeout}
use kvstorage_base_raft_cpp.Raft.Store.{persist}
use kvstorage_base_raft_cpp.Raft.Posts.{
  NewAppends, NoNewAppends, same-NewAppends, NoNewAppends-NewAppends, NoAppends-NoNewAppends,
  KeepsAppends, same-KeepsAppends, added-KeepsAppends,
}
use kvstorage_base_raft_cpp.Raft.Bystander.{
  Bystander, LeadsOn, SameRounds, SameRounds-Bystander, KeepsRounds, SameRounds-KeepsRounds,
  set-KeepsRounds, grown-KeepsRounds, counter_at-set_le, counter_at-elem,
}
use kvstorage_base_raft_cpp.Raft.Election.{
  counter_at, request_vote, vote_at_term, vote, receive_vote, count_vote, become_leader,
  become_candidate, do_election, election_time_out, request_vote_args, max_randomized_election_time,
}
use kvstorage_base_raft_cpp.Raft.Election.Frame.{request_votes-Posts}
use kvstorage_base_raft_cpp.Raft.Election.Round.{
  vote_tasks, request_votes-tasks, vote_tasks-NoAppends,
}

-- A reply with a vote that was given at the node's term: the counter has at most one more, and only
-- a majority makes the node a leader.
pub record Counts (c : ℕ) (reply : RequestVoteReply) (r q : Raft) : Type 0 where
  pub vote : reply.vote_granted ≡ true
  pub at_term : reply.term ≡ r.current_term
  pub same_term : q.current_term ≡ r.current_term
  pub one_more : counter_at q c ≤ counter_at r c + 1
  pub leads :
      is_leader q.status ≡ true → is_leader r.status ≡ true ⊎ r.peers / 2 + 1 ≤ counter_at r c + 1

module _ ⦃a : Archive⦄ where
  pub request_vote-Bystander :
      (x now : ℕ) (args : RequestVoteArgs) (r : Raft) → Bystander x r (request_vote now args r).1
  unfolding request_vote vote_at_term vote persist
  request_vote-Bystander x now args r =
      SameRounds-Bystander x (ground arith) (λ h. (ground arith, ground arith))

  module _ (now c : ℕ) (ok : Bool) (reply : RequestVoteReply) (r : Raft) where
    abbrev replied : Raft
    replied = receive_vote now c ok reply r

    receive_vote-cases :
        LeadsOn r replied × SameRounds r replied
        ⊎ (reply.vote_granted ≡ true)
          × (reply.term ≡ r.current_term)
          × (replied ≡ count_vote now c r)
    unfolding receive_vote persist
    receive_vote-cases = ground arith

    abbrev counted : Raft
    counted = count_vote now c r

    count_vote-same :
        (counted.me ≡ r.me)
        × (counted.peers ≡ r.peers)
        × (counted.counters ≡ set r.counters c 0
            ⊎ counted.counters ≡ set r.counters c (counter_at r c + 1))
        × (counted.current_term ≡ r.current_term)
    unfolding count_vote become_leader persist commit_with_timeout
    count_vote-same = (ground arith, ground arith, ground arith, ground arith)

    count_vote-leads :
        is_leader counted.status ≡ true
        → is_leader r.status ≡ true ⊎ r.peers / 2 + 1 ≤ counter_at r c + 1
    unfolding count_vote become_leader persist commit_with_timeout
    count_vote-leads h = ground arith

    count_vote-tasks :
        counted.rpc_tasks ≡ r.rpc_tasks
        ⊎ counted.rpc_tasks
          ≡ r.rpc_tasks
            ++ record {
              task = do_heart_beat;
              start_time = now;
              timeout = max_randomized_election_time;
            }
              ∷ []
    unfolding count_vote become_leader persist commit_with_timeout
    count_vote-tasks = ground arith

    count_vote-NewAppends : NewAppends r counted
    count_vote-NewAppends =
        let beat : List Posted =
          record { task = do_heart_beat; start_time = now; timeout = max_randomized_election_time }
          ∷ [] in
        elim count_vote-tasks [
          | inl same ↦ same-NewAppends r counted same
          | inr added ↦
              NoNewAppends-NewAppends r counted
                (NoAppends-NoNewAppends r counted beat added (λ k args d h. ground (arith, h)))
        ]

    count_vote-KeepsAppends : KeepsAppends r counted
    count_vote-KeepsAppends = elim count_vote-tasks [
      | inl same ↦ same-KeepsAppends r counted same
      | inr added ↦ added-KeepsAppends r counted _ added
    ]

    count_vote-KeepsRounds : KeepsRounds c r counted
    count_vote-KeepsRounds =
        let (me, peers, counters, term) = count_vote-same in
        elim counters [
          | inl zeroed ↦
              set-KeepsRounds c 0 me peers zeroed count_vote-NewAppends count_vote-KeepsAppends
          | inr more ↦
              set-KeepsRounds c (counter_at r c + 1) me peers more count_vote-NewAppends
                count_vote-KeepsAppends
        ]

    count_vote-Counts :
        reply.vote_granted ≡ true → reply.term ≡ r.current_term → Counts c reply r counted
    count_vote-Counts vote term =
        let (me, peers, counters, same_term) = count_vote-same in
        record {
          vote = vote;
          at_term = term;
          same_term = same_term;
          one_more = elim counters [
            | inl zeroed ↦ omega (arith, counter_at-set_le r counted c 0 zeroed)
            | inr more ↦ counter_at-set_le r counted c (counter_at r c + 1) more
          ];
          leads = count_vote-leads;
        }

    -- What the reply to a request for a vote does to a node's elections.
    pub receive_vote-rounds :
        KeepsRounds c r replied
        × ((LeadsOn r replied × (counter_at replied c ≡ counter_at r c)) ⊎ Counts c reply r replied)
    receive_vote-rounds = elim receive_vote-cases [
      | inl (on, (me, peers, counters, tasks)) ↦ (
        SameRounds-KeepsRounds c (me, peers, counters, tasks),
        inl (on, counter_at-elem r replied c c (ap (λ (cs : List ℕ). get_elem? cs c) counters)),
      )
      | inr (given, term, e) ↦ rw e (count_vote-KeepsRounds, inr (count_vote-Counts given term))
    ]

  -- A time out at which the timer was not reset begins a round: a counter that stands at 1, and a
  -- term with a vote for itself.
  pub election_begins :
      (wake now : ℕ) (r : Raft)
      → is_leader r.status ≡ false
      → ltb wake r.last_reset_election_time ≡ false
      → let q = election_time_out wake now r in
        (q.me ≡ r.me)
        × (q.peers ≡ r.peers)
        × (q.counters ≡ r.counters ++ 1 ∷ [])
        × (q.current_term ≡ r.current_term + 1)
        × (q.voted_for ≡ some r.me)
        × (is_leader q.status ≡ false)
  unfolding election_time_out do_election become_candidate persist
  election_begins wake now r other due =
      rw
        (due, other, request_votes-Posts r.peers 0 now (length r.counters) (become_candidate now r))
        (refl, refl, refl, refl, refl, refl)

  -- It posts the requests of one round, all in the new term.
  pub election-tasks :
      (wake now : ℕ) (r : Raft)
      → is_leader r.status ≡ false
      → ltb wake r.last_reset_election_time ≡ false
      → (args : RequestVoteArgs) × ((election_time_out wake now r).rpc_tasks
          ≡ r.rpc_tasks ++ vote_tasks args now (length r.counters) r.peers 0)
        × (args.candidate_id ≡ r.me)
        × (args.term ≡ r.current_term + 1)
  unfolding election_time_out do_election become_candidate persist
  election-tasks wake now r other due =
      let start : Raft = become_candidate now r in
      (
        request_vote_args start,
        rw (due, other, request_votes-tasks r.peers 0 now (length r.counters) start) refl,
        refl,
        refl,
      )

  -- The tasks of the round hold no request to append.
  pub election-NoNewAppends :
      (wake now : ℕ) (r : Raft)
      → is_leader r.status ≡ false
      → ltb wake r.last_reset_election_time ≡ false
      → NoNewAppends r (election_time_out wake now r)
  election-NoNewAppends wake now r other due =
      let (args, tasks, candidate, term) = election-tasks wake now r other due in
      NoAppends-NoNewAppends r (election_time_out wake now r)
        (vote_tasks args now (length r.counters) r.peers 0) tasks
        (vote_tasks-NoAppends args now (length r.counters) r.peers 0)

  -- The round that a time out begins.
  pub election-KeepsRounds :
      (wake now : ℕ) (r : Raft)
      → is_leader r.status ≡ false
      → ltb wake r.last_reset_election_time ≡ false
      → KeepsRounds (length r.counters) r (election_time_out wake now r)
  election-KeepsRounds wake now r other due =
      let (me, peers, counters, term, vote, follows) = election_begins wake now r other due in
      let (args, tasks, candidate, next) = election-tasks wake now r other due in
      grown-KeepsRounds (length r.counters) (1 ∷ []) me peers (inr refl) counters
        (NoNewAppends-NewAppends r (election_time_out wake now r)
          (election-NoNewAppends wake now r other due))
        (added-KeepsAppends r (election_time_out wake now r) _ tasks)
