-- ===== src/Raft/Group/Commits.antt =====
-- What a leader commits, a majority of the nodes has accepted.
use native.Mathlib.Decide.{ℕ_discrete}
use kvstorage_base_raft_cpp.Base.{
  ℕ, ◌+◌, ◌/◌, ◌≤◌, ◌<◌, ◌≡◌, ◌≢◌, inl, inr, refl, ap, ◌∙◌, true, some, List, [], arith, length,
  count, count_mono, count_more, update, update_self, update_other, update-all,
}
use mathlib.Core.Path.{subst}
use kvstorage_base_raft_cpp.Raft.Node.Frame.{init_begun}
use kvstorage_base_raft_cpp.Message.{AppendEntriesArgs, AppendEntriesReply}
use kvstorage_base_raft_cpp.Archive.{Archive}
use kvstorage_base_raft_cpp.Raft.{Raft, Posted}
use kvstorage_base_raft_cpp.Raft.Posts.{HasAppend, HasAppend-at}
use kvstorage_base_raft_cpp.Raft.Election.{counter_at}
use kvstorage_base_raft_cpp.Raft.Replication.{append_entries, receive_append}
use kvstorage_base_raft_cpp.Raft.Replication.Bystander.{
  append_entries-Bystander, receive_append-Bystander, receive_append-same, receive_append-counted,
}
use kvstorage_base_raft_cpp.Raft.Replication.Commit.{receive_append_commits}
use kvstorage_base_raft_cpp.Raft.Group.{
  Group, delivers, replies, IsInitial, GroupReach, begins, later,
}
use kvstorage_base_raft_cpp.Raft.Group.Invariant.{Ballots, GroupOk}
use kvstorage_base_raft_cpp.Raft.Group.Safety.{GroupReach-GroupOk}
use kvstorage_base_raft_cpp.Raft.Group.Cluster.{
  AppendCall, unsent, taken, returned, request_of, has_stored, Cluster, set_send, elsewhere, takes,
  comes_back, ClusterReach, sets_out, goes_on,
}
use kvstorage_base_raft_cpp.Raft.Group.Elsewhere.{
  AllBeats, begun, beyond, moved-AllBeats, elsewhere-AllBeats,
}
use kvstorage_base_raft_cpp.Raft.Group.Beats.{Beats, Beats-row}

-- The calls of a round were posted, one that is answered among them.
row_called :
    (ps : List Posted) (c k : ℕ) (row : ℕ → AppendCall) (call : AppendCall)
    (args : AppendEntriesArgs)
    → request_of call ≡ some args
    → HasAppend k args c ps
    → ((m : ℕ) (other : AppendEntriesArgs)
        → request_of (row m) ≡ some other
        → HasAppend m other c ps)
    → (m : ℕ) (other : AppendEntriesArgs) → request_of (update k call row m) ≡ some other
    → HasAppend m other c ps
row_called ps c k row call args of_call sent called =
    update-all
      (λ m call.
        (other : AppendEntriesArgs) → request_of call ≡ some other → HasAppend m other c ps)
      k call row
      (λ other e. let same : args ≡ other = cc in subst (λ x. HasAppend k x c ps) same sent)
      (λ m away other e. called m other e)

-- A call is answered.
module _ (n i k : ℕ) (row : ℕ → AppendCall) (args : AppendEntriesArgs)
    (reply : AppendEntriesReply) where
  taken_stored :
      (m : ℕ)
      → row k ≡ unsent
      → has_stored i row m ≡ true
      → has_stored i (update k (taken args reply) row) m ≡ true
  taken_stored m at h = elim (ℕ_discrete m k) [
    | yes here ↦ ground (arith, h, here, at)
    | no other ↦ ground (arith, h)
  ]

  returned_stored :
      (m : ℕ)
      → row k ≡ taken args reply
      → has_stored i row m ≡ true
      → has_stored i (update k (returned args reply) row) m ≡ true
  returned_stored m at h = elim (ℕ_discrete m k) [
    | yes here ↦ ground (arith, h, here, at)
    | no other ↦ ground (arith, h)
  ]

  -- A success that comes back is one more.
  returned_more :
      row k ≡ taken args reply
      → k < n
      → k ≢ i
      → reply.success ≡ true
      → count n (has_stored i row) + 1 ≤ count n (has_stored i (update k (returned args reply) row))
  returned_more at below other success =
      count_more n k (has_stored i row) (has_stored i (update k (returned args reply) row)) below
        (ground (arith, at, other)) (ground (arith, success)) (λ m h. returned_stored m at h)

module _ ⦃a : Archive⦄ (n : ℕ) (b : Ballots) (g : Group) (ok : GroupOk n b g)
    (sends : ℕ → ℕ → ℕ → AppendCall) (all : AllBeats n g.nodes sends) where
  takes-AllBeats :
      (i k c now : ℕ) (args : AppendEntriesArgs) (reply : AppendEntriesReply) (q : Raft)
      → i < n
      → k < n
      → HasAppend k args c (g.nodes i).rpc_tasks
      → sends i c k ≡ unsent
      → append_entries now args (g.nodes k) ≡ some (reply, q)
      → AllBeats n (update k q g.nodes) (set_send i c k (taken args reply) sends)
  takes-AllBeats i k c now args reply q inside below sent at e =
      let row = update k (taken args reply) (sends i c) in
      let called : AllBeats n g.nodes (set_send i c k (taken args reply) sends) =
        update-all (λ j rows. j < n → Beats n j (g.nodes j) rows) i (update c row (sends i)) sends
          (λ h.
            Beats-row n i c (g.nodes i) (g.nodes i) (sends i) row (all i inside) refl
              (λ m other d. λ posted differs. omega arith)
              (
                λ m other. λ posted. omega (
                  arith,
                  (all i inside).tally m other c posted,
                  count_mono n (has_stored i (sends i c)) (has_stored i row)
                      (λ m h. taken_stored n i k (sends i c) args reply m at h),
                ),
                row_called (g.nodes i).rpc_tasks c k (sends i c) (taken args reply) args refl sent
                    ((all i inside).called c),
              ))
          (λ j away h. all j h) in
      moved-AllBeats n b g ok (set_send i c k (taken args reply) sends) k q
        (length (g.nodes k).counters) below
        (append_entries-Bystander _ now args (g.nodes k) reply q e).rounds
        (beyond n b g ok sends k below) called

  -- What the node's counter says after a call has come back.
  returned-tally :
      (i k c : ℕ) (args : AppendEntriesArgs) (reply : AppendEntriesReply)
      → i < n
      → sends i c k ≡ taken args reply
      → counter_at (receive_append k args c true reply (g.nodes i)) c
        ≤ count n (has_stored i (update k (returned args reply) (sends i c)))
  returned-tally i k c args reply inside at =
      let sent = (all i inside).called c k args (ap request_of at) in
      let (within, round, below, other) = (ok.node i inside).posted k args c sent in
      let before = (all i inside).tally k args c sent in
      elim (receive_append-counted k args c true reply (g.nodes i)) [
        | inl no_more ↦ omega (
          arith,
          no_more,
          before,
          count_mono n (has_stored i (sends i c))
              (has_stored i (update k (returned args reply) (sends i c)))
              (λ m h. returned_stored n i k (sends i c) args reply m at h),
        )
        | inr (success, more) ↦
            omega (
              arith,
              more,
              before,
              returned_more n i k (sends i c) args reply at below other success,
            )
      ]

  comes_back-AllBeats :
      (i k c : ℕ) (args : AppendEntriesArgs) (reply : AppendEntriesReply)
      → i < n
      → sends i c k ≡ taken args reply
      → AllBeats n
          (update i (receive_append k args c true reply (g.nodes i)) g.nodes)
          (set_send i c k (returned args reply) sends)
  comes_back-AllBeats i k c args reply inside at =
      let r = g.nodes i in
      let q : Raft = receive_append k args c true reply r in
      let row = update k (returned args reply) (sends i c) in
      let rounds = (receive_append-Bystander k args c true reply r).rounds in
      let (me, peers, counters, tasks) = receive_append-same k args c true reply r in
      let here : Beats n i q (update c row (sends i)) =
        Beats-row n i c r q (sends i) row (all i inside) tasks
          (λ m other d. λ posted differs.
            omega (
              arith,
              rounds.counts_kept d (begun n b g ok sends i inside m other d posted) differs,
            ))
          (
            λ m other. λ posted. returned-tally i k c args reply inside at,
            row_called r.rpc_tasks c k (sends i c) (returned args reply) args refl
                ((all i inside).called c k args (ap request_of at)) ((all i inside).called c),
          ) in
      update-all (λ j s. j < n → Beats n j s (set_send i c k (returned args reply) sends j)) i q
        g.nodes (λ h. rw (update_self i (update c row (sends i)) sends) here)
        (λ j away h. rw (update_other i j (update c row (sends i)) sends away) (all j h))

-- The calls of a round after one of them has come back.
abbrev pub row_after : Cluster → ℕ → ℕ → ℕ → AppendEntriesArgs → AppendEntriesReply → ℕ → AppendCall
row_after s i c k args reply = update k (returned args reply) (s.sends i c)

module _ ⦃a : Archive⦄ (n : ℕ) where
  sets_out-AllBeats :
      (g : Group) (sends : ℕ → ℕ → ℕ → AppendCall)
      → IsInitial n g
      → ((i c k : ℕ) → sends i c k ≡ unsent)
      → AllBeats n g.nodes sends
  sets_out-AllBeats g sends initial quiet i inside =
      let (now, raftstate, snapshot, chan, e) = initial.begun i inside in
      let (me, peers, term, vote, other, tasks) = init_begun now n i raftstate snapshot chan in
      let no_tasks : (g.nodes i).rpc_tasks ≡ [] = ap (λ (r : Raft). r.rpc_tasks) e ∙ tasks in
      record {
        tally = λ k args c. λ h. absurd (HasAppend-at k args c no_tasks h);
        ends = λ k m args other c. λ h. absurd (HasAppend-at k args c no_tasks h);
        called = λ c k args asks. absurd (ground (arith, asks, quiet i c k));
      }

  -- A run in which calls are made once is a run of the group.
  pub ClusterReach-GroupReach :
      {s : Cluster} → ClusterReach n s → GroupReach n s.group × AllBeats n s.group.nodes s.sends
  ClusterReach-GroupReach (sets_out s initial quiet) =
      (begins s.group initial, sets_out-AllBeats s.group s.sends initial quiet)
  ClusterReach-GroupReach (goes_on {s} run (elsewhere step away)) =
      let (reach, all) = ClusterReach-GroupReach run in
      let (b, ok) = GroupReach-GroupOk n reach in
      (later reach step, elsewhere-AllBeats n b s.group ok s.sends all step away)
  ClusterReach-GroupReach
        (goes_on {s} run (takes i k c now args reply {q} inside below sent at e)) =
      let (reach, all) = ClusterReach-GroupReach run in
      let (b, ok) = GroupReach-GroupOk n reach in
      (
        later reach (delivers i k c now args reply inside below sent e),
        takes-AllBeats n b s.group ok s.sends all i k c now args reply q inside below sent at e,
      )
  ClusterReach-GroupReach (goes_on {s} run (comes_back i k c args reply inside at)) =
      let (reach, all) = ClusterReach-GroupReach run in
      let (b, ok) = GroupReach-GroupOk n reach in
      let sent = (all i inside).called c k args (ap request_of at) in
      (
        later reach (replies i k c args true reply inside sent),
        comes_back-AllBeats n b s.group ok s.sends all i k c args reply inside at,
      )

  -- In a run in which every posted request to append is sent once at most, answered once at most and
  -- its answer comes back once at most, a reply moves the commit index of a node only when the node
  -- and those that have accepted its requests of the same round are a majority of the `n` nodes. Every
  -- answered request of that round ends at the index up to which the node then commits.
  pub commits_by_majority :
      (s : Cluster) (i k c : ℕ) (args : AppendEntriesArgs) (reply : AppendEntriesReply)
      → ClusterReach n s
      → i < n
      → s.sends i c k ≡ taken args reply
      → let r = s.group.nodes i in
        let q = receive_append k args c true reply r in
        r.commit_index < q.commit_index
        → (n / 2 + 1 ≤ count n (has_stored i (row_after s i c k args reply)))
          × ((m : ℕ) (other : AppendEntriesArgs)
              → request_of (row_after s i c k args reply m) ≡ some other
              → other.prev_log_index + length other.entries ≡ q.commit_index)
  commits_by_majority s i k c args reply run inside at moved =
      let (reach, all) = ClusterReach-GroupReach run in
      let (b, ok) = GroupReach-GroupOk n reach in
      let r = s.group.nodes i in
      let sent = (all i inside).called c k args (ap request_of at) in
      let (within, round, below, other) = (ok.node i inside).posted k args c sent in
      let by = receive_append_commits k args c true reply r moved in
      let half = ap (λ (m : ℕ). m / 2) (ok.node i inside).of_peers in
      (
        omega (
          arith,
          by.majority,
          half,
          (all i inside).tally k args c sent,
          returned_more n i k (s.sends i c) args reply at below other by.success,
        ),
        λ m request asks.
            let posted =
              row_called r.rpc_tasks c k (s.sends i c) (returned args reply) args refl sent
                ((all i inside).called c) m request asks in
            omega (arith, by.up_to_request, (all i inside).ends m k request args c posted sent),
      )
