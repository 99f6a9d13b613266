-- ===== src/Raft/Group/Steps.antt =====
-- Every step keeps the votes of a group in order.
use kvstorage_base_raft_cpp.Base.{
  ℕ, ◌<◌, ◌≡◌, refl, sym, ap, ◌∙◌, inl, inr, true, false, some, arith, length, ltb, update,
  update_self,
}
use kvstorage_base_raft_cpp.Message.{RequestVoteArgs, RequestVoteReply}
use kvstorage_base_raft_cpp.Archive.{Archive}
use kvstorage_base_raft_cpp.Raft.{Raft, is_leader}
use kvstorage_base_raft_cpp.Raft.Progress.{Aside-Onward}
use kvstorage_base_raft_cpp.Raft.Election.{request_vote, receive_vote, election_time_out}
use kvstorage_base_raft_cpp.Raft.Election.Grant.{granted_recorded}
use kvstorage_base_raft_cpp.Raft.Election.Frame.{
  request_vote-Kept, request_vote-Aside, receive_vote-Kept, receive_vote-Aside,
  election_time_out-Kept, election_time_out-Aside,
}
use kvstorage_base_raft_cpp.Raft.Election.Bystander.{
  request_vote-Bystander, receive_vote-rounds, election_begins, election-NoNewAppends,
  election-tasks, election-KeepsRounds,
}
use kvstorage_base_raft_cpp.Raft.Group.{
  Group, GroupStep, elects, serves, returns, fails, moves, delivers, replies, waiting, answered,
  closed, asked, calls_of, new_tasks, set_row,
}
use kvstorage_base_raft_cpp.Raft.Group.Invariant.{Ballots, Grows, RoundOk, GroupOk}
use kvstorage_base_raft_cpp.Raft.Group.Rounds.{
  tallied-Grows, RoundOk-kept, RoundOk-answered, RoundOk-closed, open-closed,
}
use kvstorage_base_raft_cpp.Raft.Group.Appends.{moves-GroupOk, delivers-GroupOk, replies-GroupOk}
use kvstorage_base_raft_cpp.Raft.Group.Begin.{IsFresh, new_tasks-IsFresh, begun-RoundOk}
use kvstorage_base_raft_cpp.Raft.Group.Returns.{returned-tally, returned-HasMajority}
use kvstorage_base_raft_cpp.Raft.Group.Moves.{
  set_row-all, votes_after, votes_grow, LeadsOn-elected, moved-RoundOk, moved_and_called-GroupOk,
}

module _ ⦃a : Archive⦄ (n : ℕ) (b : Ballots) (g : Group) (ok : GroupOk n b g) where
  fails-GroupOk :
      (i c k : ℕ)
      → GroupOk n b (record g { calls = set_row i c (update k closed (g.calls i c)) g.calls })
  fails-GroupOk i c k = record {
    node = ok.node;
    round =
        set_row-all (λ j d row. j < n → RoundOk n b j d (g.nodes j) row) i c
          (update k closed (g.calls i c)) g.calls
          (λ inside.
            RoundOk-closed n b i c (g.nodes i) (g.nodes i) (g.calls i c) k (omega arith)
              (omega arith) (λ k args c h. inl h)
              (λ m args e. omega (
                arith,
                ((ok.round i c inside).asks m args e).tally,
                tallied-Grows n b b args.term i (g.calls i c) (update k closed (g.calls i c))
                    (λ m term v h. h) (open-closed (g.calls i c) k),
              ))
              (ok.round i c inside))
          (λ j d h inside. ok.round j d inside);
  }

  elects-GroupOk :
      (i wake now : ℕ)
      → i < n
      → is_leader (g.nodes i).status ≡ false
      → ltb wake (g.nodes i).last_reset_election_time ≡ false
      → let q = election_time_out wake now (g.nodes i) in
        (b' : Ballots) × Grows b b'
        × GroupOk n b' (record {
          nodes = update i q g.nodes;
          calls =
              set_row i
                (length (g.nodes i).counters)
                (calls_of (length (g.nodes i).counters) (new_tasks (g.nodes i) q))
                g.calls;
        })
  elects-GroupOk i wake now inside other due =
      let r = g.nodes i in
      let q : Raft = election_time_out wake now r in
      let node = ok.node i inside in
      let kept = election_time_out-Kept wake now r in
      let onward = (Aside-Onward (election_time_out-Aside wake now r) node.in_order) in
      let (me, peers, counters, term, vote, follows) = election_begins wake now r other due in
      let (args, tasks, from, in_term) = election-tasks wake now r other due in
      let posts = election-NoNewAppends wake now r other due in
      let x = length r.counters in
      let rounds = election-KeepsRounds wake now r other due in
      let b' : Ballots = votes_after n b g ok i inside q kept in
      let fresh : (k : ℕ) → IsFresh args n k (calls_of x (new_tasks r q) k) =
        λ k. rw (← node.of_peers) (new_tasks-IsFresh args now x r.peers k r q tasks) in
      let own : b' i q.current_term ≡ some i = ground (arith, vote, node.named) in
      (
        b',
        votes_grow n b g ok i inside q kept,
        moved_and_called-GroupOk n b g ok i inside q kept x rounds onward
            (λ leads. absurd (ground (arith, follows, leads))) i x (calls_of x (new_tasks r q))
            (λ h. rw (update_self i q g.nodes) (
              begun-RoundOk args n (calls_of x (new_tasks r q)) fresh b' i r.counters q inside
                (from ∙ node.named) (in_term ∙ sym term) counters own
                (λ m other sent.
                  absurd (omega (arith, (node.posted m other x (posts m other x sent)).1)))))
            (λ k d away here below. λ e. away (here, e)),
      )

  serves-GroupOk :
      (i c k now : ℕ) (args : RequestVoteArgs)
      → i < n
      → g.calls i c k ≡ waiting args
      → let (reply, q) = request_vote now args (g.nodes k) in
        (b' : Ballots) × Grows b b'
        × GroupOk n b' (record {
          nodes = update k q g.nodes;
          calls = set_row i c (update k (answered args reply) (g.calls i c)) g.calls;
        })
  serves-GroupOk i c k now args inside at =
      let r = g.nodes k in
      let reply : RequestVoteReply = (request_vote now args r).0 in
      let q : Raft = (request_vote now args r).1 in
      let asks = (ok.round i c inside).asks k args (ap asked at) in
      let below = asks.to_node in
      let node = ok.node k below in
      let kept = request_vote-Kept now args r in
      let onward = (Aside-Onward (request_vote-Aside now args r) node.in_order) in
      let x = length r.counters in
      let bystander = request_vote-Bystander x now args r in
      let b' : Ballots = votes_after n b g ok k below q kept in
      let voted : reply.vote_granted ≡ true → (reply.term ≡ args.term) × (b' k args.term ≡ some i) =
        λ granted.
          let (vote, term, told) = granted_recorded now args r granted in
          (told, ground (arith, vote, term, asks.candidate)) in
      (
        b',
        votes_grow n b g ok k below q kept,
        moved_and_called-GroupOk n b g ok k below q kept x bystander.rounds onward
            (LeadsOn-elected n b g ok k below q kept bystander.leads_on) i c
            (update k (answered args reply) (g.calls i c))
            (λ h.
              RoundOk-answered n b' i c (update k q g.nodes i) (g.calls i c) k args reply at voted (
                moved-RoundOk n b g ok k below q kept x bystander.rounds i c inside
                  (λ here d. omega arith)))
            (λ j d away here d'. omega arith),
      )

  returns-GroupOk :
      (i c k now : ℕ) (args : RequestVoteArgs) (reply : RequestVoteReply)
      → i < n
      → g.calls i c k ≡ answered args reply
      → (b' : Ballots) × Grows b b'
        × GroupOk n b' (record {
          nodes = update i (receive_vote now c true reply (g.nodes i)) g.nodes;
          calls = set_row i c (update k closed (g.calls i c)) g.calls;
        })
  returns-GroupOk i c k now args reply inside at =
      let r = g.nodes i in
      let row = g.calls i c in
      let q : Raft = receive_vote now c true reply r in
      let node = ok.node i inside in
      let kept = receive_vote-Kept now c true reply r in
      let onward = (Aside-Onward (receive_vote-Aside now c true reply r) node.in_order) in
      let (rounds, counted) = receive_vote-rounds now c true reply r in
      let b' : Ballots = votes_after n b g ok i inside q kept in
      let grows = votes_grow n b g ok i inside q kept in
      (
        b',
        votes_grow n b g ok i inside q kept,
        moved_and_called-GroupOk n b g ok i inside q kept c rounds onward
            (elim counted [
              | inl (on, same) ↦ LeadsOn-elected n b g ok i inside q kept on
              | inr counts ↦
                  returned-HasMajority n b g ok b' i c k args reply q grows inside at counts
            ])
            i c (update k closed row)
            (λ h. rw (update_self i q g.nodes) (
              RoundOk-closed n b' i c r q row k kept.term_grows rounds.counters_grow rounds.posts
                (returned-tally n b g ok b' i c k args reply q grows inside at (elim counted [
                  | inl (on, same) ↦ inl (omega (arith, same))
                  | inr counts ↦ inr (counts.one_more, counts.vote)
                ]))
                (RoundOk-kept n b b' i c r r row grows (omega arith) (omega arith) (λ d. refl)
                  (λ k args d h. inl h) (ok.round i c inside))))
            (λ j d away here below. λ e. away (here, e)),
      )

pub GroupStep-GroupOk :
    ⦃a : Archive⦄
    → (n : ℕ) (b : Ballots) {g h : Group} → GroupOk n b g
    → GroupStep n g h
    → (b' : Ballots) × Grows b b' × GroupOk n b' h
GroupStep-GroupOk n b {g} ok (elects i wake now inside other due) =
    elects-GroupOk n b g ok i wake now inside other due
GroupStep-GroupOk n b {g} ok (serves i c k now args inside at) =
    serves-GroupOk n b g ok i c k now args inside at
GroupStep-GroupOk n b {g} ok (returns i c k now args reply inside at) =
    returns-GroupOk n b g ok i c k now args reply inside at
GroupStep-GroupOk n b {g} ok (fails i c k) = (b, λ m term v h. h, fails-GroupOk n b g ok i c k)
GroupStep-GroupOk n b {g} ok (moves i {q} inside step apart) =
    moves-GroupOk n b g ok i q inside step apart
GroupStep-GroupOk n b {g} ok (delivers i k c now args reply {q} inside below sent e) =
    delivers-GroupOk n b g ok i k c now args reply q inside below sent e
GroupStep-GroupOk n b {g} ok (replies i k c args went reply inside sent) =
    replies-GroupOk n b g ok i k c args went reply inside sent
