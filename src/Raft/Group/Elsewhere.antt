-- ===== src/Raft/Group/Elsewhere.antt =====
-- The steps of a group that are no part of a call for an append.
use kvstorage_base_raft_cpp.Base.{ℕ, ◌<◌, ap, true, arith, length, update, update-all}
use kvstorage_base_raft_cpp.Message.{AppendEntriesArgs}
use kvstorage_base_raft_cpp.Archive.{Archive}
use kvstorage_base_raft_cpp.Raft.{Raft}
use kvstorage_base_raft_cpp.Raft.Posts.{HasAppend}
use kvstorage_base_raft_cpp.Raft.Bystander.{KeepsRounds}
use kvstorage_base_raft_cpp.Raft.Election.Bystander.{
  request_vote-Bystander, receive_vote-rounds, election-KeepsRounds,
}
use kvstorage_base_raft_cpp.Raft.Group.{
  Group, GroupStep, elects, serves, returns, fails, moves, delivers, replies, asked,
}
use kvstorage_base_raft_cpp.Raft.Group.Invariant.{Ballots, GroupOk}
use kvstorage_base_raft_cpp.Raft.Group.Apart.{IsApart-Bystander}
use kvstorage_base_raft_cpp.Raft.Group.Cluster.{AppendCall, IsElsewhere}
use kvstorage_base_raft_cpp.Raft.Group.Beats.{Beats, Beats-kept, KeepsRounds-KeepsBeats, AreBegun}

-- Every node's rounds are in order.
abbrev pub AllBeats : ℕ → (ℕ → Raft) → (ℕ → ℕ → ℕ → AppendCall) → Type 0
AllBeats n nodes sends = (i : ℕ) → i < n → Beats n i (nodes i) (sends i)

module _ ⦃a : Archive⦄ (n : ℕ) (b : Ballots) (g : Group) (ok : GroupOk n b g)
    (sends : ℕ → ℕ → ℕ → AppendCall) where
  pub begun : (j : ℕ) → j < n → AreBegun (g.nodes j)
  begun j below k args c h = ((ok.node j below).posted k args c h).1

  -- A node moves on, and the counter that it may change is of no round of heart beats.
  pub moved-AllBeats :
      (j : ℕ) (q : Raft) (x : ℕ)
      → j < n
      → KeepsRounds x (g.nodes j) q
      → ((k : ℕ) (args : AppendEntriesArgs) → ¬ HasAppend k args x (g.nodes j).rpc_tasks)
      → AllBeats n g.nodes sends
      → AllBeats n (update j q g.nodes) sends
  moved-AllBeats j q x below rounds apart all =
      update-all (λ i r. i < n → Beats n i r (sends i)) j q g.nodes
        (λ h.
          Beats-kept n j below (g.nodes j) q (sends j) (begun j below)
            (KeepsRounds-KeepsBeats x (g.nodes j) q (begun j below) rounds apart) (all j below))
        (λ i away h. all i h)

  -- No request is posted in a round that has not begun.
  pub beyond :
      (j : ℕ)
      → j < n
      → (k : ℕ) (args : AppendEntriesArgs)
      → ¬ HasAppend k args (length (g.nodes j).counters) (g.nodes j).rpc_tasks
  beyond j below k args h = absurd (omega (arith, begun j below k args _ h))

  pub elsewhere-AllBeats :
      AllBeats n g.nodes sends
      → {h : Group} (step : GroupStep n g h) → IsElsewhere n step
      → AllBeats n h.nodes sends
  elsewhere-AllBeats all (elects i wake now inside other due) away =
      moved-AllBeats i _ (length (g.nodes i).counters) inside
        (election-KeepsRounds wake now (g.nodes i) other due) (beyond i inside) all
  elsewhere-AllBeats all (serves i c k now args inside at) away =
      let below = ((ok.round i c inside).asks k args (ap asked at)).to_node in
      moved-AllBeats k _ (length (g.nodes k).counters) below
        (request_vote-Bystander _ now args (g.nodes k)).rounds (beyond k below) all
  elsewhere-AllBeats all (returns i c k now args reply inside at) away =
      moved-AllBeats i _ c inside (receive_vote-rounds now c true reply (g.nodes i)).0
        ((ok.round i c inside).asks k args (ap asked at)).apart all
  elsewhere-AllBeats all (fails i c k) away = all
  elsewhere-AllBeats all (moves i {q} inside step apart) away =
      moved-AllBeats i q (length (g.nodes i).counters) inside
        (IsApart-Bystander _ step (ok.node i inside).in_order apart).rounds (beyond i inside) all
  elsewhere-AllBeats all (delivers i k c now args reply inside below sent e) away = absurd away
  elsewhere-AllBeats all (replies i k c args went reply inside sent) away = absurd away
