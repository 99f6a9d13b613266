-- ===== src/Raft/Group/Safety.antt =====
-- At most one leader in a term.
use kvstorage_base_raft_cpp.Base.{ℕ, ◌<◌, ◌≡◌, refl, sym, ap, true, none, arith, count}
use kvstorage_base_raft_cpp.Archive.{Archive}
use kvstorage_base_raft_cpp.Raft.{is_leader}
use kvstorage_base_raft_cpp.Raft.Posts.{HasAppend, HasAppend-at, IsWithin}
use kvstorage_base_raft_cpp.Raft.Log.{Inv}
use kvstorage_base_raft_cpp.Message.{AppendEntriesArgs}
use kvstorage_base_raft_cpp.Raft.Node.Frame.{init_begun, fresh_node-Inv}
use kvstorage_base_raft_cpp.Raft.Group.{Group, IsInitial, GroupReach, begins, later, is_open}
use kvstorage_base_raft_cpp.Raft.Group.Invariant.{Ballots, cast, GroupOk, one_majority}
use kvstorage_base_raft_cpp.Raft.Group.Moves.{IsQuiet-RoundOk}
use kvstorage_base_raft_cpp.Raft.Group.Steps.{GroupStep-GroupOk}

abbrev pub no_votes : Ballots
no_votes m term = none

module _ ⦃a : Archive⦄ (n : ℕ) where
  pub IsInitial-GroupOk : (g : Group) → IsInitial n g → GroupOk n no_votes g
  IsInitial-GroupOk g initial = record {
    node = λ i inside.
        let (now, raftstate, snapshot, chan, e) = initial.begun i inside in
        let (me, peers, term, vote, other, tasks) = init_begun now n i raftstate snapshot chan in
        rw e (record {
          in_order = fresh_node-Inv now n i raftstate snapshot chan;
          named = me;
          of_peers = peers;
          on_record = sym vote;
          no_later = λ t h. refl;
          elected = λ leads. absurd (ground (arith, other, leads));
          posted = λ k args c. λ h. absurd (HasAppend-at k args c tasks h);
        });
    round = λ i c inside.
        IsQuiet-RoundOk n no_votes i c (g.nodes i) (g.calls i c)
          (λ k. ap is_open (initial.silent i c k));
  }

  pub GroupReach-GroupOk : {g : Group} → GroupReach n g → (b : Ballots) × GroupOk n b g
  GroupReach-GroupOk (begins g initial) = (no_votes, IsInitial-GroupOk g initial)
  GroupReach-GroupOk (later run step) =
      let (b, ok) = GroupReach-GroupOk run in
      let (b', grows, ok') = GroupStep-GroupOk n b ok step in (b', ok')

  -- In a group of `n` nodes that each begin with a new persister, whatever the order in which their
  -- timers run out, the calls for votes are answered, come back and are lost, the posted requests
  -- to append and replies to them arrive, once, often or never, and the other handlers run, on
  -- snapshots of any content, two nodes that lead in the same term are the same node. The runs are
  -- those in which no read is outside a log.
  pub election_safety :
      (g : Group) (i j : ℕ)
      → GroupReach n g
      → i < n
      → j < n
      → is_leader (g.nodes i).status ≡ true
      → is_leader (g.nodes j).status ≡ true
      → (g.nodes i).current_term ≡ (g.nodes j).current_term
      → i ≡ j
  election_safety g i j run inside inside' leads leads' same =
      let (b, ok) = GroupReach-GroupOk run in
      let at_one = ap (λ t. count n (cast b t j)) same in
      one_majority n b (g.nodes i).current_term i j ((ok.node i inside).elected leads)
        (omega (arith, (ok.node j inside').elected leads', at_one))

  -- In any run of a group of `n` nodes that each begin with a new persister, in which no read is
  -- outside a log, every node is in order: the entries of its log have consecutive indices behind
  -- its snapshot, what is applied is committed, and what is committed is in its log. Every request
  -- to append that it has posted carries entries with consecutive indices, none of them behind the
  -- end of its log.
  pub nodes_in_order :
      (g : Group) (i : ℕ)
      → GroupReach n g
      → i < n
      → Inv (g.nodes i)
        × ((k : ℕ) (args : AppendEntriesArgs) (c : ℕ)
            → HasAppend k args c (g.nodes i).rpc_tasks
            → IsWithin (g.nodes i) args)
  nodes_in_order g i run inside =
      let (b, ok) = GroupReach-GroupOk run in
      let node = ok.node i inside in (node.in_order, λ k args c sent. (node.posted k args c sent).0)
