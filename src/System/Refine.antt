-- ===== src/System/Refine.antt =====
-- What the servers do to their nodes are steps of the group.
use kvstorage_base_raft_cpp.Base.{ℕ, ◌<◌, ◌≡◌, refl, sym, inl, inr, List, update, update-all}
use mathlib.Core.Path.{subst}
use kvstorage_base_raft_cpp.Message.{Op}
use kvstorage_base_raft_cpp.Archive.{Archive}
use kvstorage_base_raft_cpp.Raft.{Raft}
use kvstorage_base_raft_cpp.Raft.Node.Steps.{compacts, starts}
use kvstorage_base_raft_cpp.Raft.Group.{Group, GroupReach, begins, later, moves}
use kvstorage_base_raft_cpp.KvServer.{SkipList}
use kvstorage_base_raft_cpp.KvServer.Round.{
  Snapshots, read_raft_apply_command-raft, start_request-raft, register_wait-raft, finish_get-raft,
  finish_put_append-raft,
}
use kvstorage_base_raft_cpp.System.{
  System, Runs, boots, goes_on, asks, registers, reads, gets, puts, server_at,
}

pub set_same :
    (i : ℕ) (r : Raft) (g : Group) → r ≡ g.nodes i → g ≡ record g { nodes = update i r g.nodes }
set_same i r g same k = record g {
  nodes = λ j. update-all (λ j x. g.nodes j ≡ x) i r g.nodes (sym same) (λ j away. refl) j k;
}

module _ ⦃a : Archive⦄ (n : ℕ) where
  stays :
      {g : Group} (i : ℕ) (r : Raft)
      → r ≡ g.nodes i
      → GroupReach n g
      → GroupReach n (record g { nodes = update i r g.nodes })
  stays {g} i r same run = subst (GroupReach n) (set_same i r g same) run

  snapshots-GroupReach :
      {g : Group} (i : ℕ) (r : Raft)
      → i < n
      → Snapshots (g.nodes i) r
      → GroupReach n g
      → GroupReach n (record g { nodes = update i r g.nodes })
  snapshots-GroupReach i r inside (inl same) run = stays i r same run
  snapshots-GroupReach i r inside (inr (index, snapshot, e)) run =
      later run (moves i inside (compacts index snapshot e) tt)

  -- In any run of the system of `n` nodes and their servers, the nodes are a group in a state that a
  -- run of the group reaches: what holds in every run of the group holds here, whatever the servers do.
  pub Runs-GroupReach :
      {S : Type 0} ⦃l : SkipList S⦄ {asked : List Op} {s : System S}
      → Runs n asked s
      → GroupReach n s.group
  Runs-GroupReach (boots s initial empty) = begins s.group initial
  Runs-GroupReach (goes_on run step of_nodes) = later (Runs-GroupReach run) step
  Runs-GroupReach (asks {s = s} i op inside run) =
      later (Runs-GroupReach run)
        (moves i inside (starts op (start_request-raft op (server_at i s))) tt)
  Runs-GroupReach (registers {s = s} i p op index inside at run) =
      stays i _ (register_wait-raft index (server_at i s)) (Runs-GroupReach run)
  Runs-GroupReach (reads {s = s} i message q inside at e run) =
      snapshots-GroupReach i q.raft_node inside
        (read_raft_apply_command-raft message (server_at i s) q e) (Runs-GroupReach run)
  Runs-GroupReach (gets {s = s} i p op index c inside at get run) =
      stays i _ (finish_get-raft op index c (server_at i s)) (Runs-GroupReach run)
  Runs-GroupReach (puts {s = s} i p op index c inside at run) =
      stays i _ (finish_put_append-raft op index c (server_at i s)) (Runs-GroupReach run)
