-- ===== src/System/Requested.antt =====
-- Where the commands come from that nodes hand to their servers.
use kvstorage_base_raft_cpp.Base.{
  ℕ, ◌<◌, ◌≡◌, inl, inr, true, some, List, [], ◌∷◌, arith, update, update-all, get_elem?,
  bytes_eq_instance,
}
use kvstorage_base_raft_cpp.Message.{Op, ApplyMsg}
use kvstorage_base_raft_cpp.Archive.{Archive, IsArchive}
use kvstorage_base_raft_cpp.Raft.{Raft}
use kvstorage_base_raft_cpp.Raft.Node.Origin.{init-Only, init-msgs}
use kvstorage_base_raft_cpp.Raft.Node.Steps.{compacts, starts}
use kvstorage_base_raft_cpp.Raft.Group.{GroupStep, moves}
use kvstorage_base_raft_cpp.Raft.Group.Whole.{Whole, Whole-mono}
use kvstorage_base_raft_cpp.Raft.Group.Safety.{GroupReach-GroupOk}
use kvstorage_base_raft_cpp.KvServer.{SkipList}
use kvstorage_base_raft_cpp.KvServer.Client.{start_request}
use kvstorage_base_raft_cpp.KvServer.Handed.{Among}
use kvstorage_base_raft_cpp.KvServer.Round.{
  read_raft_apply_command-raft, start_request-raft, register_wait-raft, finish_get-raft,
  finish_put_append-raft,
}
use kvstorage_base_raft_cpp.System.{
  System, Runs, boots, goes_on, asks, registers, reads, gets, puts, server_at, set_server,
}
use kvstorage_base_raft_cpp.System.Refine.{Runs-GroupReach}
use kvstorage_base_raft_cpp.System.Asked.{
  IsAsked, IsAsked-more, made_of_nodes, step-Whole, start-IsAsked, message-Among,
}

module _ ⦃a : Archive⦄ where
  -- The nodes hold only commands that clients have asked for.
  abbrev Written : ℕ → List Op → (ℕ → Raft) → Type 0
  Written n asked nodes = (i : ℕ) → i < n → Whole (IsAsked asked) (nodes i)

  -- A server leaves its node as it is.
  same-Written :
      (n : ℕ) (asked : List Op) (nodes : ℕ → Raft) (i : ℕ) (r : Raft)
      → r ≡ nodes i
      → Written n asked nodes
      → Written n asked (update i r nodes)
  same-Written n asked nodes i r same h =
      update-all (λ j x. j < n → Whole (IsAsked asked) x) i r nodes (λ inside. rw same (h i inside))
        (λ j away. h j)

module _ {S : Type 0} ⦃l : SkipList S⦄ ⦃a : Archive⦄ where
  Runs-Written :
      {n : ℕ} {asked : List Op} {s : System S} → Runs n asked s → Written n asked s.group.nodes
  Runs-Written {n} (boots s initial empty) = λ i inside.
      let (now, raftstate, snapshot, chan, begun) = initial.begun i inside in
      let no_message = (empty i inside).0 in
      record {
        entries = rw begun (init-Only (IsAsked []) now n i raftstate snapshot chan);
        messages = rw no_message tt;
        taken = rw (begun, init-msgs now n i raftstate snapshot chan) tt;
      }
  Runs-Written {n} {asked} (goes_on run step of_nodes) =
      step-Whole n asked (GroupReach-GroupOk n (Runs-GroupReach n run)) (Runs-Written run) step
        (λ e made_e. absurd (ground (arith, made_e, made_of_nodes step of_nodes)))
  Runs-Written {n} (asks {asked = asked} {s = s} i op inside run) =
      let q = (start_request op (server_at i s)).1 in
      let step : GroupStep n s.group (set_server i q s).group =
        moves i inside (starts op (start_request-raft op (server_at i s))) tt in
      step-Whole n (op ∷ asked) (GroupReach-GroupOk n (Runs-GroupReach n run))
        (λ j below.
          Whole-mono (IsAsked asked) (IsAsked (op ∷ asked)) (s.group.nodes j)
            (IsAsked-more op asked) (Runs-Written run j below))
        step (λ e made_e. start-IsAsked op asked (s.group.nodes i) e made_e)
  Runs-Written {n} {asked} (registers {s = s} i p op index inside at run) =
      same-Written n asked s.group.nodes i _ (register_wait-raft index (server_at i s))
        (Runs-Written run)
  Runs-Written {n} {asked} (reads {s = s} i message q inside at e run) =
      elim (read_raft_apply_command-raft message (server_at i s) q e) [
        | inl same ↦ same-Written n asked s.group.nodes i q.raft_node same (Runs-Written run)
        | inr (index, snapshot, taken) ↦
            let step : GroupStep n s.group (set_server i q s).group =
              moves i inside (compacts index snapshot taken) tt in
            step-Whole n asked (GroupReach-GroupOk n (Runs-GroupReach n run)) (Runs-Written run)
              step (λ e made_e. absurd (cc))
      ]
  Runs-Written {n} {asked} (gets {s = s} i p op index c inside at get run) =
      same-Written n asked s.group.nodes i _ (finish_get-raft op index c (server_at i s))
        (Runs-Written run)
  Runs-Written {n} {asked} (puts {s = s} i p op index c inside at run) =
      same-Written n asked s.group.nodes i _ (finish_put_append-raft op index c (server_at i s))
        (Runs-Written run)

  -- In any run of `n` nodes and their servers, every command that a node hands to its server is one
  -- that some server was asked for. The archives read back what they have written, and the nodes and
  -- servers begin empty.
  pub handed-Among :
      {n : ℕ} {asked : List Op} {s : System S} (i p : ℕ) (message : ApplyMsg)
      → IsArchive a
      → Runs n asked s
      → i < n
      → get_elem? (s.group.nodes i).apply_chan p ≡ some message
      → message.command_valid ≡ true
      → Among (a.load_op message.command) asked
  handed-Among {asked = asked} i p message archive run inside at valid =
      message-Among asked archive (Runs-Written run) i p message inside at valid
