-- ===== src/System.antt =====
-- The whole system: the nodes of a group, raftCore/raft.cc, each with its key-value server,
-- raftCore/kvServer.cc. A server reads its node's channel from the front. What a server does with
-- one message, and what it answers after a wait, is one step.
pub mod Refine
pub mod Asked
pub mod Requested
pub mod Answered
use kvstorage_base_raft_cpp.Base.{
  ℕ, suc, ◌<◌, ◌≡◌, Option, none, some, length, take, drop, ◌++◌, List, [], ◌∷◌, Bytes, update,
  get_elem?,
}
use kvstorage_base_raft_cpp.Message.{Op, ApplyMsg}
use kvstorage_base_raft_cpp.Archive.{Archive}
use kvstorage_base_raft_cpp.Raft.Node.Steps.{Step, compacts, starts}
use kvstorage_base_raft_cpp.Raft.Group.{Group, GroupStep, moves, IsInitial}
use kvstorage_base_raft_cpp.KvServer.{SkipList, KvServer, get_op, read_raft_apply_command}
use kvstorage_base_raft_cpp.KvServer.Client.{
  start_request, register_wait, finish_get, finish_put_append,
}

-- `read` holds the messages that each server has read, the last one first; `started` the requests
-- that have gone to the log, with their index; `waiting` those that wait, with index and queue.
pub record System (S : Type 0) : Type 0 where
  pub group : Group
  pub servers : ℕ → KvServer S
  pub read : ℕ → List ApplyMsg
  pub started : ℕ → List (Op × ℕ)
  pub waiting : ℕ → List (Op × ℕ × ℕ)

-- Server `i` over its node.
abbrev pub server_at : {S : Type 0} → ℕ → System S → KvServer S
server_at i s = record (s.servers i) { raft_node = s.group.nodes i }

abbrev pub set_server : {S : Type 0} → ℕ → KvServer S → System S → System S
set_server i q s = record s {
  group = record s.group { nodes = update i q.raft_node s.group.nodes };
  servers = update i q s.servers;
}

-- A list without the entry at a position.
abbrev pub without : {A : Type 0} → ℕ → List A → List A
without p xs = take p xs ++ drop (suc p) xs

-- A step of the nodes alone: `Start` and `Snapshot` are calls of the servers.
abbrev pub IsOfNodes : ⦃a : Archive⦄ → {n : ℕ} {g h : Group} → GroupStep n g h → Type 0
IsOfNodes (moves i inside (compacts index snapshot e) apart) = ⊥
IsOfNodes (moves i inside (starts command e) apart) = ⊥
IsOfNodes step = Unit {0}

-- A run of the system, with the commands that clients have asked servers for, the last one first.
pub data Runs {S : Type 0} ⦃l : SkipList S⦄ ⦃a : Archive⦄ (n : ℕ)
    : List Op → System S → Type 0 where
  boots :
      (s : System S)
      → IsInitial n s.group
      → ((i : ℕ)
          → i < n
          → ((s.group.nodes i).apply_chan ≡ [])
            × ((s.servers i).channels ≡ [])
            × ((s.servers i).last_request_client_and_id ≡ [])
            × (s.read i ≡ [])
            × (s.started i ≡ [])
            × (s.waiting i ≡ []))
      → Runs n [] s
  goes_on :
      {asked : List Op} {s : System S} {g : Group}
      → Runs n asked s
      → (step : GroupStep n s.group g) → IsOfNodes step
      → Runs n asked (record s { group = g })
  -- A request that the node does not take, as it does not lead, is answered at once.
  asks :
      {asked : List Op} {s : System S} (i : ℕ) (op : Op)
      → i < n
      → Runs n asked s
      → Runs n (op ∷ asked) (record (set_server i (start_request op (server_at i s)).1 s) {
        started =
            update i
              (elim (start_request op (server_at i s)).0 [
                | none ↦ s.started i
                | some index ↦ (op, index) ∷ s.started i
              ])
              s.started;
      })
  registers :
      {asked : List Op} {s : System S} (i p : ℕ) (op : Op) (index : ℕ)
      → i < n
      → get_elem? (s.started i) p ≡ some (op, index)
      → Runs n asked s
      → Runs n asked (record (set_server i (register_wait index (server_at i s)).1 s) {
        started = update i (without p (s.started i)) s.started;
        waiting =
            update i ((op, index, (register_wait index (server_at i s)).0) ∷ s.waiting i) s.waiting;
      })
  reads :
      {asked : List Op} {s : System S} (i : ℕ) (message : ApplyMsg) (q : KvServer S)
      → i < n
      → get_elem? (s.group.nodes i).apply_chan (length (s.read i)) ≡ some message
      → read_raft_apply_command message (server_at i s) ≡ some q
      → Runs n asked s
      → Runs n asked (record (set_server i q s) { read = update i (message ∷ s.read i) s.read })
  gets :
      {asked : List Op} {s : System S} (i p : ℕ) (op : Op) (index c : ℕ)
      → i < n
      → get_elem? (s.waiting i) p ≡ some (op, index, c)
      → op.operation ≡ get_op
      → Runs n asked s
      → Runs n asked (record (set_server i (finish_get op index c (server_at i s)).1 s) {
        waiting = update i (without p (s.waiting i)) s.waiting;
      })
  puts :
      {asked : List Op} {s : System S} (i p : ℕ) (op : Op) (index c : ℕ)
      → i < n
      → get_elem? (s.waiting i) p ≡ some (op, index, c)
      → Runs n asked s
      → Runs n asked (record (set_server i (finish_put_append op index c (server_at i s)).1 s) {
        waiting = update i (without p (s.waiting i)) s.waiting;
      })
