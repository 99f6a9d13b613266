-- ===== src/Raft/Group/Cluster.antt =====
-- A group in which a posted request to append is sent once at most, answered once at most, by the node
-- that it goes to, and its answer comes back once at most: `sendAppendEntries` of raftCore/raft.cc.
use kvstorage_base_raft_cpp.Base.{
  ℕ, ◌<◌, ◌≡◌, ◌==◌, ◌||◌, Bool, true, false, Option, none, some, update,
}
use kvstorage_base_raft_cpp.Message.{AppendEntriesArgs, AppendEntriesReply}
use kvstorage_base_raft_cpp.Archive.{Archive}
use kvstorage_base_raft_cpp.Raft.{Raft}
use kvstorage_base_raft_cpp.Raft.Posts.{HasAppend}
use kvstorage_base_raft_cpp.Raft.Replication.{append_entries, receive_append}
use kvstorage_base_raft_cpp.Raft.Group.{Group, GroupStep, delivers, replies, IsInitial}

-- The call of a `send_append_entries` task.
pub data AppendCall : Type 0 where
  unsent : AppendCall
  taken : AppendEntriesArgs → AppendEntriesReply → AppendCall
  returned : AppendEntriesArgs → AppendEntriesReply → AppendCall

-- The request of a call that was answered.
abbrev pub request_of : AppendCall → Option AppendEntriesArgs
request_of unsent = none
request_of (taken args reply) = some args
request_of (returned args reply) = some args

-- The call came back with a success.
abbrev pub is_accepted : AppendCall → Bool
is_accepted unsent = false
is_accepted (taken args reply) = false
is_accepted (returned args reply) = reply.success

-- `sends i c k` is the call of node `i` to node `k` in the round of heart beats whose counter is `c`.
pub record Cluster : Type 0 where
  pub group : Group
  pub sends : ℕ → ℕ → ℕ → AppendCall

abbrev pub set_send : ℕ → ℕ → ℕ → AppendCall → (ℕ → ℕ → ℕ → AppendCall) → ℕ → ℕ → ℕ → AppendCall
set_send i c k call sends = update i (update c (update k call (sends i c)) (sends i)) sends

-- Node `i` itself, or a node that has accepted a request of its round.
abbrev pub has_stored : ℕ → (ℕ → AppendCall) → ℕ → Bool
has_stored i row m = m == i || is_accepted (row m)

module _ ⦃a : Archive⦄ (n : ℕ) where
  -- A step that is no part of a call for an append.
  abbrev pub IsElsewhere : {g h : Group} → GroupStep n g h → Type 0
  IsElsewhere (delivers i k c now args reply inside below sent e) = ⊥
  IsElsewhere (replies i k c args went reply inside sent) = ⊥
  IsElsewhere step = Unit {0}

  -- A task that never runs, and a call that fails, leave everything as it is.
  pub data ClusterStep (s : Cluster) : Cluster → Type 0 where
    elsewhere :
        {h : Group} (step : GroupStep n s.group h)
        → IsElsewhere step
        → ClusterStep s (record s { group = h })
    takes :
        (i k c now : ℕ) (args : AppendEntriesArgs) (reply : AppendEntriesReply) {q : Raft}
        → i < n
        → k < n
        → HasAppend k args c (s.group.nodes i).rpc_tasks
        → s.sends i c k ≡ unsent
        → append_entries now args (s.group.nodes k) ≡ some (reply, q)
        → ClusterStep s (record {
          group = record s.group { nodes = update k q s.group.nodes };
          sends = set_send i c k (taken args reply) s.sends;
        })
    comes_back :
        (i k c : ℕ) (args : AppendEntriesArgs) (reply : AppendEntriesReply)
        → i < n
        → s.sends i c k ≡ taken args reply
        → ClusterStep s (record {
          group = record s.group {
            nodes = update i (receive_append k args c true reply (s.group.nodes i)) s.group.nodes;
          };
          sends = set_send i c k (returned args reply) s.sends;
        })

  pub data ClusterReach : Cluster → Type 0 where
    sets_out :
        (s : Cluster)
        → IsInitial n s.group
        → ((i c k : ℕ) → s.sends i c k ≡ unsent)
        → ClusterReach s
    goes_on : {s t : Cluster} → ClusterReach s → ClusterStep s t → ClusterReach t
