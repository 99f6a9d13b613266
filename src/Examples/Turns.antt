-- ===== src/Examples/Turns.antt =====
-- The turns of a cluster as functions, for runs that are written out.
use kvstorage_base_raft_cpp.Base.{ℕ, Option, none, some, true, [], ◌∷◌, update, length}
use kvstorage_base_raft_cpp.Message.{
  LogEntry, Op, RequestVoteArgs, RequestVoteReply, AppendEntriesArgs, AppendEntriesReply,
  app_normal, normal,
}
use kvstorage_base_raft_cpp.Raft.{Raft}
use kvstorage_base_raft_cpp.Raft.Election.{request_vote, receive_vote, election_time_out}
use kvstorage_base_raft_cpp.Raft.Node.{start}
use kvstorage_base_raft_cpp.Raft.Replication.{heart_beat_time_out, append_entries, receive_append}
use kvstorage_base_raft_cpp.Raft.Group.{answered, closed, set_row, calls_of, new_tasks}
use kvstorage_base_raft_cpp.Raft.Group.Cluster.{taken, returned, Cluster, set_send}
use kvstorage_base_raft_cpp.Examples.Archives.{archive}

-- The steps, as functions on groups and clusters.
abbrev pub elect : ℕ → ℕ → Cluster → Cluster
elect i now s =
    let q = election_time_out now now (s.group.nodes i) in
    let c = length (s.group.nodes i).counters in
    record s {
      group = record {
        nodes = update i q s.group.nodes;
        calls = set_row i c (calls_of c (new_tasks (s.group.nodes i) q)) s.group.calls;
      };
    }

abbrev pub serve : ℕ → ℕ → ℕ → ℕ → RequestVoteArgs → Cluster → Cluster
serve i c k now args s = record s {
  group = record {
    nodes = update k (request_vote now args (s.group.nodes k)).1 s.group.nodes;
    calls =
        set_row i c
          (update k (answered args (request_vote now args (s.group.nodes k)).0) (s.group.calls i c))
          s.group.calls;
  };
}

abbrev pub return : ℕ → ℕ → ℕ → ℕ → RequestVoteReply → Cluster → Cluster
return i c k now reply s = record s {
  group = record {
    nodes = update i (receive_vote now c true reply (s.group.nodes i)) s.group.nodes;
    calls = set_row i c (update k closed (s.group.calls i c)) s.group.calls;
  };
}

abbrev pub granted : ℕ → RequestVoteReply
granted term = record { term = term; vote_granted = true; vote_state = normal }

abbrev pub put : ℕ → Op
put value = record { operation = []; key = []; value = value ∷ []; client_id = []; request_id = 0 }

abbrev pub entry : ℕ → ℕ → ℕ → LogEntry
entry value term index = record {
  command = archive.save_op (put value);
  log_term = term;
  log_index = index;
}

abbrev pub command : ℕ → ℕ → Cluster → Cluster
command i value s = record s {
  group = record s.group { nodes = update i (start (put value) (s.group.nodes i)).1 s.group.nodes };
}

abbrev pub or_else : Raft → Option Raft → Raft
or_else r none = r
or_else r (some q) = q

abbrev pub state_of : Raft → Option (AppendEntriesReply × Raft) → Raft
state_of r none = r
state_of r (some (reply, q)) = q

abbrev pub beat : ℕ → ℕ → Cluster → Cluster
beat i now s = record s {
  group = record s.group {
    nodes =
        update i (or_else (s.group.nodes i) (heart_beat_time_out now now (s.group.nodes i)))
          s.group.nodes;
  };
}

abbrev pub take : ℕ → ℕ → ℕ → ℕ → AppendEntriesArgs → AppendEntriesReply → Cluster → Cluster
take i k c now args reply s = record {
  group = record s.group {
    nodes =
        update k (state_of (s.group.nodes k) (append_entries now args (s.group.nodes k)))
          s.group.nodes;
  };
  sends = set_send i c k (taken args reply) s.sends;
}

abbrev pub come_back : ℕ → ℕ → ℕ → AppendEntriesArgs → AppendEntriesReply → Cluster → Cluster
come_back i k c args reply s = record {
  group = record s.group {
    nodes = update i (receive_append k args c true reply (s.group.nodes i)) s.group.nodes;
  };
  sends = set_send i c k (returned args reply) s.sends;
}

abbrev pub accepted : ℕ → AppendEntriesReply
accepted term = record {
  term = term;
  success = true;
  update_next_index = some 0;
  app_state = app_normal;
}
