-- ===== src/Examples/Logs.antt =====
-- `AppendEntries` on concrete logs.
use kvstorage_base_raft_cpp.Base.{ℕ, ◌+◌, ◌≡◌, refl, none, some, List, [], ◌∷◌, arith}
use kvstorage_base_raft_cpp.Message.{LogEntry, AppendEntriesArgs, AppendEntriesReply}
use kvstorage_base_raft_cpp.Raft.{Raft, follower, get_log_term_from_log_index}
use kvstorage_base_raft_cpp.Raft.Log.{Inv}
use kvstorage_base_raft_cpp.Raft.Replication.{append_entries}
use kvstorage_base_raft_cpp.Raft.Replication.Entries.{Puts, AllHold}
use kvstorage_base_raft_cpp.Raft.Replication.Follower.{accepting}
use kvstorage_base_raft_cpp.Raft.Replication.Safety.{
  after_accept, append_entries_accepts, append_entries_before_snapshot, Answer,
  append_entries-Answer,
}
use kvstorage_base_raft_cpp.Examples.Archives.{archive}
use kvstorage_base_raft_cpp.Examples.Nodes.{node, node-Inv, entry}

-- A leader of term 3 sends its entry of index 3, after the entry of index 2 and the term given.
abbrev request : ℕ → ℕ → AppendEntriesArgs
request index term = record {
  term = 3;
  leader_id = 1;
  prev_log_index = index;
  prev_log_term = term;
  entries = entry 3 (index + 1) ∷ [];
  leader_commit = 2;
}

append_entries_accepts_example :
    (new : List LogEntry) × (append_entries 5 (request 2 1) (node follower)
      ≡ some (accepting 3, after_accept 5 (request 2 1) (node follower) new))
    × Puts 0 2 3 (node follower).logs new
    × AllHold 0 (node follower).logs new (entry 3 3 ∷ [])
unfolding get_log_term_from_log_index
append_entries_accepts_example =
    append_entries_accepts 5 (request 2 1) (node follower) (node-Inv follower) (refl, tt)
      (omega arith) (omega arith) (omega arith) refl

append_entries-Answer_example :
    (reply : AppendEntriesReply) × (q : Raft) × (append_entries 5 (request 2 1) (node follower)
      ≡ some (reply, q))
    × Answer 5 (request 2 1) (node follower) (node-Inv follower) reply q
append_entries-Answer_example =
    append_entries-Answer 5 (request 2 1) (node follower) (node-Inv follower) (refl, tt)
      (λ term. omega arith)

-- A node that has a snapshot up to index 2.
abbrev compacted_node : Raft
compacted_node = record (node follower) {
  logs = entry 2 3 ∷ [];
  commit_index = 2;
  last_applied = 2;
  last_snapshot_include_index = 2;
  last_snapshot_include_term = 1;
}

compacted_node-Inv : Inv compacted_node
compacted_node-Inv = record {
  consecutive = (refl, tt);
  compacted = omega arith;
  applied = omega arith;
  committed = omega arith;
}

append_entries_before_snapshot_example : append_entries 5 (request 1 1) compacted_node ≡ none
append_entries_before_snapshot_example =
    append_entries_before_snapshot 5 (request 1 1) compacted_node compacted_node-Inv (omega arith)
      (omega arith)
