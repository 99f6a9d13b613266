-- ===== src/Examples/Snapshots.antt =====
-- Snapshots, and the state that is stored, on concrete nodes.
use kvstorage_base_raft_cpp.Base.{◌-◌, ◌≤◌, ◌≡◌, refl, some, [], ◌∷◌, ◌++◌, arith, drop, max}
use kvstorage_base_raft_cpp.Message.{InstallSnapshotRequest, InstallSnapshotResponse}
use kvstorage_base_raft_cpp.Persister.{save}
use kvstorage_base_raft_cpp.Raft.{
  Raft, leader, follower, get_last_log_index, get_log_term_from_log_index, last_info,
}
use kvstorage_base_raft_cpp.Raft.Progress.{Onward}
use kvstorage_base_raft_cpp.Raft.Store.{persist_data, read_persist, read_persist-persist_data}
use kvstorage_base_raft_cpp.Raft.Snapshot.{
  take_snapshot, install_snapshot, snapshot_msg, follow_snapshot,
}
use kvstorage_base_raft_cpp.Raft.Snapshot.Compact.{
  saved, take_snapshot_lem, take_snapshot-get_log_term,
}
use kvstorage_base_raft_cpp.Raft.Snapshot.Install.{install_snapshot_total, install_snapshot_newer}
use kvstorage_base_raft_cpp.Examples.Archives.{archive, archive-IsArchive}
use kvstorage_base_raft_cpp.Examples.Nodes.{node, node-Inv, entry}

take_snapshot_lem_example :
    (q : Raft) × (take_snapshot 1 (7 ∷ []) (node leader)
      ≡ some (saved 1 (7 ∷ []) (node leader) (node-Inv leader) q))
    × Onward (node leader) q
    × (q.last_snapshot_include_index ≡ 1)
take_snapshot_lem_example =
    take_snapshot_lem 1 (7 ∷ []) (node leader) (node-Inv leader) (omega arith) (omega arith)

-- The leader when it has cut its log at index 1.
abbrev cut_node : Raft
cut_node = record (node leader) {
  logs = entry 1 2 ∷ entry 2 3 ∷ [];
  last_snapshot_include_index = 1;
  last_snapshot_include_term = 1;
}

abbrev stored_node : Raft
stored_node = saved 1 (7 ∷ []) (node leader) (node-Inv leader) cut_node

take_snapshot-get_log_term_example :
    get_log_term_from_log_index stored_node 3 ≡ get_log_term_from_log_index (node leader) 3
unfolding take_snapshot get_last_log_index last_info
take_snapshot-get_log_term_example =
    take_snapshot-get_log_term 1 (7 ∷ []) (node leader) (node-Inv leader) stored_node 3
      (omega arith) (omega arith) refl (omega arith)

-- A leader of term 3 sends its snapshot up to index 2.
abbrev snapshot_sent : InstallSnapshotRequest
snapshot_sent = record {
  leader_id = 1;
  term = 3;
  last_snapshot_include_index = 2;
  last_snapshot_include_term = 1;
  snapshot = 7 ∷ [];
}

install_snapshot_total_example :
    (reply : InstallSnapshotResponse) × (q : Raft) × (install_snapshot 5 snapshot_sent
        (node follower)
      ≡ some (reply, q))
    × Onward (node follower) q
    × (2 ≤ q.current_term)
install_snapshot_total_example =
    install_snapshot_total 5 snapshot_sent (node follower) (node-Inv follower)

install_snapshot_newer_example :
    (q : Raft) × (install_snapshot 5 snapshot_sent (node follower) ≡ some (record { term = 3 }, q))
    × (q.last_snapshot_include_index ≡ 2)
    × (q.last_snapshot_include_term ≡ snapshot_sent.last_snapshot_include_term)
    × (q.current_term ≡ 3)
    × (q.status ≡ follower)
    × (q.persister
        ≡ save
            (persist_data q)
            snapshot_sent.snapshot
            (follow_snapshot 5 3 (node follower)).persister)
    × (q.logs ≡ drop (2 - 0) (node follower).logs)
    × (q.commit_index ≡ max 1 2)
    × (q.last_applied ≡ max 1 2)
    × (q.apply_chan ≡ [] ++ snapshot_msg snapshot_sent ∷ [])
install_snapshot_newer_example =
    install_snapshot_newer 5 snapshot_sent (node follower) (node-Inv follower) (omega arith)
      (omega arith)

read_persist-persist_data_example :
    read_persist (persist_data (node leader)) cut_node ≡ record cut_node {
      logs = (node leader).logs;
      last_snapshot_include_index = 0;
      last_snapshot_include_term = 0;
    }
unfolding persist_data
read_persist-persist_data_example =
    read_persist-persist_data archive archive-IsArchive (node leader) cut_node 2 _ refl
