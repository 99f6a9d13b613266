-- ===== src/Raft/Node/Steps.antt =====
-- The handlers of a node as steps, in any order: each runs under the node's mutex. What arrives
-- over the network and from the key-value server is free but for the premises.
use kvstorage_base_raft_cpp.Base.{ℕ, ◌+◌, ◌≤◌, ◌≡◌, Bool, some, [], length, Bytes}
use kvstorage_base_raft_cpp.Message.{
  AppendEntriesArgs, AppendEntriesReply, RequestVoteArgs, RequestVoteReply, InstallSnapshotRequest,
  InstallSnapshotResponse, Op,
}
use kvstorage_base_raft_cpp.Archive.{Archive}
use kvstorage_base_raft_cpp.Raft.{Raft}
use kvstorage_base_raft_cpp.Raft.Election.{request_vote, receive_vote, election_time_out}
use kvstorage_base_raft_cpp.Raft.Replication.{append_entries, receive_append, heart_beat_time_out}
use kvstorage_base_raft_cpp.Raft.Replication.Safety.{IsWellFormed}
use kvstorage_base_raft_cpp.Raft.Snapshot.{
  take_snapshot, install_snapshot, snapshot_request, receive_snapshot,
}
use kvstorage_base_raft_cpp.Raft.Apply.{applier_tick, push_message}
use kvstorage_base_raft_cpp.Raft.Node.{start}

-- One handler runs. A heart beat that was posted is the last time out with `wake` at its start.
pub data Step ⦃a : Archive⦄ (r q : Raft) : Type 0 where
  votes : (now : ℕ) (args : RequestVoteArgs) → q ≡ (request_vote now args r).1 → Step r q
  vote_arrives :
      (now c : ℕ) (ok : Bool) (reply : RequestVoteReply)
      → q ≡ receive_vote now c ok reply r
      → Step r q
  election_timer : (wake now : ℕ) → q ≡ election_time_out wake now r → Step r q
  appends :
      (now : ℕ) (args : AppendEntriesArgs) (reply : AppendEntriesReply)
      → IsWellFormed args
      → append_entries now args r ≡ some (reply, q)
      → Step r q
  append_arrives :
      (server : ℕ) (args : AppendEntriesArgs) (c : ℕ) (ok : Bool) (reply : AppendEntriesReply)
      → args.prev_log_index + length args.entries ≤ r.last_snapshot_include_index + length r.logs
      → q ≡ receive_append server args c ok reply r
      → Step r q
  heart_beat_timer : (wake now : ℕ) → heart_beat_time_out wake now r ≡ some q → Step r q
  installs :
      (now : ℕ) (args : InstallSnapshotRequest) (reply : InstallSnapshotResponse)
      → install_snapshot now args r ≡ some (reply, q)
      → Step r q
  sends_snapshot : q ≡ (snapshot_request r).1 → Step r q
  snapshot_arrives :
      (now server : ℕ) (args : InstallSnapshotRequest) (ok : Bool) (reply : InstallSnapshotResponse)
      → q ≡ receive_snapshot now server args ok reply r
      → Step r q
  compacts : (i : ℕ) (snapshot : Bytes) → take_snapshot i snapshot r ≡ some q → Step r q
  applies : r.apply_msgs ≡ [] → applier_tick r ≡ some q → Step r q
  pushes : q ≡ push_message r → Step r q
  starts : (command : Op) → q ≡ (start command r).1 → Step r q

pub data Reach ⦃a : Archive⦄ (r : Raft) : Raft → Type 0 where
  here : Reach r r
  next : {q s : Raft} → Reach r q → Step q s → Reach r s
