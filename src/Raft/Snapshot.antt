-- ===== src/Raft/Snapshot.antt =====
-- Snapshots, raftCore/raft.cc: `Snapshot`, `InstallSnapshot`, `leaderSendSnapShot`,
-- `CondInstallSnapshot` and `GetRaftStateSize`.
pub mod Compact
pub mod Install
pub mod Send
pub mod Bystander
pub mod Origin
pub mod Channel
use kvstorage_base_raft_cpp.Base.{
  ℕ, zero, suc, ◌+◌, ◌-◌, Bool, true, not, ◌||◌, Option, none, some, List, [], ◌∷◌, ◌++◌, Bytes,
  ltb, leb, ◌==◌, if◌then◌else◌, ◌>>=◌, ℤ, pos, negsuc, set, length, drop, max,
}
use kvstorage_base_raft_cpp.Message.{
  LogEntry, InstallSnapshotRequest, InstallSnapshotResponse, ApplyMsg, empty_apply_msg,
}
use kvstorage_base_raft_cpp.Archive.{Archive}
use kvstorage_base_raft_cpp.Persister.{save, read_snapshot}
use kvstorage_base_raft_cpp.Raft.{
  Raft, follower, is_leader, get_last_log_index, get_slices_index_from_log_index, log_at,
}
use kvstorage_base_raft_cpp.Raft.Store.{persist, persist_data}
use kvstorage_base_raft_cpp.Raft.Election.{step_down}

-- `Raft::CondInstallSnapshot`.
abbrev pub cond_install_snapshot : Bytes → Bool
cond_install_snapshot snapshot = true

-- `Raft::GetRaftStateSize`.
abbrev pub get_raft_state_size : Raft → ℕ
get_raft_state_size r = r.persister.raft_state_size

-- The loop `for (i = …; i <= getLastLogIndex(); i++)` of `Snapshot`, with the rounds that are left.
pub truncked_logs : Raft → ℕ → ℕ → Option (List LogEntry)
truncked_logs r zero i = some []
truncked_logs r (suc n) i = log_at r.logs (get_slices_index_from_log_index r i) >>= λ log.
    truncked_logs r n (i + 1) >>= λ logs. some (log ∷ logs)

-- The log without the entries up to `new_log_index`.
pub compact : ℕ → Raft → Option Raft
unfolding truncked_logs
compact new_log_index r = log_at r.logs (get_slices_index_from_log_index r new_log_index) >>= λ log.
    truncked_logs r (get_last_log_index r - new_log_index) (new_log_index + 1) >>= λ logs.
    some (record r {
      last_snapshot_include_index = new_log_index;
      last_snapshot_include_term = log.log_term;
      logs = logs;
      commit_index = max r.commit_index new_log_index;
      last_applied = max r.last_applied new_log_index;
    })

-- `m_logs.erase(m_logs.begin(), m_logs.begin() + i + 1)`.
abbrev pub erase_through : List LogEntry → ℤ → Option (List LogEntry)
erase_through logs (pos i) = if leb (suc i) (length logs) then some (drop (suc i) logs) else none
erase_through logs (negsuc zero) = some logs
erase_through logs (negsuc (suc _)) = none

-- The log behind a snapshot that the leader has sent.
pub logs_behind : InstallSnapshotRequest → Raft → Option (List LogEntry)
logs_behind args r =
    if ltb args.last_snapshot_include_index (get_last_log_index r)
    then erase_through r.logs (get_slices_index_from_log_index r args.last_snapshot_include_index)
    else some []

abbrev pub snapshot_msg : InstallSnapshotRequest → ApplyMsg
snapshot_msg args = record empty_apply_msg {
  snapshot_valid = true;
  snapshot = args.snapshot;
  snapshot_term = some args.last_snapshot_include_term;
  snapshot_index = some args.last_snapshot_include_index;
}

pub adopt_snapshot : InstallSnapshotRequest → List LogEntry → Raft → Raft
adopt_snapshot args logs r = record r {
  logs = logs;
  commit_index = max r.commit_index args.last_snapshot_include_index;
  last_applied = max r.last_applied args.last_snapshot_include_index;
  last_snapshot_include_index = args.last_snapshot_include_index;
  last_snapshot_include_term = args.last_snapshot_include_term;
  apply_chan = r.apply_chan ++ snapshot_msg args ∷ [];
}

module _ ⦃a : Archive⦄ where
  -- `Raft::Snapshot`: the key-value server hands over a snapshot of what it has applied up to
  -- `new_log_index`.
  unfoldable pub take_snapshot : ℕ → Bytes → Raft → Option Raft
  unfolding compact
  take_snapshot new_log_index snapshot r =
      if leb new_log_index r.last_snapshot_include_index || ltb r.commit_index new_log_index
      then some r
      else (compact new_log_index r >>= λ q.
          some (record q { persister = save (persist_data q) snapshot q.persister }))

  -- The node at the term of a request that is not behind.
  pub follow_snapshot : ℕ → ℕ → Raft → Raft
  follow_snapshot now term r =
      record (if ltb r.current_term term then persist (step_down term r) else r) {
        status = follower;
        last_reset_election_time = now;
      }

  pub adopt : InstallSnapshotRequest → Raft → Option (InstallSnapshotResponse × Raft)
  unfolding logs_behind adopt_snapshot
  adopt args r =
      if leb args.last_snapshot_include_index r.last_snapshot_include_index
      then some (record { term = 0 }, r)
      else (logs_behind args r >>= λ logs.
          let q = adopt_snapshot args logs r in
          some (
            record { term = q.current_term },
            record q { persister = save (persist_data q) args.snapshot q.persister },
          ))

  -- `Raft::InstallSnapshot` at time `now`. The term of the reply is not set, so is 0, if the
  -- snapshot is not newer than the node's.
  unfoldable pub install_snapshot :
      ℕ → InstallSnapshotRequest → Raft → Option (InstallSnapshotResponse × Raft)
  unfolding follow_snapshot adopt
  install_snapshot now args r =
      if ltb args.term r.current_term
      then some (record { term = r.current_term }, r)
      else adopt args (follow_snapshot now args.term r)

  -- `Raft::leaderSendSnapShot` up to the call: reading the snapshot changes the persister.
  unfoldable pub snapshot_request : Raft → InstallSnapshotRequest × Raft
  snapshot_request r =
      let (snapshot, p) = read_snapshot r.persister in
      (
        record {
          leader_id = r.me;
          term = r.current_term;
          last_snapshot_include_index = r.last_snapshot_include_index;
          last_snapshot_include_term = r.last_snapshot_include_term;
          snapshot = snapshot;
        },
        record r { persister = p },
      )

  -- The rest of it, once the call has returned.
  unfoldable pub receive_snapshot :
      ℕ → ℕ → InstallSnapshotRequest → Bool → InstallSnapshotResponse → Raft → Raft
  receive_snapshot now server args ok reply r =
      if not ok
      then r
      else if not (is_leader r.status) || not (r.current_term == args.term)
      then r
      else if ltb r.current_term reply.term
      then record (persist (step_down reply.term r)) { last_reset_election_time = now }
      else record r {
        match_index = set r.match_index server args.last_snapshot_include_index;
        next_index = set r.next_index server (args.last_snapshot_include_index + 1);
      }
