-- ===== src/Raft/Node.antt =====
-- `init` and `Start` of raftCore/raft.cc, and the handlers of a node as steps.
pub mod Steps
pub mod Frame
pub mod Origin
pub mod Channel
pub mod Safety
pub mod Quorum
use kvstorage_base_raft_cpp.Base.{
  ℕ, not, Option, none, some, List, [], ◌∷◌, ◌++◌, ltb, replicate, if◌then◌else◌,
}
use kvstorage_base_raft_cpp.Message.{LogEntry, Op, ApplyMsg}
use kvstorage_base_raft_cpp.Archive.{Archive}
use kvstorage_base_raft_cpp.Persister.{Persister, read_raft_state}
use kvstorage_base_raft_cpp.Raft.{Raft, follower, is_leader, get_new_command_index}
use kvstorage_base_raft_cpp.Raft.Store.{persist, read_persist}

module _ ⦃a : Archive⦄ where
  -- The entry that `Start` appends.
  abbrev pub new_entry : Op → Raft → LogEntry
  new_entry command r = record {
    command = a.save_op command;
    log_term = r.current_term;
    log_index = get_new_command_index r;
  }

  -- `Raft::Start`: index and term of the new entry, or `none` if the node is not the leader.
  unfoldable pub start : Op → Raft → Option (ℕ × ℕ) × Raft
  start command r =
      if not (is_leader r.status)
      then (none, r)
      else let log = new_entry command r in
        (some (log.log_index, log.log_term), persist (record r { logs = r.logs ++ log ∷ [] }))

  -- The state that `init` sets up before it reads what was stored. `Raft::init` starts the tickers
  -- when it is done; they are the timer steps.
  pub fresh_node : ℕ → ℕ → ℕ → Persister → List ApplyMsg → Raft
  fresh_node now peers me persister chan = record {
    peers = peers;
    persister = persister;
    me = me;
    current_term = 0;
    voted_for = none;
    logs = [];
    commit_index = 0;
    last_applied = 0;
    next_index = replicate peers 0;
    match_index = replicate peers 0;
    status = follower;
    apply_chan = chan;
    apply_msgs = [];
    last_reset_election_time = now;
    last_reset_heart_beat_time = now;
    last_snapshot_include_index = 0;
    last_snapshot_include_term = 0;
    rpc_tasks = [];
    counters = [];
  }

  -- `Raft::init` at time `now`.
  unfoldable pub init : ℕ → ℕ → ℕ → Persister → List ApplyMsg → Raft
  unfolding fresh_node
  init now peers me persister chan =
      let r = read_persist (read_raft_state persister) (fresh_node now peers me persister chan) in
      if ltb 0 r.last_snapshot_include_index
      then record r { last_applied = r.last_snapshot_include_index }
      else r
