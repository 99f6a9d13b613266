-- ===== src/Examples/Nodes.antt =====
-- Nodes of a group of three.
use kvstorage_base_raft_cpp.Base.{ℕ, refl, true, none, [], ◌∷◌, arith}
use kvstorage_base_raft_cpp.Message.{LogEntry}
use kvstorage_base_raft_cpp.Persister.{Persister}
use kvstorage_base_raft_cpp.Raft.{Raft, Status}
use kvstorage_base_raft_cpp.Raft.Log.{Inv}

abbrev pub entry : ℕ → ℕ → LogEntry
entry term index = record { command = 99 ∷ []; log_term = term; log_index = index }

abbrev pub no_files : Persister
no_files = record {
  raft_state_out_stream = record { is_open = true; buffer = []; file = [] };
  snapshot_out_stream = record { is_open = true; buffer = []; file = [] };
  raft_state_size = 0;
}

-- A node of term 2 with its status and vote. Its log has three entries, of which one is committed
-- and applied.
abbrev pub node : Status → Raft
node status = record {
  peers = 3;
  persister = no_files;
  me = 0;
  current_term = 2;
  voted_for = none;
  logs = entry 1 1 ∷ entry 1 2 ∷ entry 2 3 ∷ [];
  commit_index = 1;
  last_applied = 1;
  next_index = 4 ∷ 4 ∷ 2 ∷ [];
  match_index = 0 ∷ 0 ∷ 0 ∷ [];
  status = status;
  apply_chan = [];
  apply_msgs = [];
  last_reset_election_time = 0;
  last_reset_heart_beat_time = 0;
  last_snapshot_include_index = 0;
  last_snapshot_include_term = 0;
  rpc_tasks = [];
  counters = 1 ∷ [];
}

pub node-Inv : (status : Status) → Inv (node status)
node-Inv status = record {
  consecutive = (refl, (refl, (refl, tt)));
  compacted = omega arith;
  applied = omega arith;
  committed = omega arith;
}
