-- ===== src/Examples/Leaders.antt =====
-- A concrete leader at work.
use kvstorage_base_raft_cpp.Base.{
  zero, suc, ◌≡◌, refl, true, none, some, List, [], ◌∷◌, ◌++◌, arith,
}
use kvstorage_base_raft_cpp.Message.{
  Op, ApplyMsg, AppendEntriesArgs, AppendEntriesReply, app_normal,
}
use kvstorage_base_raft_cpp.Raft.{Raft, Posted, leader, follower, last_info}
use kvstorage_base_raft_cpp.Raft.Log.{Inv}
use kvstorage_base_raft_cpp.Raft.Replication.{do_heart_beat, receive_append}
use kvstorage_base_raft_cpp.Raft.Replication.Commit.{CommitsBy, receive_append_commits}
use kvstorage_base_raft_cpp.Raft.Replication.Round.{Round, IsTracked, do_heart_beat_lem}
use kvstorage_base_raft_cpp.Raft.Apply.{get_apply_logs}
use kvstorage_base_raft_cpp.Raft.Apply.Order.{Commands, get_apply_logs_lem}
use kvstorage_base_raft_cpp.Examples.Archives.{archive}
use kvstorage_base_raft_cpp.Examples.Nodes.{node, node-Inv, entry}

abbrev put_command : Op
put_command = record {
  operation = [];
  key = 7 ∷ [];
  value = 8 ∷ [];
  client_id = 1 ∷ [];
  request_id = 1;
}

node-IsTracked : IsTracked (node leader)
node-IsTracked zero h = (4, refl, omega arith)
node-IsTracked (suc zero) h = (4, refl, omega arith)
node-IsTracked (suc (suc zero)) h = (2, refl, omega arith)
node-IsTracked (suc (suc (suc i))) h = absurd (omega arith)

do_heart_beat_lem_example :
    (new : List Posted) × (do_heart_beat 5 (node leader)
      ≡ some (record (node leader) {
        rpc_tasks = [] ++ new;
        counters = 1 ∷ 1 ∷ [];
        last_reset_heart_beat_time = 5;
      }))
    × Round (node leader) 5 1 3 0 new
do_heart_beat_lem_example = do_heart_beat_lem 5 (node leader) (node-Inv leader) node-IsTracked refl

abbrev sent : AppendEntriesArgs
sent = record {
  term = 2;
  leader_id = 0;
  prev_log_index = 2;
  prev_log_term = 1;
  entries = entry 2 3 ∷ [];
  leader_commit = 1;
}

abbrev success_reply : AppendEntriesReply
success_reply = record {
  term = 2;
  success = true;
  update_next_index = none;
  app_state = app_normal;
}

receive_append_commits_example :
    CommitsBy sent 0 true success_reply
      (node leader)
      (receive_append 1 sent 0 true success_reply (node leader))
unfolding receive_append last_info
receive_append_commits_example =
    receive_append_commits 1 sent 0 true success_reply (node leader) (omega arith)

-- Two entries are committed and not yet applied.
abbrev ready : Raft
ready = record (node follower) { commit_index = 3 }

ready-Inv : Inv ready
ready-Inv = record {
  consecutive = (refl, (refl, (refl, tt)));
  compacted = omega arith;
  applied = omega arith;
  committed = omega arith;
}

get_apply_logs_lem_example :
    (msgs : List ApplyMsg) × (get_apply_logs ready ≡ some (msgs, record ready { last_applied = 3 }))
    × Commands ready 2 1 msgs
get_apply_logs_lem_example = get_apply_logs_lem ready ready-Inv
