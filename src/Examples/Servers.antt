-- ===== src/Examples/Servers.antt =====
-- A key-value server whose store is an association list.
use kvstorage_base_raft_cpp.Base.{
  ℕ, ◌≡◌, refl, true, none, some, List, [], ◌∷◌, arith, Bytes, bytes_eq, bytes_eq_instance, nat_eq,
  Map, find, assign, find-assign,
}
use kvstorage_base_raft_cpp.Message.{Op, ApplyMsg, empty_apply_msg}
use kvstorage_base_raft_cpp.Raft.{follower}
use kvstorage_base_raft_cpp.KvServer.{
  SkipList, IsSkipList, KvServer, put_op, get_command_from_raft, if_request_duplicate, carry_out,
  execute, execute_once, send_message_to_wait_chan,
}
use kvstorage_base_raft_cpp.KvServer.Retry.{retry_ignored}
use kvstorage_base_raft_cpp.KvServer.Replay.{view, replay, done, next, view-replay}
use kvstorage_base_raft_cpp.Raft.Log.{Inv}
use kvstorage_base_raft_cpp.KvServer.Startup.{start_server, start_server_lem}
use kvstorage_base_raft_cpp.Examples.Archives.{archive}
use kvstorage_base_raft_cpp.Examples.Nodes.{node, node-Inv}

abbrev pub Store : Type 0
Store = Map Bytes Bytes

instance abbrev pub store : SkipList Store
store = record {
  search_element = λ k s. find k s;
  insert_set_element = λ k v s. assign k v s;
  dump_file = λ s. [];
  load_file = λ text s. s;
}

pub store-IsSkipList : IsSkipList store
store-IsSkipList = record { search-insert_set = λ k j v s. find-assign k j v s }

abbrev pub put_seven : Op
put_seven = record {
  operation = put_op;
  key = 7 ∷ [];
  value = 8 ∷ [];
  client_id = 1 ∷ [];
  request_id = 1;
}

-- The queue of channel 0 waits at index 1 and holds the commands given.
abbrev server : List Op → KvServer Store
server ops = record {
  me = 0;
  max_raft_state = none;
  serialized_kv_data = [];
  skip_list = [];
  wait_apply_ch = (1, 0) ∷ [];
  channels = ops ∷ [];
  last_request_client_and_id = [];
  last_snap_shot_raft_log_index = none;
  raft_node = node follower;
}

abbrev message : ℕ → ApplyMsg
message index = record empty_apply_msg {
  command_valid = true;
  command = archive.save_op put_seven;
  command_index = some index;
}

abbrev after_put : KvServer Store
after_put = record (server []) {
  skip_list = (7 ∷ [], 8 ∷ []) ∷ [];
  channels = (put_seven ∷ []) ∷ [];
  last_request_client_and_id = (1 ∷ [], 1) ∷ [];
}

put_carried_out : get_command_from_raft (message 1) (server []) ≡ some after_put
unfolding get_command_from_raft carry_out execute_once execute if_request_duplicate
    send_message_to_wait_chan find assign bytes_eq
put_carried_out = refl

view-replay_example : view after_put ≡ replay (put_seven ∷ []) (view (server []))
view-replay_example =
    view-replay store-IsSkipList (node-Inv follower)
      (next (message 1) 1 after_put refl refl put_carried_out done)

-- The write once more, at index 2.
retry_ignored_example :
    (q : KvServer Store) × (get_command_from_raft (message 2) after_put ≡ some q)
    × (q.skip_list ≡ after_put.skip_list)
    × (q.last_request_client_and_id ≡ after_put.last_request_client_and_id)
unfolding bytes_eq
retry_ignored_example =
    retry_ignored put_seven (message 2) 2 (node-Inv follower)
      (next (message 1) 1 after_put refl refl put_carried_out done) refl refl (omega arith) refl
      refl

start_server_lem_example :
    (s : KvServer Store) × (start_server 5 0 none [] [] (1 ∷ 2 ∷ []) (3 ∷ []) ≡ some s)
    × Inv s.raft_node
    × (s.raft_node.logs ≡ [])
    × (s.skip_list ≡ [])
    × (s.last_request_client_and_id ≡ [])
start_server_lem_example = start_server_lem 5 0 none [] [] (1 ∷ 2 ∷ []) (3 ∷ [])
