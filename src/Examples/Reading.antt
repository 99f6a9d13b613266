-- ===== src/Examples/Reading.antt =====
-- A server carries out a write and then a read of the same client, and answers the read.
use kvstorage_base_raft_cpp.Base.{
  ℕ, ◌≡◌, refl, true, false, none, some, [], ◌∷◌, arith, bytes_eq, bytes_eq_instance, nat_eq, find,
  assign,
}
use kvstorage_base_raft_cpp.Message.{Op, ApplyMsg, empty_apply_msg}
use kvstorage_base_raft_cpp.Raft.{follower}
use kvstorage_base_raft_cpp.KvServer.{
  KvServer, ok, get_op, put_op, get_command_from_raft, if_request_duplicate, carry_out, execute,
  execute_once, send_message_to_wait_chan,
}
use kvstorage_base_raft_cpp.KvServer.Client.{finish_get}
use kvstorage_base_raft_cpp.KvServer.Replay.{CarriesOut, done, next}
use kvstorage_base_raft_cpp.KvServer.Reading.{get-after-put, finish_get-forgets}
use kvstorage_base_raft_cpp.Examples.Archives.{archive}
use kvstorage_base_raft_cpp.Examples.Nodes.{node, node-Inv}
use kvstorage_base_raft_cpp.Examples.Servers.{Store, store, store-IsSkipList}

abbrev writes : Op
writes = record {
  operation = put_op;
  key = 7 ∷ [];
  value = 8 ∷ [];
  client_id = 1 ∷ [];
  request_id = 1;
}

abbrev reads : Op
reads = record { operation = get_op; key = 7 ∷ []; value = []; client_id = 1 ∷ []; request_id = 2 }

-- Queues wait at the indices 1 and 2.
abbrev waiting : KvServer Store
waiting = record {
  me = 0;
  max_raft_state = none;
  serialized_kv_data = [];
  skip_list = [];
  wait_apply_ch = (1, 0) ∷ (2, 1) ∷ [];
  channels = [] ∷ [] ∷ [];
  last_request_client_and_id = [];
  last_snap_shot_raft_log_index = none;
  raft_node = node follower;
}

abbrev written : KvServer Store
written = record waiting {
  skip_list = (7 ∷ [], 8 ∷ []) ∷ [];
  channels = (writes ∷ []) ∷ [] ∷ [];
  last_request_client_and_id = (1 ∷ [], 1) ∷ [];
}

abbrev read : KvServer Store
read = record written { channels = (writes ∷ []) ∷ (reads ∷ []) ∷ [] }

abbrev message : Op → ℕ → ApplyMsg
message op index = record empty_apply_msg {
  command_valid = true;
  command = archive.save_op op;
  command_index = some index;
}

run : CarriesOut waiting (writes ∷ reads ∷ []) read
unfolding get_command_from_raft carry_out execute_once execute if_request_duplicate
    send_message_to_wait_chan find assign bytes_eq
run =
    next (message writes 1) 1 written refl refl refl
      (next (message reads 2) 2 read refl refl refl done)

get-after-put_example : (finish_get reads 2 1 read).0 ≡ record { err = ok; value = 8 ∷ [] }
unfolding finish_get bytes_eq find if_request_duplicate
get-after-put_example =
    get-after-put writes reads 2 1 store-IsSkipList (node-Inv follower) run refl refl (refl, tt)
      refl (λ e. cc)

-- The client's request 3 was carried out when the read, of number 2, is answered.
abbrev further : KvServer Store
further = record read { last_request_client_and_id = (1 ∷ [], 3) ∷ [] }

finish_get-forgets_example :
    if_request_duplicate (1 ∷ []) 3 (finish_get reads 2 1 further).1 ≡ false
unfolding finish_get bytes_eq find
finish_get-forgets_example =
    finish_get-forgets reads (record writes { request_id = 3 }) 2 1 further (λ e. cc) refl
      (omega arith)
