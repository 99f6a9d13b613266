-- ===== src/Examples/Systems.antt =====
-- Three nodes and their servers: a client's write goes to the leader's log and to node 2, is
-- committed, carried out and answered.
use kvstorage_base_raft_cpp.Base.{
  none, some, inl, inr, refl, true, arith, [], ◌∷◌, update, bytes_eq, bytes_eq_instance, nat_eq,
  find, assign,
}
use kvstorage_base_raft_cpp.Message.{ApplyMsg, AppendEntriesArgs, AppendEntriesReply, app_normal}
use kvstorage_base_raft_cpp.Persister.{create, read_raft_state}
use kvstorage_base_raft_cpp.Raft.{
  Raft, last_info, up_to_date, commit_with_timeout, get_last_log_index, get_prev_log_info,
  match_log, get_new_command_index,
}
use kvstorage_base_raft_cpp.Raft.Store.{persist, read_persist}
use kvstorage_base_raft_cpp.Raft.Election.{
  request_vote, receive_vote, election_time_out, do_election,
}
use kvstorage_base_raft_cpp.Raft.Node.{init, start}
use kvstorage_base_raft_cpp.Raft.Replication.{heart_beat_time_out, append_entries, receive_append}
use kvstorage_base_raft_cpp.Raft.Apply.{applier_tick, push_message, command_msg}
use kvstorage_base_raft_cpp.Raft.Node.Steps.{heart_beat_timer, applies, pushes}
use kvstorage_base_raft_cpp.Raft.Group.{elects, serves, returns, moves, delivers, replies}
use kvstorage_base_raft_cpp.KvServer.{
  KvServer, read_raft_apply_command, carry_out, execute_once, execute, if_request_duplicate,
  send_message_to_wait_chan,
}
use kvstorage_base_raft_cpp.KvServer.Client.{start_request, register_wait, finish_put_append}
use kvstorage_base_raft_cpp.KvServer.Handed.{Among, IsHanded, commands_of}
use kvstorage_base_raft_cpp.System.{
  System, Runs, boots, goes_on, asks, registers, reads, server_at, set_server,
}
use kvstorage_base_raft_cpp.System.Requested.{handed-Among}
use kvstorage_base_raft_cpp.System.Answered.{answered-IsHanded}
use kvstorage_base_raft_cpp.Examples.Archives.{archive, archive-IsArchive}
use kvstorage_base_raft_cpp.Examples.Groups.{starting, after_election, ballot, vote_of_one}
use kvstorage_base_raft_cpp.Examples.Servers.{Store, store, put_seven}

abbrev new_server : KvServer Store
new_server = record {
  me = 0;
  max_raft_state = none;
  serialized_kv_data = [];
  skip_list = [];
  wait_apply_ch = [];
  channels = [];
  last_request_client_and_id = [];
  last_snap_shot_raft_log_index = some 0;
  raft_node = starting.nodes 0;
}

abbrev booted : System Store
booted = record {
  group = starting;
  servers = λ i. new_server;
  read = λ i. [];
  started = λ i. [];
  waiting = λ i. [];
}

abbrev elected : System Store
elected = record booted { group = after_election }

-- The leader's server is asked for the write: the command goes to the log at index 1.
abbrev started_once : System Store
started_once = record (set_server 0 (start_request put_seven (server_at 0 elected)).1 elected) {
  started = update 0 ((put_seven, 1) ∷ []) (λ i. []);
}

abbrev asked_once : System Store
asked_once = record (set_server 0 (register_wait 1 (server_at 0 started_once)).1 started_once) {
  started = update 0 [] started_once.started;
  waiting = update 0 ((put_seven, 1, 0) ∷ []) (λ i. []);
}

abbrev beating : Raft
beating = elim (heart_beat_time_out 430 430 (asked_once.group.nodes 0)) [
  | none ↦ asked_once.group.nodes 0
  | some q ↦ q
]

abbrev beat : AppendEntriesArgs
beat = record {
  term = 1;
  leader_id = 0;
  prev_log_index = 0;
  prev_log_term = 0;
  entries = record { command = archive.save_op put_seven; log_term = 1; log_index = 1 } ∷ [];
  leader_commit = 0;
}

abbrev accepted : AppendEntriesReply
accepted = record { term = 1; success = true; update_next_index = some 0; app_state = app_normal }

abbrev taker : Raft
taker = elim (append_entries 440 beat (asked_once.group.nodes 2)) [
  | none ↦ asked_once.group.nodes 2
  | some (reply, q) ↦ q
]

-- The leader has committed the write, and hands it on.
abbrev committed : Raft
committed = receive_append 2 beat 1 true accepted beating

abbrev holding : Raft
holding = elim (applier_tick committed) [ none ↦ committed | some q ↦ q ]

abbrev handing : Raft
handing = push_message holding

abbrev handed_on : System Store
handed_on = record asked_once {
  group = record asked_once.group {
    nodes = update 0 handing (
        update 0 holding
          (update 0 committed (update 2 taker (update 0 beating asked_once.group.nodes))));
  };
}

run_to_election : Runs 3 [] elected
unfolding init election_time_out do_election last_info request_vote up_to_date read_persist
    read_raft_state create persist commit_with_timeout
run_to_election =
    goes_on
      (goes_on
        (goes_on
          (boots booted (record { begun = λ i h. (0, [], [], [], refl); silent = λ i c k. refl })
            (λ i h. (refl, refl, refl, refl, refl, refl)))
          (elects 0 300 400 (omega arith) refl refl) tt)
        (serves 0 0 1 410 ballot (omega arith) refl) tt)
      (returns 0 0 1 420 ballot vote_of_one (omega arith) refl) tt

run_to_handing : Runs 3 (put_seven ∷ []) handed_on
unfolding start get_new_command_index heart_beat_time_out receive_vote election_time_out init
    read_persist read_raft_state create persist commit_with_timeout request_vote up_to_date
    last_info get_last_log_index get_prev_log_info append_entries match_log start_request
    register_wait receive_append applier_tick push_message find assign
run_to_handing =
    goes_on
      (goes_on
        (goes_on
          (goes_on
            (goes_on
              (registers 0 0 put_seven 1 (omega arith) refl
                (asks 0 put_seven (omega arith) run_to_election))
              (moves 0 {q = beating} (omega arith) (heart_beat_timer 430 430 refl) tt) tt)
            (delivers 0 2 1 440 beat accepted {q = taker} (omega arith) (omega arith)
              (inr (inr (inr (inr (inl refl))))) refl)
            tt)
          (replies 0 2 1 beat true accepted (omega arith) (inr (inr (inr (inr (inl refl)))))) tt)
        (moves 0 {q = holding} (omega arith) (applies refl refl) tt) tt)
      (moves 0 {q = handing} (omega arith) (pushes refl) tt) tt

abbrev message : ApplyMsg
message =
    command_msg 1 (record { command = archive.save_op put_seven; log_term = 1; log_index = 1 })

abbrev carried : KvServer Store
carried = elim (read_raft_apply_command message (server_at 0 handed_on)) [
  | none ↦ server_at 0 handed_on
  | some q ↦ q
]

abbrev done : System Store
done = record (set_server 0 carried handed_on) { read = update 0 (message ∷ []) handed_on.read }

run_to_done : Runs 3 (put_seven ∷ []) done
unfolding start get_new_command_index heart_beat_time_out receive_vote election_time_out init
    read_persist read_raft_state create persist commit_with_timeout request_vote up_to_date
    last_info get_last_log_index get_prev_log_info append_entries match_log start_request
    register_wait receive_append applier_tick push_message find assign read_raft_apply_command
    carry_out execute_once execute if_request_duplicate send_message_to_wait_chan bytes_eq
run_to_done = reads 0 message carried (omega arith) refl refl run_to_handing

answered-IsHanded_example : IsHanded (commands_of (done.read 0)) (1 ∷ []) 1
unfolding start get_new_command_index heart_beat_time_out receive_vote election_time_out init
    read_persist read_raft_state create persist commit_with_timeout request_vote up_to_date
    last_info get_last_log_index get_prev_log_info append_entries match_log start_request
    register_wait receive_append applier_tick push_message find assign read_raft_apply_command
    carry_out execute_once execute if_request_duplicate send_message_to_wait_chan bytes_eq
    finish_put_append
answered-IsHanded_example = answered-IsHanded 0 put_seven 1 0 run_to_done (omega arith) (inr refl)

handed-Among_example : Among put_seven (put_seven ∷ [])
unfolding start get_new_command_index heart_beat_time_out receive_vote election_time_out init
    read_persist read_raft_state create persist commit_with_timeout request_vote up_to_date
    last_info get_last_log_index get_prev_log_info append_entries match_log start_request
    register_wait receive_append applier_tick push_message find assign
handed-Among_example =
    handed-Among 0 0 message archive-IsArchive run_to_handing (omega arith) refl refl
