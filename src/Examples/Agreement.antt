-- ===== src/Examples/Agreement.antt =====
-- The leader of three nodes takes a command, and its heart beat brings the command to node 2.
use kvstorage_base_raft_cpp.Base.{
  none, some, inl, inr, ◌≡◌, refl, true, arith, [], ◌∷◌, update, suc, ◌<◌, ◌-◌, get_elem?,
}
use kvstorage_base_raft_cpp.Message.{
  LogEntry, Op, AppendEntriesArgs, AppendEntriesReply, app_normal,
}
use kvstorage_base_raft_cpp.Persister.{create, read_raft_state}
use kvstorage_base_raft_cpp.Raft.{
  Raft, last_info, up_to_date, commit_with_timeout, get_last_log_index, get_prev_log_info,
  match_log, get_new_command_index,
}
use kvstorage_base_raft_cpp.Raft.Store.{persist, read_persist}
use kvstorage_base_raft_cpp.Raft.Election.{request_vote, receive_vote, election_time_out}
use kvstorage_base_raft_cpp.Raft.Node.{init, start}
use kvstorage_base_raft_cpp.Raft.Node.Frame.{entry_for}
use kvstorage_base_raft_cpp.Raft.Replication.{heart_beat_time_out, append_entries}
use kvstorage_base_raft_cpp.Raft.Node.Steps.{heart_beat_timer, starts}
use kvstorage_base_raft_cpp.Raft.Group.{Group, GroupReach, later, moves, delivers}
use kvstorage_base_raft_cpp.Raft.Group.Agreement.{entries_agree, accepted_stored}
use kvstorage_base_raft_cpp.Examples.Archives.{archive}
use kvstorage_base_raft_cpp.Examples.Groups.{after_election, election}

abbrev pub command : Op
command = record {
  operation = [];
  key = 7 ∷ [];
  value = 8 ∷ [];
  client_id = 1 ∷ [];
  request_id = 1;
}

abbrev pub with_command : Raft
with_command = (start command (after_election.nodes 0)).1

abbrev pub after_start : Group
after_start = record after_election { nodes = update 0 with_command after_election.nodes }

abbrev pub beating : Raft
beating = elim (heart_beat_time_out 430 430 (after_start.nodes 0)) [
  | none ↦ after_start.nodes 0
  | some q ↦ q
]

abbrev pub after_beat : Group
after_beat = record after_start { nodes = update 0 beating after_start.nodes }

abbrev pub entry : LogEntry
entry = record { command = archive.save_op command; log_term = 1; log_index = 1 }

abbrev pub beat : AppendEntriesArgs
beat = record {
  term = 1;
  leader_id = 0;
  prev_log_index = 0;
  prev_log_term = 0;
  entries = entry ∷ [];
  leader_commit = 0;
}

abbrev pub taker : Raft
taker = elim (append_entries 440 beat (after_beat.nodes 2)) [
  | none ↦ after_beat.nodes 2
  | some (reply, q) ↦ q
]

abbrev pub accepted_beat : AppendEntriesReply
accepted_beat = record {
  term = 1;
  success = true;
  update_next_index = some 0;
  app_state = app_normal;
}

abbrev after_delivery : Group
after_delivery = record after_beat { nodes = update 2 taker after_beat.nodes }

sent : GroupReach 3 after_beat
unfolding start get_new_command_index heart_beat_time_out receive_vote election_time_out init
    read_persist read_raft_state create persist commit_with_timeout request_vote up_to_date
    last_info get_last_log_index get_prev_log_info append_entries match_log
sent =
    later (later election (moves 0 {q = with_command} (omega arith) (starts command refl) tt))
      (moves 0 {q = beating} (omega arith) (heart_beat_timer 430 430 refl) tt)

delivery : GroupReach 3 after_delivery
unfolding start get_new_command_index heart_beat_time_out receive_vote election_time_out init
    read_persist read_raft_state create persist commit_with_timeout request_vote up_to_date
    last_info get_last_log_index get_prev_log_info append_entries match_log
delivery = later sent (
    delivers 0 2 1 440 beat accepted_beat {q = taker} (omega arith) (omega arith)
      (inr (inr (inr (inr (inl refl))))) refl)

-- Node 2 holds the entry once it has accepted the request.
accepted_stored_example :
    (taker.last_snapshot_include_index < entry.log_index)
    × (get_elem? taker.logs (entry.log_index - suc taker.last_snapshot_include_index) ≡ some entry)
unfolding start get_new_command_index heart_beat_time_out receive_vote election_time_out init
    read_persist read_raft_state create persist commit_with_timeout request_vote up_to_date
    last_info get_last_log_index get_prev_log_info append_entries match_log
accepted_stored_example =
    accepted_stored 3 after_beat 0 2 1 440 0 beat accepted_beat taker entry sent (omega arith)
      (omega arith) (inr (inr (inr (inr (inl refl))))) refl refl refl

-- The entry of the leader's log and that of the follower's.
entries_agree_example : entry_for command (after_election.nodes 0) ≡ entry
unfolding start get_new_command_index heart_beat_time_out receive_vote election_time_out init
    read_persist read_raft_state create persist commit_with_timeout request_vote up_to_date
    last_info get_last_log_index get_prev_log_info append_entries match_log
entries_agree_example =
    entries_agree 3 after_delivery 0 2 (entry_for command (after_election.nodes 0)) entry delivery
      (omega arith) (omega arith) (inl (0, refl)) (inl (0, refl)) refl refl
