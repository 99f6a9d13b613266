-- ===== src/Examples/Commits.antt =====
-- The reply of node 2 makes the leader of three nodes commit its first entry.
use kvstorage_base_raft_cpp.Base.{
  ℕ, some, inl, inr, ◌≡◌, ◌+◌, ◌/◌, ◌≤◌, refl, arith, [], update, length, count,
}
use kvstorage_base_raft_cpp.Message.{AppendEntriesArgs}
use kvstorage_base_raft_cpp.Persister.{create, read_raft_state}
use kvstorage_base_raft_cpp.Raft.{
  last_info, up_to_date, commit_with_timeout, get_last_log_index, get_prev_log_info, match_log,
  get_new_command_index,
}
use kvstorage_base_raft_cpp.Raft.Store.{persist, read_persist}
use kvstorage_base_raft_cpp.Raft.Election.{
  request_vote, receive_vote, election_time_out, do_election,
}
use kvstorage_base_raft_cpp.Raft.Node.{init, start}
use kvstorage_base_raft_cpp.Raft.Replication.{heart_beat_time_out, append_entries, receive_append}
use kvstorage_base_raft_cpp.Raft.Node.Steps.{heart_beat_timer, starts}
use kvstorage_base_raft_cpp.Raft.Group.{elects, serves, returns, moves}
use kvstorage_base_raft_cpp.Raft.Group.Cluster.{
  unsent, taken, request_of, has_stored, Cluster, set_send, ClusterReach, sets_out, goes_on,
  elsewhere, takes,
}
use kvstorage_base_raft_cpp.Raft.Group.Commits.{commits_by_majority, row_after}
use kvstorage_base_raft_cpp.Examples.Archives.{archive}
use kvstorage_base_raft_cpp.Examples.Groups.{starting, ballot, vote_of_one}
use kvstorage_base_raft_cpp.Examples.Agreement.{
  command, with_command, beating, after_beat, beat, taker, accepted_beat,
}

abbrev before : Cluster
before = record { group = starting; sends = λ i c k. unsent }

-- Node 2 has accepted the request, and its reply is under way.
abbrev answered_once : Cluster
answered_once = record {
  group = record after_beat { nodes = update 2 taker after_beat.nodes };
  sends = set_send 0 1 2 (taken beat accepted_beat) before.sends;
}

run : ClusterReach 3 answered_once
unfolding start get_new_command_index heart_beat_time_out receive_vote election_time_out init
    read_persist read_raft_state create persist commit_with_timeout request_vote up_to_date
    last_info get_last_log_index get_prev_log_info append_entries match_log do_election
run =
    goes_on
      (goes_on
        (goes_on
          (goes_on
            (goes_on
              (goes_on
                (sets_out before
                  (record { begun = λ i h. (0, [], [], [], refl); silent = λ i c k. refl })
                  (λ i c k. refl))
                (elsewhere (elects 0 300 400 (omega arith) refl refl) tt))
              (elsewhere (serves 0 0 1 410 ballot (omega arith) refl) tt))
            (elsewhere (returns 0 0 1 420 ballot vote_of_one (omega arith) refl) tt))
          (elsewhere (moves 0 {q = with_command} (omega arith) (starts command refl) tt) tt))
        (elsewhere (moves 0 {q = beating} (omega arith) (heart_beat_timer 430 430 refl) tt) tt))
      (takes 0 2 1 440 beat accepted_beat {q = taker} (omega arith) (omega arith)
        (inr (inr (inr (inr (inl refl))))) refl refl)

commits_by_majority_example :
    (3 / 2 + 1 ≤ count 3 (has_stored 0 (row_after answered_once 0 1 2 beat accepted_beat)))
    × ((m : ℕ) (other : AppendEntriesArgs)
        → request_of (row_after answered_once 0 1 2 beat accepted_beat m) ≡ some other
        → other.prev_log_index + length other.entries ≡ 1)
unfolding start get_new_command_index heart_beat_time_out receive_vote election_time_out init
    read_persist read_raft_state create persist commit_with_timeout request_vote up_to_date
    last_info get_last_log_index get_prev_log_info append_entries match_log do_election
    receive_append
commits_by_majority_example =
    commits_by_majority 3 answered_once 0 2 1 beat accepted_beat run (omega arith) refl
      (omega arith)
