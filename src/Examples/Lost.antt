-- ===== src/Examples/Lost.antt =====
-- Five nodes: a command that the leader of term 2 has committed is missing in the log of the leader of
-- term 3, since an entry that a request overwrites leaves the old entries behind it.
use kvstorage_base_raft_cpp.Base.{some, inl, inr, ◌≡◌, refl, true, arith, [], ◌∷◌, get_elem?}
use kvstorage_base_raft_cpp.Message.{RequestVoteArgs, AppendEntriesArgs}
use kvstorage_base_raft_cpp.Persister.{create, read_raft_state}
use kvstorage_base_raft_cpp.Raft.{
  last_info, up_to_date, commit_with_timeout, get_last_log_index, get_prev_log_info, match_log,
  get_new_command_index, is_leader,
}
use kvstorage_base_raft_cpp.Raft.Store.{persist, read_persist}
use kvstorage_base_raft_cpp.Raft.Election.{
  request_vote, receive_vote, election_time_out, do_election,
}
use kvstorage_base_raft_cpp.Raft.Node.{init, start}
use kvstorage_base_raft_cpp.Raft.Replication.{heart_beat_time_out, append_entries, receive_append}
use kvstorage_base_raft_cpp.Raft.Node.Steps.{heart_beat_timer, starts}
use kvstorage_base_raft_cpp.Raft.Group.{elects, serves, returns, moves, idle}
use kvstorage_base_raft_cpp.Raft.Group.Cluster.{
  unsent, Cluster, ClusterReach, sets_out, goes_on, elsewhere, takes, comes_back,
}
use kvstorage_base_raft_cpp.Raft.Replication.Stored.{accepted_keeps_last}
use kvstorage_base_raft_cpp.Raft.Group.Safety.{nodes_in_order}
use kvstorage_base_raft_cpp.Raft.Group.Commits.{ClusterReach-GroupReach}
use kvstorage_base_raft_cpp.Examples.Archives.{archive}
use kvstorage_base_raft_cpp.Examples.Turns.{
  elect, serve, return, granted, put, entry, command, beat, take, come_back, accepted,
}

abbrev starting : Cluster
starting = record {
  group = record { nodes = λ i. init 0 5 i (create [] []) []; calls = λ i c k. idle };
  sends = λ i c k. unsent;
}

abbrev first_ballot : RequestVoteArgs
first_ballot = record { term = 1; candidate_id = 0; last_log_index = 0; last_log_term = 0 }

abbrev s1 : Cluster
s1 = serve 0 0 3 420 first_ballot (serve 0 0 2 410 first_ballot (elect 0 400 starting))

abbrev s2 : Cluster
s2 = return 0 0 3 440 (granted 1) (return 0 0 2 430 (granted 1) s1)

first_leader : ClusterReach 5 s2
unfolding init election_time_out do_election last_info request_vote up_to_date read_persist
    read_raft_state create persist commit_with_timeout
first_leader =
    goes_on
      (goes_on
        (goes_on
          (goes_on
            (goes_on
              (sets_out starting
                (record { begun = λ i h. (0, [], [], [], refl); silent = λ i c k. refl })
                (λ i c k. refl))
              (elsewhere (elects 0 400 400 (omega arith) refl refl) tt))
            (elsewhere (serves 0 0 2 410 first_ballot (omega arith) refl) tt))
          (elsewhere (serves 0 0 3 420 first_ballot (omega arith) refl) tt))
        (elsewhere (returns 0 0 2 430 first_ballot (granted 1) (omega arith) refl) tt))
      (elsewhere (returns 0 0 3 440 first_ballot (granted 1) (omega arith) refl) tt)

-- Node 0 takes two commands, and node 1 stores them.
abbrev first_request : AppendEntriesArgs
first_request = record {
  term = 1;
  leader_id = 0;
  prev_log_index = 0;
  prev_log_term = 0;
  entries = entry 1 1 1 ∷ entry 2 1 2 ∷ [];
  leader_commit = 0;
}

abbrev s3 : Cluster
s3 = beat 0 450 (command 0 2 (command 0 1 s2))

abbrev s4 : Cluster
s4 = take 0 1 1 460 first_request (accepted 1) s3

first_stored : ClusterReach 5 s4
unfolding init election_time_out do_election last_info request_vote up_to_date read_persist
    read_raft_state create persist commit_with_timeout receive_vote start get_new_command_index
    heart_beat_time_out get_last_log_index get_prev_log_info append_entries match_log
first_stored =
    goes_on
      (goes_on
        (goes_on
          (goes_on first_leader (
            elsewhere
              (moves 0 {q = (start (put 1) (s2.group.nodes 0)).1} (omega arith)
                (starts (put 1) refl) tt)
              tt))
          (elsewhere
            (moves 0 {q = (start (put 2) ((command 0 1 s2).group.nodes 0)).1} (omega arith)
              (starts (put 2) refl) tt)
            tt))
        (elsewhere (moves 0 {q = s3.group.nodes 0} (omega arith) (heart_beat_timer 450 450 refl) tt)
          tt))
      (takes 0 1 1 460 first_request (accepted 1) {q = s4.group.nodes 1} (omega arith) (omega arith)
        (inr (inr (inr (inr (inr (inl refl)))))) refl refl)

-- Node 2 becomes the leader of term 2: nodes 3 and 4 vote for it, and node 0 steps down.
abbrev second_ballot : RequestVoteArgs
second_ballot = record { term = 2; candidate_id = 2; last_log_index = 0; last_log_term = 0 }

abbrev s5 : Cluster
s5 =
    serve 2 0 0 930 second_ballot
      (serve 2 0 4 920 second_ballot (serve 2 0 3 910 second_ballot (elect 2 900 s4)))

abbrev s6 : Cluster
s6 = return 2 0 4 950 (granted 2) (return 2 0 3 940 (granted 2) s5)

second_leader : ClusterReach 5 s6
unfolding init election_time_out do_election last_info request_vote up_to_date read_persist
    read_raft_state create persist commit_with_timeout receive_vote start get_new_command_index
    heart_beat_time_out get_last_log_index get_prev_log_info append_entries match_log
second_leader =
    goes_on
      (goes_on
        (goes_on
          (goes_on
            (goes_on
              (goes_on first_stored (elsewhere (elects 2 900 900 (omega arith) refl refl) tt))
              (elsewhere (serves 2 0 3 910 second_ballot (omega arith) refl) tt))
            (elsewhere (serves 2 0 4 920 second_ballot (omega arith) refl) tt))
          (elsewhere (serves 2 0 0 930 second_ballot (omega arith) refl) tt))
        (elsewhere (returns 2 0 3 940 second_ballot (granted 2) (omega arith) refl) tt))
      (elsewhere (returns 2 0 4 950 second_ballot (granted 2) (omega arith) refl) tt)

-- It takes a command, which nodes 1 and 3 store, and commits it.
abbrev second_request : AppendEntriesArgs
second_request = record {
  term = 2;
  leader_id = 2;
  prev_log_index = 0;
  prev_log_term = 0;
  entries = entry 3 2 1 ∷ [];
  leader_commit = 0;
}

abbrev s7 : Cluster
s7 = beat 2 960 (command 2 3 s6)

abbrev s8 : Cluster
s8 = take 2 3 1 980 second_request (accepted 2) (take 2 1 1 970 second_request (accepted 2) s7)

abbrev s9 : Cluster
s9 = come_back 2 3 1 second_request (accepted 2) (come_back 2 1 1 second_request (accepted 2) s8)

second_sent : ClusterReach 5 s7
unfolding init election_time_out do_election last_info request_vote up_to_date read_persist
    read_raft_state create persist commit_with_timeout receive_vote start get_new_command_index
    heart_beat_time_out get_last_log_index get_prev_log_info append_entries match_log
second_sent =
    goes_on
      (goes_on second_leader (
        elsewhere
          (moves 2 {q = (start (put 3) (s6.group.nodes 2)).1} (omega arith) (starts (put 3) refl)
            tt)
          tt))
      (elsewhere (moves 2 {q = s7.group.nodes 2} (omega arith) (heart_beat_timer 960 960 refl) tt)
        tt)

-- Node 1 stores the command of term 2 and keeps its last entry, of term 1.
accepted_keeps_last_example : up_to_date (s8.group.nodes 1) 2 1 ≡ up_to_date (s7.group.nodes 1) 2 1
unfolding init election_time_out do_election last_info request_vote up_to_date read_persist
    read_raft_state create persist commit_with_timeout receive_vote start get_new_command_index
    heart_beat_time_out get_last_log_index get_prev_log_info append_entries match_log
accepted_keeps_last_example =
    accepted_keeps_last 970 second_request (s7.group.nodes 1) (accepted 2) (s8.group.nodes 1)
      (nodes_in_order 5 s7.group 1 (ClusterReach-GroupReach 5 second_sent).0 (omega arith)).0
      (omega arith) refl refl (omega arith) 2 1

second_stored : ClusterReach 5 s9
unfolding init election_time_out do_election last_info request_vote up_to_date read_persist
    read_raft_state create persist commit_with_timeout receive_vote start get_new_command_index
    heart_beat_time_out get_last_log_index get_prev_log_info append_entries match_log
second_stored =
    goes_on
      (goes_on
        (goes_on
          (goes_on second_sent (
            takes 2 1 1 970 second_request (accepted 2) {q = s8.group.nodes 1} (omega arith)
              (omega arith) (inr (inr (inr (inr (inr (inr (inl refl))))))) refl refl))
          (takes 2 3 1 980 second_request (accepted 2) {q = s8.group.nodes 3} (omega arith)
            (omega arith) (inr (inr (inr (inr (inr (inr (inr (inl refl)))))))) refl refl))
        (comes_back 2 1 1 second_request (accepted 2) (omega arith) refl))
      (comes_back 2 3 1 second_request (accepted 2) (omega arith) refl)

-- Node 0 becomes the leader of term 3: node 1, whose last entry is that of term 1, votes for it.
abbrev third_ballot : RequestVoteArgs
third_ballot = record { term = 3; candidate_id = 0; last_log_index = 2; last_log_term = 1 }

abbrev s10 : Cluster
s10 = serve 0 2 4 1420 third_ballot (serve 0 2 1 1410 third_ballot (elect 0 1400 s9))

abbrev s11 : Cluster
s11 = return 0 2 4 1440 (granted 3) (return 0 2 1 1430 (granted 3) s10)

third_leader : ClusterReach 5 s11
unfolding init election_time_out do_election last_info request_vote up_to_date read_persist
    read_raft_state create persist commit_with_timeout receive_vote start get_new_command_index
    heart_beat_time_out get_last_log_index get_prev_log_info append_entries match_log receive_append
third_leader =
    goes_on
      (goes_on
        (goes_on
          (goes_on
            (goes_on second_stored (elsewhere (elects 0 1400 1400 (omega arith) refl refl) tt))
            (elsewhere (serves 0 2 1 1410 third_ballot (omega arith) refl) tt))
          (elsewhere (serves 0 2 4 1420 third_ballot (omega arith) refl) tt))
        (elsewhere (returns 0 2 1 1430 third_ballot (granted 3) (omega arith) refl) tt))
      (elsewhere (returns 0 2 4 1440 third_ballot (granted 3) (omega arith) refl) tt)

-- Node 2 has committed its entry of term 2 at index 1, and node 0 leads in term 3 with another there.
lost_commit :
    ClusterReach 5 s11
    × ((s11.group.nodes 2).commit_index ≡ 1)
    × (get_elem? (s11.group.nodes 2).logs 0 ≡ some (entry 3 2 1))
    × (is_leader (s11.group.nodes 0).status ≡ true)
    × ((s11.group.nodes 0).current_term ≡ 3)
    × (get_elem? (s11.group.nodes 0).logs 0 ≡ some (entry 1 1 1))
unfolding init election_time_out do_election last_info request_vote up_to_date read_persist
    read_raft_state create persist commit_with_timeout receive_vote start get_new_command_index
    heart_beat_time_out get_last_log_index get_prev_log_info append_entries match_log receive_append
lost_commit = (third_leader, refl, refl, refl, refl, refl)
