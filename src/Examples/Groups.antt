-- ===== src/Examples/Groups.antt =====
-- A group of three nodes of which one is elected and sends a heart beat.
use kvstorage_base_raft_cpp.Base.{
  ℕ, none, some, inl, inr, ◌≡◌, refl, true, arith, [], update, length,
}
use kvstorage_base_raft_cpp.Message.{
  RequestVoteArgs, RequestVoteReply, AppendEntriesArgs, AppendEntriesReply, app_normal,
}
use kvstorage_base_raft_cpp.Persister.{create, read_raft_state}
use kvstorage_base_raft_cpp.Raft.{
  Raft, last_info, up_to_date, commit_with_timeout, get_last_log_index, get_prev_log_info,
  match_log,
}
use kvstorage_base_raft_cpp.Raft.Store.{persist, read_persist}
use kvstorage_base_raft_cpp.Raft.Election.{
  request_vote, receive_vote, election_time_out, do_election, request_vote_args,
}
use kvstorage_base_raft_cpp.Raft.Node.{init}
use kvstorage_base_raft_cpp.Raft.Log.{Inv}
use kvstorage_base_raft_cpp.Raft.Posts.{HasAppend, IsWithin}
use kvstorage_base_raft_cpp.Raft.Replication.{heart_beat_time_out, append_entries}
use kvstorage_base_raft_cpp.Raft.Node.Steps.{heart_beat_timer}
use kvstorage_base_raft_cpp.Raft.Group.{
  Group, GroupReach, begins, later, elects, serves, returns, moves, delivers, answered, closed,
  idle, calls_of, new_tasks, set_row,
}
use kvstorage_base_raft_cpp.Raft.Group.Safety.{election_safety, nodes_in_order}
use kvstorage_base_raft_cpp.Examples.Archives.{archive}

abbrev pub starting : Group
starting = record { nodes = λ i. init 0 3 i (create [] []) []; calls = λ i c k. idle }

-- The timer of node 0 runs out at time 400.
abbrev pub campaigning : Raft
campaigning = election_time_out 300 400 (starting.nodes 0)

abbrev pub after_campaign : Group
after_campaign = record {
  nodes = update 0 campaigning starting.nodes;
  calls =
      set_row 0 (length (starting.nodes 0).counters)
        (calls_of 0 (new_tasks (starting.nodes 0) campaigning)) starting.calls;
}

-- Node 1 votes for it.
abbrev pub ballot : RequestVoteArgs
ballot = request_vote_args campaigning

abbrev pub after_vote : Group
after_vote = record {
  nodes = update 1 (request_vote 410 ballot (after_campaign.nodes 1)).1 after_campaign.nodes;
  calls =
      set_row 0 0
        (update 1 (answered ballot (request_vote 410 ballot (after_campaign.nodes 1)).0)
          (after_campaign.calls 0 0))
        after_campaign.calls;
}

abbrev pub vote_of_one : RequestVoteReply
vote_of_one = (request_vote 410 ballot (after_campaign.nodes 1)).0

-- The vote comes back: with its own it is a majority of three.
abbrev pub after_election : Group
after_election = record {
  nodes = update 0 (receive_vote 420 0 true vote_of_one (after_vote.nodes 0)) after_vote.nodes;
  calls = set_row 0 0 (update 1 closed (after_vote.calls 0 0)) after_vote.calls;
}

pub election : GroupReach 3 after_election
unfolding init election_time_out do_election last_info request_vote up_to_date read_persist
    read_raft_state create persist commit_with_timeout
election =
    later
      (later
        (later
          (begins starting
            (record { begun = λ i h. (0, [], [], [], refl); silent = λ i c k. refl }))
          (elects 0 300 400 (omega arith) refl refl))
        (serves 0 0 1 410 ballot (omega arith) refl))
      (returns 0 0 1 420 ballot vote_of_one (omega arith) refl)

abbrev winner : ℕ
winner = 0

election_safety_example : winner ≡ ballot.candidate_id
unfolding init election_time_out do_election last_info request_vote up_to_date receive_vote persist
    commit_with_timeout get_last_log_index read_persist read_raft_state create
election_safety_example =
    election_safety 3 after_election winner ballot.candidate_id election (omega arith) (omega arith)
      refl refl refl

-- The new leader's heart beat, and its arrival at node 2.
abbrev beating : Raft
beating = elim (heart_beat_time_out 430 430 (after_election.nodes 0)) [
  | none ↦ after_election.nodes 0
  | some q ↦ q
]

abbrev after_beat : Group
after_beat = record after_election { nodes = update 0 beating after_election.nodes }

abbrev beat : AppendEntriesArgs
beat = record {
  term = 1;
  leader_id = 0;
  prev_log_index = 0;
  prev_log_term = 0;
  entries = [];
  leader_commit = 0;
}

abbrev follower_after_beat : Raft
follower_after_beat = elim (append_entries 440 beat (after_beat.nodes 2)) [
  | none ↦ after_beat.nodes 2
  | some (reply, q) ↦ q
]

abbrev accepted_beat : AppendEntriesReply
accepted_beat = record {
  term = 1;
  success = true;
  update_next_index = some 0;
  app_state = app_normal;
}

abbrev after_delivery : Group
after_delivery = record after_beat { nodes = update 2 follower_after_beat after_beat.nodes }

delivery : GroupReach 3 after_delivery
unfolding heart_beat_time_out receive_vote election_time_out init read_persist read_raft_state
    create persist commit_with_timeout request_vote up_to_date last_info get_last_log_index
    get_prev_log_info append_entries match_log
delivery =
    later (later election (moves 0 {q = beating} (omega arith) (heart_beat_timer 430 430 refl) tt))
      (delivers 0 2 1 440 beat accepted_beat {q = follower_after_beat} (omega arith) (omega arith)
        (inr (inr (inr (inr (inl refl))))) refl)

nodes_in_order_example :
    Inv (after_delivery.nodes 2)
    × ((k : ℕ) (args : AppendEntriesArgs) (c : ℕ)
        → HasAppend k args c (after_delivery.nodes 2).rpc_tasks
        → IsWithin (after_delivery.nodes 2) args)
nodes_in_order_example = nodes_in_order 3 after_delivery 2 delivery (omega arith)
