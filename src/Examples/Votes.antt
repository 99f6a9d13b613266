-- ===== src/Examples/Votes.antt =====
-- Votes and elections on concrete nodes.
use kvstorage_base_raft_cpp.Base.{ℕ, ◌≡◌, ◌↔◌, refl, true, arith, List, [], ◌∷◌}
use kvstorage_base_raft_cpp.Message.{RequestVoteArgs, normal}
use kvstorage_base_raft_cpp.Raft.{Raft, follower, candidate, up_to_date, last_info, is_leader}
use kvstorage_base_raft_cpp.Raft.Store.{persist}
use kvstorage_base_raft_cpp.Raft.Progress.{Onward}
use kvstorage_base_raft_cpp.Raft.Election.{request_vote}
use kvstorage_base_raft_cpp.Raft.Election.Grant.{IsUpToDate, IsFreeToVote, vote_granted_iff}
use kvstorage_base_raft_cpp.Raft.Election.Majority.{Arrival, receive_votes, majority_elects}
use kvstorage_base_raft_cpp.Raft.Node.Steps.{votes, here, next}
use kvstorage_base_raft_cpp.Raft.Node.Safety.{one_vote_per_term, Reach-Onward}
use kvstorage_base_raft_cpp.Examples.Archives.{archive}
use kvstorage_base_raft_cpp.Examples.Nodes.{node, node-Inv}

abbrev candidacy : ℕ → RequestVoteArgs
candidacy id = record { term = 3; candidate_id = id; last_log_index = 3; last_log_term = 2 }

abbrev voter : Raft
voter = (request_vote 5 (candidacy 1) (node follower)).1

abbrev rival_refused : Raft
rival_refused = (request_vote 6 (candidacy 2) voter).1

one_vote_per_term_example : (candidacy 1).candidate_id ≡ (candidacy 1).candidate_id
unfolding request_vote up_to_date last_info persist
one_vote_per_term_example =
    one_vote_per_term 5 7 (candidacy 1) (candidacy 1) (node follower) rival_refused
      (node-Inv follower) (next here (votes 6 (candidacy 2) refl)) refl refl refl

Reach-Onward_example : Onward (node follower) voter
Reach-Onward_example = Reach-Onward (node-Inv follower) (next here (votes 5 (candidacy 1) refl))

vote_granted_iff_example :
    ((request_vote 5 (candidacy 1) (node follower)).0.vote_granted ≡ true)
    ↔ (IsUpToDate (candidacy 1) (node follower) × IsFreeToVote (candidacy 1) (node follower))
vote_granted_iff_example = vote_granted_iff 5 (candidacy 1) (node follower)

abbrev one_vote : List Arrival
one_vote =
    record {
      time = 5;
      ok = true;
      reply = record { term = 2; vote_granted = true; vote_state = normal };
    }
    ∷ []

majority_elects_example : is_leader (receive_votes 0 one_vote (node candidate)).status ≡ true
majority_elects_example =
    majority_elects 0 one_vote (node candidate) (omega arith) refl (omega arith) (omega arith)
      (refl, refl, refl, tt)
