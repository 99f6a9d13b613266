-- ===== src/Raft/Replication/Commit.antt =====
-- When a leader commits.
use kvstorage_base_raft_cpp.Base.{ℕ, ◌+◌, ◌/◌, ◌≤◌, ◌<◌, ◌≡◌, Bool, true, arith, length}
use kvstorage_base_raft_cpp.Message.{AppendEntriesArgs, AppendEntriesReply}
use kvstorage_base_raft_cpp.Raft.{Raft, is_leader, last_info}
use kvstorage_base_raft_cpp.Raft.Election.{counter_at}
use kvstorage_base_raft_cpp.Raft.Replication.{receive_append, count_append, commit_entries}

-- What it takes for a reply to move the leader's commit index.
pub record CommitsBy (args : AppendEntriesArgs) (c : ℕ) (ok : Bool) (reply : AppendEntriesReply)
    (r q : Raft) : Type 0 where
  pub leads : is_leader r.status ≡ true
  pub arrived : ok ≡ true
  pub same_term : reply.term ≡ r.current_term
  pub success : reply.success ≡ true
  pub majority : r.peers / 2 ≤ counter_at r c
  pub not_empty : 0 < length args.entries
  pub own_term : (last_info 0 0 args.entries).1 ≡ r.current_term
  pub up_to_request : q.commit_index ≡ args.prev_log_index + length args.entries

module _ (server : ℕ) (args : AppendEntriesArgs) (c : ℕ) (ok : Bool) (reply : AppendEntriesReply)
    (r : Raft)
    (moved : r.commit_index < (receive_append server args c ok reply r).commit_index) where
  -- A reply moves the commit index of a node only if the node leads, the reply is a success of its
  -- own term that completes a majority of its round, and the last entry of the request is of the
  -- node's own term; the index moves to that of this entry.
  pub receive_append_commits : CommitsBy args c ok reply r (receive_append server args c ok reply r)
  unfolding receive_append count_append commit_entries
  receive_append_commits = record {
    leads = ground arith;
    arrived = ground arith;
    same_term = ground arith;
    success = ground arith;
    majority = ground arith;
    not_empty = ground arith;
    own_term = ground arith;
    up_to_request = ground arith;
  }
