-- ===== src/Raft/Replication/Follower.antt =====
-- What `AppendEntries` does on each branch, for a node whose log is in order.
use kvstorage_base_raft_cpp.Base.{
  ℕ, suc, ◌+◌, ◌≤◌, ◌<◌, ◌≡◌, ◌≢◌, ap, true, false, Option, none, some, List, arith, length, ltb,
  if◌then◌else◌, sub_ℕ_lt,
}
use kvstorage_base_raft_cpp.Message.{
  LogEntry, AppendEntriesArgs, AppendEntriesReply, empty_append_entries_reply, app_normal,
}
use kvstorage_base_raft_cpp.Archive.{Archive}
use kvstorage_base_raft_cpp.Raft.{Raft, follower, get_log_term_from_log_index, match_log, log_at}
use kvstorage_base_raft_cpp.Raft.Store.{persist}
use kvstorage_base_raft_cpp.Raft.Log.{IsConsecutive, get_last_log_index_lem}
use kvstorage_base_raft_cpp.Raft.Replication.{
  update_commit, mismatch, accept, compare_logs, follow, append_entries,
}
use kvstorage_base_raft_cpp.Raft.Replication.BackUp.{BacksUp, back_up_lem}
use kvstorage_base_raft_cpp.Raft.Replication.Entries.{Puts, AllHold, put_entries-Puts}

-- The state after an accepted request, the log aside.
abbrev pub accepted : AppendEntriesArgs → Raft → List LogEntry → Raft
accepted args r new = update_commit args.leader_commit (record r { logs = new })

abbrev pub accepting : ℕ → AppendEntriesReply
accepting term = record empty_append_entries_reply {
  term = term;
  success = true;
  app_state = app_normal;
}

abbrev pub refusing : ℕ → Option ℕ → AppendEntriesReply
refusing term next = record {
  term = term;
  success = false;
  update_next_index = next;
  app_state = app_normal;
}

match_log_same :
    (r : Raft) (i t : ℕ) → get_log_term_from_log_index r i ≡ some t → match_log r i t ≡ some true
unfolding match_log
match_log_same r i t e = rw e (ground arith)

pub compare_logs_accepts :
    (args : AppendEntriesArgs) (r : Raft)
    → IsConsecutive r.last_snapshot_include_index r.logs
    → IsConsecutive args.prev_log_index args.entries
    → r.last_snapshot_include_index ≤ args.prev_log_index
    → args.prev_log_index ≤ r.last_snapshot_include_index + length r.logs
    → get_log_term_from_log_index r args.prev_log_index ≡ some args.prev_log_term
    → (new : List LogEntry) × (compare_logs args r
        ≡ some (accepting r.current_term, accepted args r new))
      × Puts r.last_snapshot_include_index args.prev_log_index
          (args.prev_log_index + length args.entries)
          r.logs
          new
      × AllHold r.last_snapshot_include_index r.logs new args.entries
unfolding compare_logs accept
compare_logs_accepts args r h c behind near same =
    let (new, put, puts, held) =
      put_entries-Puts args.entries r args.prev_log_index c h behind near in
    (
      new,
      ground (
        arith,
        get_last_log_index_lem r h,
        match_log_same r args.prev_log_index args.prev_log_term same,
        put,
      ),
      puts,
      held,
    )

pub compare_logs_mismatch :
    (args : AppendEntriesArgs) (r : Raft) (t : ℕ)
    → IsConsecutive r.last_snapshot_include_index r.logs
    → r.last_snapshot_include_index ≤ r.commit_index
    → args.prev_log_index ≤ r.last_snapshot_include_index + length r.logs
    → get_log_term_from_log_index r args.prev_log_index ≡ some t
    → t ≢ args.prev_log_term
    → (n : ℕ) × (compare_logs args r ≡ some (refusing r.current_term (some n), r))
      × BacksUp r t (suc args.prev_log_index) n
unfolding compare_logs mismatch match_log
compare_logs_mismatch args r t h compacted near found differs =
    let (n, e, b) = back_up_lem r t compacted (suc args.prev_log_index) (omega arith) in
    (n, ground (arith, get_last_log_index_lem r h, found, e), b)

pub compare_logs_behind :
    (args : AppendEntriesArgs) (r : Raft)
    → IsConsecutive r.last_snapshot_include_index r.logs
    → r.last_snapshot_include_index + length r.logs < args.prev_log_index
    → compare_logs args r
      ≡ some (refusing r.current_term (some (r.last_snapshot_include_index + length r.logs + 1)), r)
unfolding compare_logs
compare_logs_behind args r h far = ground (arith, get_last_log_index_lem r h)

pub compare_logs_before :
    (args : AppendEntriesArgs) (r : Raft)
    → IsConsecutive r.last_snapshot_include_index r.logs
    → args.prev_log_index < r.last_snapshot_include_index
    → compare_logs args r ≡ none
unfolding compare_logs match_log get_log_term_from_log_index
compare_logs_before args r h before =
    let e = sub_ℕ_lt args.prev_log_index (suc r.last_snapshot_include_index) (omega arith) in
    ground (arith, get_last_log_index_lem r h, ap (log_at r.logs) e)

-- A node at the request's term: its log is as it was.
abbrev pub following : ℕ → ℕ → Raft → Raft
following now term r = record r {
  status = follower;
  current_term = term;
  voted_for = if ltb r.current_term term then none else r.voted_for;
  last_reset_election_time = now;
}

pub follow_lem :
    (now term : ℕ) (r : Raft) → r.current_term ≤ term → follow now term r ≡ following now term r
follow_lem now term r h = ground arith

module _ ⦃a : Archive⦄ (now : ℕ) (args : AppendEntriesArgs) (r : Raft) where
  pub append_entries-of_compare :
      (reply : AppendEntriesReply) (q : Raft)
      → r.current_term ≤ args.term
      → compare_logs args (following now args.term r) ≡ some (reply, q)
      → append_entries now args r ≡ some (reply, persist q)
  unfolding append_entries
  append_entries-of_compare reply q h e = ground (arith, follow_lem now args.term r h, e)
