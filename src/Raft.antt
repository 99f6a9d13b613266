-- ===== src/Raft.antt =====
-- raftCore/raft.h and the helpers of raftCore/raft.cc on a node's log. A node's handlers run under
-- its mutex, so each is one step of the state. Indices and terms are not negative; an `int` that is
-- computed from one and used as a position is a ℤ, and a read outside `m_logs` is `none`.
pub mod Store
pub mod Log
pub mod Progress
pub mod Posts
pub mod Bystander
pub mod Election
pub mod Replication
pub mod Snapshot
pub mod Apply
pub mod Node
pub mod Group
pub mod Tickers
use kvstorage_base_raft_cpp.Base.{
  ℕ, suc, ◌+◌, ◌-◌, Bool, true, false, ◌&&◌, ◌||◌, Option, none, some, List, [], ◌∷◌, ◌++◌, ltb,
  leb, ◌==◌, if◌then◌else◌, ◌>>=◌, ℤ, pos, negsuc, sub_ℕ, get_elem?, set, length,
}
use kvstorage_base_raft_cpp.Message.{LogEntry, AppendEntriesArgs, RequestVoteArgs, ApplyMsg}
use kvstorage_base_raft_cpp.Persister.{Persister}

pub data Status : Type 0 where
  follower candidate leader : Status

-- The tasks that a node posts to its thread pool. The last field of the first two is the place in
-- `counters` of the number that the tasks of one round share.
pub data Task : Type 0 where
  send_request_vote : ℕ → RequestVoteArgs → ℕ → Task
  send_append_entries : ℕ → AppendEntriesArgs → ℕ → Task
  leader_send_snapshot : ℕ → Task
  do_heart_beat : Task

pub record Posted : Type 0 where
  pub task : Task
  pub start_time : ℕ
  pub timeout : ℕ

-- `class Raft`. `peers` is the number of nodes; `apply_msgs` holds what
-- `applierTicker` has taken and not pushed yet, `rpc_tasks` the posted tasks, oldest first,
-- and `counters` the numbers behind `votedNum` and `appendNums`.
pub record Raft : Type 0 where
  pub peers : ℕ
  pub persister : Persister
  pub me : ℕ
  pub current_term : ℕ
  pub voted_for : Option ℕ
  pub logs : List LogEntry
  pub commit_index : ℕ
  pub last_applied : ℕ
  pub next_index : List ℕ
  pub match_index : List ℕ
  pub status : Status
  pub apply_chan : List ApplyMsg
  pub apply_msgs : List ApplyMsg
  pub last_reset_election_time : ℕ
  pub last_reset_heart_beat_time : ℕ
  pub last_snapshot_include_index : ℕ
  pub last_snapshot_include_term : ℕ
  pub rpc_tasks : List Posted
  pub counters : List ℕ

abbrev pub is_leader : Status → Bool
is_leader leader = true
is_leader follower = false
is_leader candidate = false

-- Index and term of the last entry of a log that follows the index and term given.
unfoldable pub last_info : ℕ → ℕ → List LogEntry → ℕ × ℕ
last_info i t [] = (i, t)
last_info i t (e ∷ es) = last_info e.log_index e.log_term es

unfoldable pub get_last_log_index_and_term : Raft → ℕ × ℕ
get_last_log_index_and_term r =
    last_info r.last_snapshot_include_index r.last_snapshot_include_term r.logs

unfoldable pub get_last_log_index : Raft → ℕ
unfolding get_last_log_index_and_term
get_last_log_index r = (get_last_log_index_and_term r).0

unfoldable pub get_last_log_term : Raft → ℕ
unfolding get_last_log_index_and_term
get_last_log_term r = (get_last_log_index_and_term r).1

unfoldable pub get_new_command_index : Raft → ℕ
get_new_command_index r = get_last_log_index r + 1

-- `logIndex - m_lastSnapshotIncludeIndex - 1`.
abbrev pub get_slices_index_from_log_index : Raft → ℕ → ℤ
get_slices_index_from_log_index r log_index = sub_ℕ log_index (suc r.last_snapshot_include_index)

-- `m_logs[i]`.
abbrev pub log_at : List LogEntry → ℤ → Option LogEntry
log_at logs (pos i) = get_elem? logs i
log_at logs (negsuc i) = none

-- `m_logs[i] = log`.
abbrev pub set_log : List LogEntry → ℤ → LogEntry → List LogEntry
set_log logs (pos i) log = set logs i log
set_log logs (negsuc i) log = logs

unfoldable pub get_log_term_from_log_index : Raft → ℕ → Option ℕ
get_log_term_from_log_index r log_index =
    if log_index == r.last_snapshot_include_index
    then some r.last_snapshot_include_term
    else (log_at r.logs (get_slices_index_from_log_index r log_index) >>= λ log. some log.log_term)

unfoldable pub match_log : Raft → ℕ → ℕ → Option Bool
unfolding get_log_term_from_log_index
match_log r log_index log_term =
    get_log_term_from_log_index r log_index >>= λ term. some (log_term == term)

unfoldable pub up_to_date : Raft → ℕ → ℕ → Bool
unfolding get_last_log_index_and_term
up_to_date r index term =
    let (last_index, last_term) = get_last_log_index_and_term r in
    ltb last_term term || term == last_term && leb last_index index

-- Index and term of the entry before the first that `server` is to be sent.
unfoldable pub get_prev_log_info : Raft → ℕ → Option (ℕ × ℕ)
get_prev_log_info r server = get_elem? r.next_index server >>= λ next_index.
    if next_index == r.last_snapshot_include_index + 1
    then some (r.last_snapshot_include_index, r.last_snapshot_include_term)
    else (log_at r.logs (get_slices_index_from_log_index r (next_index - 1)) >>= λ log.
        some (next_index - 1, log.log_term))

-- `Raft::GetState`: the term, and whether the node believes itself the leader.
pub get_state : Raft → ℕ × Bool
get_state r = (r.current_term, is_leader r.status)

-- `Raft::commitWithTimeout`, at time `now`.
unfoldable pub commit_with_timeout : Task → ℕ → ℕ → Raft → Raft
commit_with_timeout task timeout now r = record r {
  rpc_tasks = r.rpc_tasks ++ record { task = task; start_time = now; timeout = timeout } ∷ [];
}

-- What the pool's thread does with a posted task at time `now`: it runs it, or drops it as late.
pub run_posted : ℕ → Posted → Option Task
run_posted now p = if ltb (now - p.start_time) p.timeout then some p.task else none
