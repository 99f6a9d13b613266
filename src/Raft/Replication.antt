-- ===== src/Raft/Replication.antt =====
-- Log replication, raftCore/raft.cc: `AppendEntries`, `doHeartBeat`, `sendAppendEntries`, and one
-- round of `leaderHeartBeatTicker`. The flag that `sendAppendEntries` returns is read by no caller
-- and is left out.
pub mod Entries
pub mod BackUp
pub mod Follower
pub mod Safety
pub mod Stored
pub mod Frame
pub mod Origin
pub mod Channel
pub mod Beat
pub mod Bystander
pub mod HeartBeat
pub mod Round
pub mod Tasks
pub mod Commit
use kvstorage_base_raft_cpp.Base.{
  ℕ, zero, suc, ◌+◌, ◌/◌, Bool, true, false, not, ◌&&◌, Option, none, some, List, [], ◌∷◌, ◌++◌,
  ltb, leb, ◌==◌, if◌then◌else◌, ◌>>=◌, ℤ, pos, negsuc, get_elem?, set, length, drop, min, max,
}
use kvstorage_base_raft_cpp.Message.{
  LogEntry, AppendEntriesArgs, AppendEntriesReply, empty_append_entries_reply, AppState,
  disconnected, app_normal,
}
use kvstorage_base_raft_cpp.Archive.{Archive}
use kvstorage_base_raft_cpp.Raft.{
  Raft, follower, is_leader, send_append_entries, leader_send_snapshot, last_info,
  get_last_log_index, get_slices_index_from_log_index, log_at, set_log, get_log_term_from_log_index,
  match_log, get_prev_log_info, commit_with_timeout,
}
use kvstorage_base_raft_cpp.Raft.Store.{persist}
use kvstorage_base_raft_cpp.Raft.Election.{step_down, counter_at}

-- `HeartBeatTimeout` of common/config.h.
abbrev pub heart_beat_timeout : ℕ
heart_beat_timeout = 30

-- One entry of a request: it is appended behind the last index, or overwrites an entry of another
-- term at its index.
pub put_entry : Raft → LogEntry → Option Raft
put_entry r log =
    let i = get_slices_index_from_log_index r log.log_index in
    if ltb (get_last_log_index r) log.log_index
    then some (record r { logs = r.logs ++ log ∷ [] })
    else (log_at r.logs i >>= λ old.
        some (if old.log_term == log.log_term then r else record r { logs = set_log r.logs i log }))

pub put_entries : Raft → List LogEntry → Option Raft
put_entries r [] = some r
put_entries r (log ∷ logs) = put_entry r log >>= λ q. put_entries q logs

pub update_commit : ℕ → Raft → Raft
update_commit leader_commit r =
    if ltb r.commit_index leader_commit
    then record r { commit_index = min leader_commit (get_last_log_index r) }
    else r

-- The loop `while (idx >= m_commitIndex && …) --idx` at a mismatch, on `idx + 1`, which it returns.
pub back_up : Raft → ℕ → ℕ → Option ℕ
back_up r term zero = some zero
back_up r term (suc idx) =
    let rest = back_up r term idx in
    if leb r.commit_index idx
    then (get_log_term_from_log_index r idx >>= λ t. if t == term then rest else some (suc idx))
    else some (suc idx)

pub mismatch : AppendEntriesArgs → Raft → Option (AppendEntriesReply × Raft)
unfolding back_up
mismatch args r = get_log_term_from_log_index r args.prev_log_index >>= λ term.
    back_up r term (suc args.prev_log_index) >>= λ next. some (
      record {
        term = r.current_term;
        success = false;
        update_next_index = some next;
        app_state = app_normal;
      },
      r,
    )

pub accept : AppendEntriesArgs → Raft → Option (AppendEntriesReply × Raft)
unfolding put_entries put_entry update_commit
accept args r = put_entries r args.entries >>= λ q. some (
  record empty_append_entries_reply {
    term = q.current_term;
    success = true;
    app_state = app_normal;
  },
  update_commit args.leader_commit q,
)

-- The comparison of the logs. If the request's position lies before the snapshot, the source fills
-- in a refusal and goes on to `matchLog` at that position.
pub compare_logs : AppendEntriesArgs → Raft → Option (AppendEntriesReply × Raft)
unfolding mismatch accept
compare_logs args r =
    if ltb (get_last_log_index r) args.prev_log_index
    then some (
      record {
        term = r.current_term;
        success = false;
        update_next_index = some (get_last_log_index r + 1);
        app_state = app_normal;
      },
      r,
    )
    else (match_log r args.prev_log_index args.prev_log_term >>= λ matches.
        if matches then accept args r else mismatch args r)

-- The node follows the sender, at the request's term, and its timer starts again.
abbrev pub follow : ℕ → ℕ → Raft → Raft
follow now term r = record (if ltb r.current_term term then step_down term r else r) {
  status = follower;
  last_reset_election_time = now;
}

module _ ⦃a : Archive⦄ where
  -- `Raft::AppendEntries` at time `now`.
  unfoldable pub append_entries : ℕ → AppendEntriesArgs → Raft → Option (AppendEntriesReply × Raft)
  unfolding compare_logs
  append_entries now args r =
      if ltb args.term r.current_term
      then some (
        record {
          term = r.current_term;
          success = false;
          update_next_index = none;
          app_state = app_normal;
        },
        r,
      )
      else (compare_logs args (follow now args.term r) >>= λ (reply, q). some (reply, persist q))

-- The entries behind position `i`: `for (j = i + 1; j < m_logs.size(); ++j)`, where a negative `j`
-- is compared as a large unsigned number.
abbrev pub entries_after : List LogEntry → ℤ → List LogEntry
entries_after logs (pos i) = drop (suc i) logs
entries_after logs (negsuc zero) = logs
entries_after logs (negsuc (suc _)) = []

pub append_entries_args : ℕ → Raft → Option AppendEntriesArgs
append_entries_args i r = get_prev_log_info r i >>= λ (pre_log_index, prev_log_term). some (record {
  term = r.current_term;
  leader_id = r.me;
  prev_log_index = pre_log_index;
  prev_log_term = prev_log_term;
  entries =
      if pre_log_index == r.last_snapshot_include_index
      then r.logs
      else entries_after r.logs (get_slices_index_from_log_index r pre_log_index);
  leader_commit = r.commit_index;
})

-- What `doHeartBeat` posts for node `i`: the snapshot, or the entries that it lacks.
pub heart_beat_to : ℕ → ℕ → ℕ → Raft → Option Raft
unfolding append_entries_args
heart_beat_to now c i r = get_elem? r.next_index i >>= λ next.
    if leb next r.last_snapshot_include_index
    then some (commit_with_timeout (leader_send_snapshot i) heart_beat_timeout now r)
    else (append_entries_args i r >>= λ args.
        some (commit_with_timeout (send_append_entries i args c) heart_beat_timeout now r))

-- The loop of `doHeartBeat` over the nodes `i`, `i + 1`, …, `i + n - 1`.
pub heart_beats : ℕ → ℕ → ℕ → ℕ → Raft → Option Raft
heart_beats zero i now c r = some r
heart_beats (suc n) i now c r =
    (if i == r.me then some r else heart_beat_to now c i r) >>= λ q. heart_beats n (i + 1) now c q

-- `Raft::doHeartBeat` at time `now`.
unfoldable pub do_heart_beat : ℕ → Raft → Option Raft
unfolding heart_beats heart_beat_to
do_heart_beat now r =
    if is_leader r.status
    then (heart_beats r.peers 0 now (length r.counters)
          (record r { counters = r.counters ++ 1 ∷ [] })
        >>= λ q. some (record q { last_reset_heart_beat_time = now }))
    else some r

-- `leaderHeartBeatTicker` after its sleep, which began at `wake`.
unfoldable pub heart_beat_time_out : ℕ → ℕ → Raft → Option Raft
unfolding do_heart_beat
heart_beat_time_out wake now r =
    if ltb wake r.last_reset_heart_beat_time then some r else do_heart_beat now r

abbrev pub is_disconnected : AppState → Bool
is_disconnected disconnected = true
is_disconnected app_normal = false

abbrev pub match_index_at : Raft → ℕ → ℕ
match_index_at r server = elim (get_elem? r.match_index server) [ none ↦ 0 | some i ↦ i ]

-- A majority has stored the entries of a request: the leader commits them if the last one is of its
-- own term.
pub commit_entries : AppendEntriesArgs → Raft → Raft
commit_entries args r =
    if ltb 0 (length args.entries) && (last_info 0 0 args.entries).1 == r.current_term
    then record r { commit_index = max r.commit_index (args.prev_log_index + length args.entries) }
    else r

pub count_append : ℕ → AppendEntriesArgs → ℕ → Raft → Raft
unfolding commit_entries
count_append server args c r =
    let matched = max (match_index_at r server) (args.prev_log_index + length args.entries) in
    let num = counter_at r c + 1 in
    let q = record r {
      match_index = set r.match_index server matched;
      next_index = set r.next_index server (matched + 1);
    } in
    if leb (1 + r.peers / 2) num
    then commit_entries args (record q { counters = set r.counters c 0 })
    else record q { counters = set r.counters c num }

-- A refusal moves the position at which the next request starts.
abbrev pub move_next_index : ℕ → Option ℕ → Raft → Raft
move_next_index server none r = r
move_next_index server (some i) r = record r { next_index = set r.next_index server i }

-- `Raft::sendAppendEntries` once the call has returned: `ok` says whether it went through.
unfoldable pub receive_append : ℕ → AppendEntriesArgs → ℕ → Bool → AppendEntriesReply → Raft → Raft
unfolding count_append
receive_append server args c ok reply r =
    if not ok
    then r
    else if is_disconnected reply.app_state
    then r
    else if ltb r.current_term reply.term
    then step_down reply.term r
    else if ltb reply.term r.current_term
    then r
    else if not (is_leader r.status)
    then r
    else if not reply.success
    then move_next_index server reply.update_next_index r
    else count_append server args c r
