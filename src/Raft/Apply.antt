-- ===== src/Raft/Apply.antt =====
-- `getApplyLogs`, one round of `applierTicker`, and `leaderUpdateCommitIndex` of raftCore/raft.cc.
pub mod Order
use kvstorage_base_raft_cpp.Base.{
  ℕ, zero, suc, ◌+◌, ◌-◌, ◌/◌, true, Option, some, List, [], ◌∷◌, ◌++◌, leb, ◌==◌, if◌then◌else◌,
  ◌>>=◌,
}
use kvstorage_base_raft_cpp.Message.{LogEntry, ApplyMsg, empty_apply_msg}
use kvstorage_base_raft_cpp.Raft.{
  Raft, get_last_log_index, get_slices_index_from_log_index, log_at, get_log_term_from_log_index,
}
use kvstorage_base_raft_cpp.Raft.Replication.{match_index_at}

abbrev pub command_msg : ℕ → LogEntry → ApplyMsg
command_msg i log = record empty_apply_msg {
  command_valid = true;
  command = log.command;
  command_index = some i;
}

-- The loop `while (m_lastApplied < m_commitIndex)`, with the rounds that are left: the messages
-- behind those collected so far.
pub apply_logs : ℕ → List ApplyMsg → Raft → Option (List ApplyMsg × Raft)
apply_logs zero msgs r = some (msgs, r)
apply_logs (suc n) msgs r =
    let i = r.last_applied + 1 in
    log_at r.logs (get_slices_index_from_log_index r i) >>= λ log.
    apply_logs n (msgs ++ command_msg i log ∷ []) (record r { last_applied = i })

-- `Raft::getApplyLogs`.
unfoldable pub get_apply_logs : Raft → Option (List ApplyMsg × Raft)
unfolding apply_logs
get_apply_logs r = apply_logs (r.commit_index - r.last_applied) [] r

-- `applierTicker` under the mutex: it takes what `getApplyLogs` gives, when it has pushed all that it
-- took before.
unfoldable pub applier_tick : Raft → Option Raft
unfolding get_apply_logs
applier_tick r = get_apply_logs r >>= λ (msgs, q). some (record q { apply_msgs = msgs })

-- `applierTicker` after it has let the mutex go: the next message goes to the channel that the
-- key-value server reads.
unfoldable pub push_message : Raft → Raft
push_message r = elim r.apply_msgs [
  | [] ↦ r
  | message ∷ messages ↦ record r {
    apply_msgs = messages;
    apply_chan = r.apply_chan ++ message ∷ [];
  }
]

-- The nodes among `i`, …, `i + n - 1` that have stored entry `index`, and the node itself.
pub count_matching : ℕ → ℕ → ℕ → Raft → ℕ
count_matching zero i index r = 0
count_matching (suc n) i index r =
    (if i == r.me then 1 else if leb index (match_index_at r i) then 1 else 0)
    + count_matching n (i + 1) index r

-- The loop of `leaderUpdateCommitIndex`, from `index = snapshot + n` down.
pub commit_downwards : ℕ → Raft → Option Raft
commit_downwards zero r = some r
commit_downwards (suc n) r =
    let index = r.last_snapshot_include_index + suc n in
    let rest = commit_downwards n r in
    if leb (r.peers / 2 + 1) (count_matching r.peers 0 index r)
    then (get_log_term_from_log_index r index >>= λ term.
        if term == r.current_term then some (record r { commit_index = index }) else rest)
    else rest

-- `Raft::leaderUpdateCommitIndex`, which nothing calls.
unfoldable pub leader_update_commit_index : Raft → Option Raft
unfolding commit_downwards count_matching
leader_update_commit_index r =
    commit_downwards (get_last_log_index r - r.last_snapshot_include_index)
      (record r { commit_index = r.last_snapshot_include_index })
