-- ===== src/Raft/Apply/Order.antt =====
-- What `getApplyLogs` hands on, and in which order.
use kvstorage_base_raft_cpp.Base.{
  ℕ, zero, suc, ◌+◌, ◌-◌, ◌≤◌, ◌≡◌, ◌⊎◌, inl, inr, refl, sym, ap, ◌∙◌, some, List, [], ◌∷◌, ◌++◌,
  arith, get_elem?, length, get_elem?-some,
}
use mathlib.Core.List.{append-nil, append_assoc}
use kvstorage_base_raft_cpp.Message.{LogEntry, ApplyMsg}
use kvstorage_base_raft_cpp.Raft.{Raft, log_at, get_slices_index_from_log_index}
use kvstorage_base_raft_cpp.Raft.Log.{Inv, log_at_lem}
use kvstorage_base_raft_cpp.Raft.Progress.{Onward}
use kvstorage_base_raft_cpp.Raft.Apply.{
  command_msg, apply_logs, get_apply_logs, applier_tick, push_message,
}

-- The messages of the entries of the indices `i + 1`, …, `i + n`: one for each, in this order, with
-- the command that the log holds there.
abbrev pub Commands : Raft → ℕ → ℕ → List ApplyMsg → Type 0
Commands r zero i msgs = msgs ≡ []
Commands r (suc n) i msgs =
    (log : LogEntry) × (rest : List ApplyMsg) × (get_elem? r.logs
        (i - r.last_snapshot_include_index)
      ≡ some log)
    × (msgs ≡ command_msg (i + 1) log ∷ rest)
    × Commands r n (i + 1) rest

apply_logs-Commands :
    (n : ℕ) (before : List ApplyMsg) (r : Raft) (i : ℕ)
    → r.last_snapshot_include_index ≤ i
    → i + n ≤ r.last_snapshot_include_index + length r.logs
    → (msgs : List ApplyMsg) × (apply_logs n before (record r { last_applied = i })
        ≡ some (before ++ msgs, record r { last_applied = i + n }))
      × Commands r n i msgs
unfolding apply_logs
apply_logs-Commands zero before r i lo hi =
    let same : i ≡ i + 0 = omega arith in ([], rw (append-nil before, ← same) refl, refl)
apply_logs-Commands (suc n) before r i lo hi =
    let (log, found) = get_elem?-some r.logs (i - r.last_snapshot_include_index) (omega arith) in
    let position : (i + 1) - suc r.last_snapshot_include_index ≡ i - r.last_snapshot_include_index =
      omega arith in
    let place : log_at r.logs (get_slices_index_from_log_index r (i + 1)) ≡ some log =
      log_at_lem r (i + 1) (omega arith) ∙ ap (get_elem? r.logs) position ∙ found in
    let (rest, loop, commands) =
      apply_logs-Commands n (before ++ command_msg (i + 1) log ∷ []) r (i + 1) (omega arith)
        (omega arith) in
    let count : i + 1 + n ≡ i + suc n = omega arith in
    (
      command_msg (i + 1) log ∷ rest,
      rw (place, loop, append_assoc before (command_msg (i + 1) log ∷ []) rest, count) refl,
      (log, rest, found, refl, commands),
    )

module _ (r : Raft) (inv : Inv r) where
  -- A node in order hands on the commands behind the last one it applied up to its commit index, one
  -- message for each index and in order: no read leaves the log, and all that is committed counts as
  -- applied afterwards.
  pub get_apply_logs_lem :
      (msgs : List ApplyMsg) × (get_apply_logs r
        ≡ some (msgs, record r { last_applied = r.commit_index }))
      × Commands r (r.commit_index - r.last_applied) r.last_applied msgs
  unfolding get_apply_logs
  get_apply_logs_lem =
      let (msgs, loop, commands) =
        apply_logs-Commands (r.commit_index - r.last_applied) [] r r.last_applied inv.compacted
          (omega (arith, inv.applied, inv.committed)) in
      let all : r.last_applied + (r.commit_index - r.last_applied) ≡ r.commit_index =
        omega (arith, inv.applied) in
      (msgs, loop ∙ ap (λ n. some (msgs, record r { last_applied = n })) all, commands)

  pub applier_tick_lem :
      (msgs : List ApplyMsg) × (applier_tick r
        ≡ some (record r { last_applied = r.commit_index; apply_msgs = msgs }))
      × Commands r (r.commit_index - r.last_applied) r.last_applied msgs
  unfolding applier_tick
  applier_tick_lem = let (msgs, e, commands) = get_apply_logs_lem in (msgs, rw e refl, commands)

  pub applier_tick-Onward : (q : Raft) → applier_tick r ≡ some q → Onward r q
  applier_tick-Onward q e =
      let (msgs, e', commands) = applier_tick_lem in
      let same : record r { last_applied = r.commit_index; apply_msgs = msgs } ≡ q = cc in
      rw (← same) (record {
        inv_kept = record {
          consecutive = inv.consecutive;
          compacted = omega (arith, inv.compacted, inv.applied);
          applied = omega arith;
          committed = inv.committed;
        };
        snapshot_grows = omega arith;
        applied_grows = inv.applied;
        commit_grows = omega arith;
        log_grows = omega arith;
      })

-- What `push_message` does.
pub push_message-cases :
    (r : Raft)
    → ((r.apply_msgs ≡ []) × (push_message r ≡ r))
      ⊎ ((message : ApplyMsg) × (messages : List ApplyMsg) × (r.apply_msgs ≡ message ∷ messages)
          × (push_message r
              ≡ record r { apply_msgs = messages; apply_chan = r.apply_chan ++ message ∷ [] }))
unfolding push_message
push_message-cases r = cases r.apply_msgs refl
  where
    cases :
        (ms : List ApplyMsg)
        → r.apply_msgs ≡ ms
        → ((r.apply_msgs ≡ []) × (push_message r ≡ r))
          ⊎ ((message : ApplyMsg) × (messages : List ApplyMsg) × (r.apply_msgs ≡ message ∷ messages)
              × (push_message r
                  ≡ record r { apply_msgs = messages; apply_chan = r.apply_chan ++ message ∷ [] }))
    cases [] e = inl (e, rw e refl)
    cases (message ∷ messages) e = inr (message, messages, e, rw e refl)

-- A message that is pushed leaves the node's log, term, vote, positions, tasks and counters alone.
abbrev pub SameNode : Raft → Raft → Type 0
SameNode r q = q ≡ record r { apply_msgs = q.apply_msgs; apply_chan = q.apply_chan }

pub push_message-SameNode : (r : Raft) → SameNode r (push_message r)
push_message-SameNode r = elim (push_message-cases r) [
  | inl (empty, same) ↦
      same
      ∙ ap (λ (x : Raft). record r { apply_msgs = x.apply_msgs; apply_chan = x.apply_chan })
          (sym same)
  | inr (m, ms, full, same) ↦
      same
      ∙ ap (λ (x : Raft). record r { apply_msgs = x.apply_msgs; apply_chan = x.apply_chan })
          (sym same)
]
