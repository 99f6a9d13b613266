-- ===== src/Raft/Snapshot/Compact.antt =====
-- `Raft::Snapshot`: the log is cut at the index that the key-value server has snapshot.
use native.Mathlib.Decide.{dec_lt, ℕ_discrete}
use kvstorage_base_raft_cpp.Base.{
  ℕ, zero, suc, ◌+◌, ◌-◌, ◌≤◌, ◌<◌, ◌≡◌, ◌⊎◌, inl, inr, refl, sym, ap, ◌∙◌, some, Bytes, arith,
  get_elem?, drop, length, length-drop, get_elem?-some, get_elem?-drop, drop-get_elem?, drop_all,
  max,
}
use kvstorage_base_raft_cpp.Message.{LogEntry}
use kvstorage_base_raft_cpp.Archive.{Archive}
use kvstorage_base_raft_cpp.Persister.{save}
use kvstorage_base_raft_cpp.Raft.{
  Raft, log_at, get_slices_index_from_log_index, get_log_term_from_log_index,
}
use kvstorage_base_raft_cpp.Raft.Store.{persist_data}
use kvstorage_base_raft_cpp.Raft.Log.{
  Inv, get_last_log_index_lem, log_at_lem, IsConsecutive-drop, IsConsecutive-at,
}
use kvstorage_base_raft_cpp.Raft.Progress.{Onward, Onward-refl, Onward-trans, Aside-Onward}
use kvstorage_base_raft_cpp.Raft.Snapshot.{truncked_logs, compact, take_snapshot}

-- The loop collects the entries from position `k` on.
truncked_logs-drop :
    (r : Raft) (n k i : ℕ)
    → k + n ≡ length r.logs
    → i ≡ suc (r.last_snapshot_include_index + k)
    → truncked_logs r n i ≡ some (drop k r.logs)
unfolding truncked_logs
truncked_logs-drop r zero k i e at = ap some (sym (drop_all k r.logs (omega arith)))
truncked_logs-drop r (suc n) k i e at =
    let (log, found) = get_elem?-some r.logs k (omega arith) in
    let place : log_at r.logs (get_slices_index_from_log_index r i) ≡ some log =
      log_at_lem r i (omega arith) ∙ ap (get_elem? r.logs) (omega arith) ∙ found in
    rw (place, truncked_logs-drop r n (suc k) (i + 1) (omega arith) (omega arith))
      (ap some (sym (drop-get_elem? k r.logs log found)))

-- The node after its log was cut at `i`.
abbrev pub cut : ℕ → LogEntry → Raft → Raft
cut i log r = record r {
  last_snapshot_include_index = i;
  last_snapshot_include_term = log.log_term;
  logs = drop (i - r.last_snapshot_include_index) r.logs;
  commit_index = max r.commit_index i;
  last_applied = max r.last_applied i;
}

module _ (r : Raft) (inv : Inv r) (i : ℕ) (behind : r.last_snapshot_include_index < i)
    (committed : i ≤ r.commit_index) where
  cut_entry :
      (log : LogEntry) × (get_elem? r.logs (i - suc r.last_snapshot_include_index) ≡ some log)
  cut_entry =
      get_elem?-some r.logs (i - suc r.last_snapshot_include_index) (omega (arith, inv.committed))

  compact-cut : compact i r ≡ some (cut i cut_entry.0 r)
  unfolding compact
  compact-cut =
      rw
        (
          log_at_lem r i behind,
          cut_entry.1,
          get_last_log_index_lem r inv.consecutive,
          truncked_logs-drop r (r.last_snapshot_include_index + length r.logs - i)
              (i - r.last_snapshot_include_index) (i + 1) (omega (arith, inv.committed))
              (omega arith),
        )
        refl

  cut-Onward : (log : LogEntry) → Onward r (cut i log r)
  cut-Onward log = record {
    inv_kept = record {
      consecutive = IsConsecutive-at _ (omega arith) (
          IsConsecutive-drop (i - r.last_snapshot_include_index) _ r.logs inv.consecutive
            (omega (arith, inv.committed)));
      compacted = omega arith;
      applied = omega (arith, inv.applied);
      committed =
          omega (arith, inv.committed, length-drop (i - r.last_snapshot_include_index) r.logs);
    };
    snapshot_grows = omega arith;
    applied_grows = omega arith;
    commit_grows = omega arith;
    log_grows =
        omega (arith, inv.committed, length-drop (i - r.last_snapshot_include_index) r.logs);
  }

  -- The terms from `i` on are those of the whole log.
  cut-get_log_term :
      (log : LogEntry)
      → get_elem? r.logs (i - suc r.last_snapshot_include_index) ≡ some log
      → (j : ℕ) → i ≤ j
      → get_log_term_from_log_index (cut i log r) j ≡ get_log_term_from_log_index r j
  unfolding get_log_term_from_log_index
  cut-get_log_term log found j le = elim (ℕ_discrete j i) [
    | yes here ↦ rw here (ground (arith, log_at_lem r i behind, found))
    | no further ↦
        let place : (i - r.last_snapshot_include_index) + (j - suc i)
            ≡ j - suc r.last_snapshot_include_index =
          omega arith in
        ground (
          arith,
          log_at_lem r j (omega arith),
          log_at_lem (cut i log r) j (omega arith),
          get_elem?-drop (i - r.last_snapshot_include_index) (j - suc i) r.logs,
          ap (get_elem? r.logs) place,
        )
  ]

module _ ⦃a : Archive⦄ (i : ℕ) (snapshot : Bytes) (r : Raft) (inv : Inv r) where
  -- The node as `Snapshot` leaves and stores it.
  abbrev pub saved : Raft → Raft
  saved q = record q { persister = save (persist_data q) snapshot q.persister }

  -- A snapshot of an index that is behind the last snapshot and committed is taken: no read leaves
  -- the log, the node stays in order and no position goes back, the snapshot's index is the one
  -- given, and the state and the snapshot are saved.
  pub take_snapshot_lem :
      r.last_snapshot_include_index < i
      → i ≤ r.commit_index
      → (q : Raft) × (take_snapshot i snapshot r ≡ some (saved q))
        × Onward r q
        × (q.last_snapshot_include_index ≡ i)
  unfolding take_snapshot
  take_snapshot_lem behind committed =
      let (log, found) = cut_entry r inv i behind committed in
      (
        cut i log r,
        ground (arith, compact-cut r inv i behind committed),
        cut-Onward r inv i behind committed log,
        refl,
      )

  -- Every index from the snapshot's on has the term in the shorter log that it had before.
  pub take_snapshot-get_log_term :
      (q : Raft) (j : ℕ)
      → r.last_snapshot_include_index < i
      → i ≤ r.commit_index
      → take_snapshot i snapshot r ≡ some q
      → i ≤ j
      → get_log_term_from_log_index q j ≡ get_log_term_from_log_index r j
  unfolding take_snapshot get_log_term_from_log_index
  take_snapshot-get_log_term q j behind committed e le =
      let (log, found) = cut_entry r inv i behind committed in
      let same : saved (cut i log r) ≡ q =
        ground (arith, compact-cut r inv i behind committed, e) in
      ap (λ (x : Raft). get_log_term_from_log_index x j) (sym same)
      ∙ cut-get_log_term r inv i behind committed log found j le

  -- Any other snapshot is refused, and changes nothing.
  take_snapshot_refused :
      (i ≤ r.last_snapshot_include_index) ⊎ (r.commit_index < i)
      → take_snapshot i snapshot r ≡ some r
  unfolding take_snapshot
  take_snapshot_refused h = ground arith

  saved-Onward : (q : Raft) → Onward r q → Onward r (saved q)
  saved-Onward q o = Onward-trans o (
      Aside-Onward {r = q} {q = saved q}
        (record {
          same_snapshot = refl;
          same_logs = refl;
          same_applied = refl;
          same_commit = refl;
          same_chan = refl;
          same_msgs = refl;
        })
        o.inv_kept)

  pub take_snapshot-Onward : (q : Raft) → take_snapshot i snapshot r ≡ some q → Onward r q
  take_snapshot-Onward q e = elim (dec_lt r.last_snapshot_include_index i) [
    | no old ↦
        let same : r ≡ q = cc (take_snapshot_refused (inl (omega arith))) in
        rw (← same) (Onward-refl r inv)
    | yes behind ↦ elim (dec_lt r.commit_index i) [
      | yes early ↦
          let same : r ≡ q = cc (take_snapshot_refused (inr early)) in
          rw (← same) (Onward-refl r inv)
      | no committed ↦
          let (s, taken, onward, at) = take_snapshot_lem behind (omega arith) in
          let same : saved s ≡ q = cc in rw (← same) (saved-Onward s onward)
    ]
  ]

  -- `Snapshot` always returns.
  pub take_snapshot-total : (q : Raft) × (take_snapshot i snapshot r ≡ some q)
  take_snapshot-total = elim (dec_lt r.last_snapshot_include_index i) [
    | no old ↦ (r, take_snapshot_refused (inl (omega arith)))
    | yes behind ↦ elim (dec_lt r.commit_index i) [
      | yes early ↦ (r, take_snapshot_refused (inr early))
      | no committed ↦
          let (s, taken, onward, at) = take_snapshot_lem behind (omega arith) in (saved s, taken)
    ]
  ]
