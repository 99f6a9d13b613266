-- ===== src/Raft/Snapshot/Origin.antt =====
-- A log that is cut keeps entries of the log before.
use kvstorage_base_raft_cpp.Base.{
  ℕ, zero, suc, ◌+◌, ◌-◌, ◌≡◌, inl, inr, some, List, [], ◌∷◌, Bytes, arith, All, All-drop,
  All-get_elem?, >>=-eq-some, Bool-cases, ltb, leb, ◌||◌, pos, negsuc, ℤ, drop,
}
use kvstorage_base_raft_cpp.Message.{LogEntry, InstallSnapshotRequest, InstallSnapshotResponse}
use kvstorage_base_raft_cpp.Archive.{Archive}
use kvstorage_base_raft_cpp.Persister.{save}
use kvstorage_base_raft_cpp.Raft.{Raft, get_last_log_index, get_slices_index_from_log_index, log_at}
use kvstorage_base_raft_cpp.Raft.Store.{persist, persist_data}
use kvstorage_base_raft_cpp.Raft.Snapshot.{
  truncked_logs, compact, take_snapshot, erase_through, logs_behind, adopt, adopt_snapshot,
  follow_snapshot, install_snapshot,
}

module _ (P : LogEntry → Type 0) where
  log_at-All :
      (logs : List LogEntry) (i : ℤ) (log : LogEntry)
      → All P logs
      → log_at logs i ≡ some log
      → P log
  log_at-All logs (pos i) log h e = All-get_elem? P logs i log h e
  log_at-All logs (negsuc i) log h e = absurd (cc)

  truncked_logs-All :
      (r : Raft) (n i : ℕ) (logs : List LogEntry)
      → All P r.logs
      → truncked_logs r n i ≡ some logs
      → All P logs
  unfolding truncked_logs
  truncked_logs-All r zero i logs h e = let same : [] ≡ logs = cc in rw (← same) tt
  truncked_logs-All r (suc n) i logs h e =
      let (log, found, rest) =
        >>=-eq-some (log_at r.logs (get_slices_index_from_log_index r i)) _ e in
      let (more, left, last) =
        >>=-eq-some (truncked_logs r n (i + 1)) (λ logs. some (log ∷ logs)) rest in
      let same : log ∷ more ≡ logs = cc in
      rw (← same) (log_at-All r.logs _ log h found, truncked_logs-All r n (i + 1) more h left)

  compact-All : (i : ℕ) (r q : Raft) → All P r.logs → compact i r ≡ some q → All P q.logs
  unfolding compact
  compact-All i r q h e =
      let (log, found, rest) =
        >>=-eq-some (log_at r.logs (get_slices_index_from_log_index r i)) _ e in
      let (logs, left, last) =
        >>=-eq-some (truncked_logs r (get_last_log_index r - i) (i + 1)) _ rest in
      let same : q.logs ≡ logs = ground arith in rw same (truncked_logs-All r _ _ logs h left)

  erase_through-All :
      (logs : List LogEntry) (i : ℤ) (left : List LogEntry)
      → All P logs
      → erase_through logs i ≡ some left
      → All P left
  erase_through-All logs (pos i) left h e =
      let same : left ≡ drop (suc i) logs = ground arith in rw same (All-drop P (suc i) logs h)
  erase_through-All logs (negsuc zero) left h e = let same : logs ≡ left = cc in rw (← same) h
  erase_through-All logs (negsuc (suc i)) left h e = absurd (cc)

  logs_behind-All :
      (args : InstallSnapshotRequest) (r : Raft) (logs : List LogEntry)
      → All P r.logs
      → logs_behind args r ≡ some logs
      → All P logs
  unfolding logs_behind
  logs_behind-All args r logs h e =
      elim (Bool-cases (ltb args.last_snapshot_include_index (get_last_log_index r))) [
        | inl longer ↦
            erase_through-All r.logs
              (get_slices_index_from_log_index r args.last_snapshot_include_index) logs h
              (ground (arith, e))
        | inr shorter ↦ let same : logs ≡ [] = ground (arith, e) in rw same tt
      ]

  module _ ⦃a : Archive⦄ where
    pub take_snapshot-All :
        (i : ℕ) (snapshot : Bytes) (r q : Raft)
        → All P r.logs
        → take_snapshot i snapshot r ≡ some q
        → All P q.logs
    unfolding take_snapshot
    take_snapshot-All i snapshot r q h e =
        elim (Bool-cases (leb i r.last_snapshot_include_index || ltb r.commit_index i)) [
          | inl refused ↦ let same : q ≡ r = ground (arith, e) in rw same h
          | inr taken ↦
              let (s, cut, rest) =
                >>=-eq-some (compact i r)
                  (λ q. some (record q { persister = save (persist_data q) snapshot q.persister }))
                  {b = q} (ground (arith, e)) in
              let same : q.logs ≡ s.logs = ground (arith, rest) in rw same (compact-All i r s h cut)
        ]

    adopt-All :
        (args : InstallSnapshotRequest) (r : Raft) (reply : InstallSnapshotResponse) (q : Raft)
        → All P r.logs
        → adopt args r ≡ some (reply, q)
        → All P q.logs
    unfolding adopt adopt_snapshot
    adopt-All args r reply q h e =
        elim (Bool-cases (leb args.last_snapshot_include_index r.last_snapshot_include_index)) [
          | inl old ↦ let same : q ≡ r = ground (arith, e) in rw same h
          | inr newer ↦
              let (logs, behind, rest) =
                >>=-eq-some {B = InstallSnapshotResponse × Raft} (logs_behind args r)
                  (λ logs.
                    let q = adopt_snapshot args logs r in
                    some (
                      record { term = q.current_term },
                      record q { persister = save (persist_data q) args.snapshot q.persister },
                    ))
                  {b = (reply, q)} (ground (arith, e)) in
              let same : q.logs ≡ logs = ground (arith, rest) in
              rw same (logs_behind-All args r logs h behind)
        ]

    pub install_snapshot-All :
        (now : ℕ) (args : InstallSnapshotRequest) (r : Raft) (reply : InstallSnapshotResponse)
        (q : Raft)
        → All P r.logs
        → install_snapshot now args r ≡ some (reply, q)
        → All P q.logs
    unfolding install_snapshot follow_snapshot persist
    install_snapshot-All now args r reply q h e = elim (Bool-cases (ltb args.term r.current_term)) [
      | inl stale ↦ let same : q ≡ r = ground (arith, e) in rw same h
      | inr newer ↦
          let logs : (follow_snapshot now args.term r).logs ≡ r.logs = ground arith in
          adopt-All args (follow_snapshot now args.term r) reply q (rw logs h) (ground (arith, e))
    ]
