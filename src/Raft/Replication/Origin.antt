-- ===== src/Raft/Replication/Origin.antt =====
-- Where the entries of a log come from that takes a request to append: the log before, and the
-- request.
use kvstorage_base_raft_cpp.Base.{
  ℕ, ◌≡◌, ◌++◌, ◌⊎◌, inl, inr, some, List, [], ◌∷◌, arith, All, All-append, All-set, >>=-eq-some,
  Bool-cases, ltb, ◌==◌, if◌then◌else◌, pos, negsuc, ℤ,
}
use kvstorage_base_raft_cpp.Message.{LogEntry, AppendEntriesArgs, AppendEntriesReply}
use kvstorage_base_raft_cpp.Archive.{Archive}
use kvstorage_base_raft_cpp.Raft.{
  Raft, get_last_log_index, get_slices_index_from_log_index, log_at, set_log,
}
use kvstorage_base_raft_cpp.Raft.Store.{persist}
use kvstorage_base_raft_cpp.Raft.Replication.{
  put_entry, put_entries, accept, mismatch, compare_logs, update_commit, follow, append_entries,
}

compare_logs-cases :
    (args : AppendEntriesArgs) (r : Raft) (reply : AppendEntriesReply) (q : Raft)
    → compare_logs args r ≡ some (reply, q)
    → (q ≡ r) ⊎ (accept args r ≡ some (reply, q))
unfolding compare_logs mismatch
compare_logs-cases args r reply q e = ground arith

module _ (P : LogEntry → Type 0) where
  set_log-All :
      (logs : List LogEntry) (i : ℤ) (log : LogEntry)
      → All P logs
      → P log
      → All P (set_log logs i log)
  set_log-All logs (pos i) log h p = All-set P logs i log h p
  set_log-All logs (negsuc i) log h p = h

  put_entry-All :
      (r : Raft) (log : LogEntry) (q : Raft)
      → All P r.logs
      → P log
      → put_entry r log ≡ some q
      → All P q.logs
  unfolding put_entry
  put_entry-All r log q h p e =
      let i = get_slices_index_from_log_index r log.log_index in
      elim (Bool-cases (ltb (get_last_log_index r) log.log_index)) [
        | inl behind ↦
            let same : q.logs ≡ r.logs ++ log ∷ [] = ground (arith, e) in
            rw same (All-append P r.logs (log ∷ []) h (p, tt))
        | inr inside ↦
            let (old, found, rest) =
              >>=-eq-some (log_at r.logs i)
                (λ (old : LogEntry). some (
                  if old.log_term == log.log_term
                  then r
                  else record r { logs = set_log r.logs i log }))
                {b = q} (ground (arith, e)) in
            elim (Bool-cases (old.log_term == log.log_term)) [
              | inl same_term ↦ let same : q.logs ≡ r.logs = ground (arith, rest) in rw same h
              | inr other ↦
                  let same : q.logs ≡ set_log r.logs i log = ground (arith, rest) in
                  rw same (set_log-All r.logs i log h p)
            ]
      ]

  put_entries-All :
      (es : List LogEntry) (r q : Raft)
      → All P r.logs
      → All P es
      → put_entries r es ≡ some q
      → All P q.logs
  unfolding put_entries
  put_entries-All [] r q h k e = let same : r ≡ q = cc in rw (← same) h
  put_entries-All (log ∷ es) r q h k e =
      let (s, first, rest) = >>=-eq-some (put_entry r log) (λ q. put_entries q es) e in
      put_entries-All es s q (put_entry-All r log s h k.0 first) k.1 rest

  accept-All :
      (args : AppendEntriesArgs) (r : Raft) (reply : AppendEntriesReply) (q : Raft)
      → All P r.logs
      → All P args.entries
      → accept args r ≡ some (reply, q)
      → All P q.logs
  unfolding accept update_commit
  accept-All args r reply q h k e =
      let (s, put, rest) = >>=-eq-some (put_entries r args.entries) _ e in
      let same : q.logs ≡ s.logs = ground arith in
      rw same (put_entries-All args.entries r s h k put)

  compare_logs-All :
      (args : AppendEntriesArgs) (r : Raft) (reply : AppendEntriesReply) (q : Raft)
      → All P r.logs
      → All P args.entries
      → compare_logs args r ≡ some (reply, q)
      → All P q.logs
  unfolding compare_logs mismatch
  compare_logs-All args r reply q h k e = elim (compare_logs-cases args r reply q e) [
    | inl same ↦ rw same h
    | inr accepted ↦ accept-All args r reply q h k accepted
  ]

  module _ ⦃a : Archive⦄ where
    pub append_entries-All :
        (now : ℕ) (args : AppendEntriesArgs) (r : Raft) (reply : AppendEntriesReply) (q : Raft)
        → All P r.logs
        → All P args.entries
        → append_entries now args r ≡ some (reply, q)
        → All P q.logs
    unfolding append_entries persist
    append_entries-All now args r reply q h k e = elim (Bool-cases (ltb args.term r.current_term)) [
      | inl stale ↦ let same : q ≡ r = ground (arith, e) in rw same h
      | inr newer ↦
          let ((reply', s), compared, rest) =
            >>=-eq-some {B = AppendEntriesReply × Raft} (compare_logs args (follow now args.term r))
              (λ (reply, q). some (reply, persist q)) {b = (reply, q)} (ground (arith, e)) in
          let logs : (follow now args.term r).logs ≡ r.logs = ground arith in
          let same : q.logs ≡ s.logs = ground (arith, rest) in
          rw same (compare_logs-All args (follow now args.term r) reply' s (rw logs h) k compared)
    ]
