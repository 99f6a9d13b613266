-- ===== src/Raft/Replication/Stored.antt =====
-- What a node holds that has accepted a request to append.
use native.Mathlib.Decide.{dec_lt, dec_le, ℕ_discrete}
use kvstorage_base_raft_cpp.Base.{
  ℕ, zero, suc, ◌+◌, ◌-◌, ◌≤◌, ◌<◌, ◌≡◌, refl, true, Option, none, some, List, [], ◌∷◌, arith,
  length, get_elem?, get_elem?-some,
}
use kvstorage_base_raft_cpp.Message.{LogEntry, AppendEntriesArgs, AppendEntriesReply}
use kvstorage_base_raft_cpp.Archive.{Archive}
use kvstorage_base_raft_cpp.Raft.{Raft, last_info, up_to_date, get_last_log_index_and_term}
use kvstorage_base_raft_cpp.Raft.Store.{persist}
use kvstorage_base_raft_cpp.Raft.Log.{Inv, get_log_term_from_log_index-some}
use kvstorage_base_raft_cpp.Raft.Replication.{append_entries}
use kvstorage_base_raft_cpp.Raft.Replication.Entries.{AllHold, Holds, Puts}
use kvstorage_base_raft_cpp.Raft.Replication.Follower.{
  refusing, following, compare_logs_behind, append_entries-of_compare,
}
use kvstorage_base_raft_cpp.Raft.Replication.Safety.{
  IsWellFormed, after_accept, append_entries_accepts, append_entries_mismatch,
  append_entries_before_snapshot,
}

AllHold-get_elem? :
    (s : ℕ) (old logs es : List LogEntry) (p : ℕ) (e : LogEntry)
    → AllHold s old logs es
    → get_elem? es p ≡ some e
    → Holds s old logs e
AllHold-get_elem? s old logs [] p e h at = absurd (cc)
AllHold-get_elem? s old logs (x ∷ es) zero e h at = let same : x ≡ e = cc in rw (← same) h.0
AllHold-get_elem? s old logs (x ∷ es) (suc p) e h at = AllHold-get_elem? s old logs es p e h.1 at

last_info-last :
    (i t : ℕ) (es : List LogEntry) (k : ℕ) (e : LogEntry)
    → get_elem? es k ≡ some e
    → suc k ≡ length es
    → last_info i t es ≡ (e.log_index, e.log_term)
unfolding last_info
last_info-last i t [] k e at len = absurd (cc)
last_info-last i t (x ∷ []) zero e at len = let same : x ≡ e = cc in rw (← same) refl
last_info-last i t (x ∷ []) (suc k) e at len = absurd (cc)
last_info-last i t (x ∷ y ∷ es) zero e at len = absurd (omega (arith, len))
last_info-last i t (x ∷ y ∷ es) (suc k) e at len =
    last_info-last x.log_index x.log_term (y ∷ es) k e at (omega (arith, len))

module _ ⦃a : Archive⦄ (now : ℕ) (args : AppendEntriesArgs) (r : Raft) (reply : AppendEntriesReply)
    (q : Raft) (inv : Inv r) (formed : IsWellFormed args)
    (answers : append_entries now args r ≡ some (reply, q)) (success : reply.success ≡ true) where
  -- The answer is no refusal.
  not_refused :
      (term : ℕ) (next : Option ℕ) (s : Raft)
      → ¬ (append_entries now args r ≡ some (refusing term next, s))
  not_refused term next s e =
      let same : reply ≡ refusing term next = ground (arith, answers, e) in
      ground (arith, same, success)

  success_term : r.current_term ≤ args.term
  unfolding append_entries
  success_term = elim (dec_lt args.term r.current_term) [
    | yes stale ↦ absurd (not_refused r.current_term none r (ground arith))
    | no newer ↦ omega arith
  ]

  success_behind : r.last_snapshot_include_index ≤ args.prev_log_index
  success_behind = elim (dec_lt args.prev_log_index r.last_snapshot_include_index) [
    | yes before ↦
        let fault = append_entries_before_snapshot now args r inv success_term before in absurd (cc)
    | no h ↦ omega arith
  ]

  success_near : args.prev_log_index ≤ r.last_snapshot_include_index + length r.logs
  success_near = elim (dec_le args.prev_log_index (r.last_snapshot_include_index + length r.logs)) [
    | yes near ↦ near
    | no far ↦ absurd (
        not_refused args.term (some (r.last_snapshot_include_index + length r.logs + 1))
          (persist (following now args.term r))
          (append_entries-of_compare now args r _ _ success_term
            (compare_logs_behind args (following now args.term r) inv.consecutive (omega arith))))
  ]

  -- The entries of the request are put, and what is behind them stays.
  success-Puts :
      (q.last_snapshot_include_index ≡ r.last_snapshot_include_index)
      × (q.last_snapshot_include_term ≡ r.last_snapshot_include_term)
      × Puts r.last_snapshot_include_index args.prev_log_index
          (args.prev_log_index + length args.entries)
          r.logs
          q.logs
      × AllHold r.last_snapshot_include_index r.logs q.logs args.entries
  unfolding persist
  success-Puts =
      let (t, found) =
        get_log_term_from_log_index-some r args.prev_log_index success_behind success_near in
      elim (ℕ_discrete t args.prev_log_term) [
        | yes same ↦
            let (new, e, puts, held) =
              append_entries_accepts now args r inv formed success_term success_behind success_near
                (rw (← same) found) in
            let at : after_accept now args r new ≡ q = ground (arith, answers, e) in
            rw (← at) (refl, refl, puts, held)
        | no differs ↦
            let (n, e, b) =
              append_entries_mismatch now args r inv t success_term success_near found differs in
            absurd (not_refused args.term (some n) _ e)
      ]

  -- An accepted request that ends before the node's last entry leaves that entry the last one, even
  -- where it overwrites entries before it with entries of a newer term: the node judges the logs of
  -- candidates as it did before.
  pub accepted_keeps_last :
      args.prev_log_index + length args.entries < r.last_snapshot_include_index + length r.logs
      → (index term : ℕ) → up_to_date q index term ≡ up_to_date r index term
  unfolding up_to_date get_last_log_index_and_term
  accepted_keeps_last shorter index term =
      let (snap, snap_term, puts, held) = success-Puts in
      let last = length r.logs - 1 in
      let (e, found) = get_elem?-some r.logs last (omega (arith, success_behind)) in
      let kept = puts.kept_after last e found (omega (arith, success_behind)) in
      let same_length : length q.logs ≡ length r.logs =
        omega (arith, puts.longer, puts.bounded, shorter) in
      let before =
        last_info-last r.last_snapshot_include_index r.last_snapshot_include_term r.logs last e
          found (omega (arith, success_behind)) in
      let after =
        last_info-last q.last_snapshot_include_index q.last_snapshot_include_term q.logs last e kept
          (omega (arith, success_behind, same_length)) in
      rw (before, after) refl

  pub success_stored :
      (p : ℕ) (e : LogEntry)
      → get_elem? args.entries p ≡ some e
      → (q.last_snapshot_include_index ≡ r.last_snapshot_include_index)
        × (r.last_snapshot_include_index ≤ args.prev_log_index)
        × Holds r.last_snapshot_include_index r.logs q.logs e
  success_stored p e at =
      let (same, same_term, puts, held) = success-Puts in
      (
        same,
        success_behind,
        AllHold-get_elem? r.last_snapshot_include_index r.logs q.logs args.entries p e held at,
      )
