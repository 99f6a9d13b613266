-- ===== src/Raft/Replication/HeartBeat.antt =====
-- What `doHeartBeat` posts.
use native.Mathlib.Decide.{ℕ_discrete}
use kvstorage_base_raft_cpp.Base.{
  ℕ, suc, ◌+◌, ◌-◌, ◌≤◌, ◌<◌, ◌≡◌, refl, ap, some, arith, get_elem?, drop, length, length-drop,
  get_elem?-some, sub_ℕ_le,
}
use kvstorage_base_raft_cpp.Message.{LogEntry, AppendEntriesArgs}
use kvstorage_base_raft_cpp.Raft.{Raft, get_prev_log_info, get_log_term_from_log_index, log_at}
use kvstorage_base_raft_cpp.Raft.Log.{Inv, IsConsecutive-at, IsConsecutive-drop, log_at_lem}
use kvstorage_base_raft_cpp.Raft.Replication.{entries_after, append_entries_args}
use kvstorage_base_raft_cpp.Raft.Replication.Safety.{IsWellFormed}

-- A request that carries all of a node's log behind its position.
pub record Carries (r : Raft) (args : AppendEntriesArgs) : Type 0 where
  pub of_term : args.term ≡ r.current_term
  pub of_commit : args.leader_commit ≡ r.commit_index
  pub not_before : r.last_snapshot_include_index ≤ args.prev_log_index
  pub rest : args.entries ≡ drop (args.prev_log_index - r.last_snapshot_include_index) r.logs
  pub well_formed : IsWellFormed args
  pub to_the_end :
      args.prev_log_index + length args.entries ≡ r.last_snapshot_include_index + length r.logs
  pub true_term : get_log_term_from_log_index r args.prev_log_index ≡ some args.prev_log_term

module _ (r : Raft) (inv : Inv r) (i next : ℕ) (at : get_elem? r.next_index i ≡ some next)
    (behind : r.last_snapshot_include_index < next)
    (near : next ≤ suc (r.last_snapshot_include_index + length r.logs)) where
  abbrev request : ℕ → AppendEntriesArgs
  request prev_log_term = record {
    term = r.current_term;
    leader_id = r.me;
    prev_log_index = next - 1;
    prev_log_term = prev_log_term;
    entries = drop (next - 1 - r.last_snapshot_include_index) r.logs;
    leader_commit = r.commit_index;
  }

  request-Carries :
      (t : ℕ) → get_log_term_from_log_index r (next - 1) ≡ some t → Carries r (request t)
  request-Carries t found = record {
    of_term = refl;
    of_commit = refl;
    not_before = omega arith;
    rest = refl;
    well_formed = IsConsecutive-at _ (omega arith) (
        IsConsecutive-drop (next - 1 - r.last_snapshot_include_index) _ r.logs inv.consecutive
          (omega arith));
    to_the_end = omega (arith, length-drop (next - 1 - r.last_snapshot_include_index) r.logs);
    true_term = found;
  }

  first_request :
      next ≡ r.last_snapshot_include_index + 1
      → append_entries_args i r ≡ some (request r.last_snapshot_include_term)
  unfolding append_entries_args get_prev_log_info
  first_request e =
      let prev : next - 1 ≡ r.last_snapshot_include_index = omega arith in
      let none_skipped : next - 1 - r.last_snapshot_include_index ≡ 0 = omega arith in
      ground (arith, at, prev, ap (λ n. drop n r.logs) none_skipped)

  later_request :
      (log : LogEntry)
      → get_elem? r.logs (next - 1 - suc r.last_snapshot_include_index) ≡ some log
      → suc r.last_snapshot_include_index < next
      → append_entries_args i r ≡ some (request log.log_term)
  unfolding append_entries_args get_prev_log_info
  later_request log found later =
      let place = sub_ℕ_le (next - 1) (suc r.last_snapshot_include_index) (omega arith) in
      let count : suc (next - 1 - suc r.last_snapshot_include_index)
          ≡ next - 1 - r.last_snapshot_include_index =
        omega arith in
      ground (
        arith,
        at,
        found,
        ap (log_at r.logs) place,
        ap (entries_after r.logs) place,
        ap (λ n. drop n r.logs) count,
      )

  pub append_entries_args-Carries :
      (args : AppendEntriesArgs) × (append_entries_args i r ≡ some args)
      × (args.prev_log_index ≡ next - 1)
      × Carries r args
  unfolding get_log_term_from_log_index
  append_entries_args-Carries = elim (ℕ_discrete next (r.last_snapshot_include_index + 1)) [
    | yes first ↦ (
      request r.last_snapshot_include_term,
      first_request first,
      refl,
      request-Carries r.last_snapshot_include_term (ground arith),
    )
    | no further ↦
        let (log, found) =
          get_elem?-some r.logs (next - 1 - suc r.last_snapshot_include_index) (omega arith) in
        (
          request log.log_term,
          later_request log found (omega arith),
          refl,
          request-Carries log.log_term
              (ground (arith, found, log_at_lem r (next - 1) (omega arith))),
        )
  ]
