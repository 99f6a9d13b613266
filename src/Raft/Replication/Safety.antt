-- ===== src/Raft/Replication/Safety.antt =====
-- `AppendEntries` on a node whose state is in order, branch by branch.
use native.Mathlib.Decide.{dec_lt, dec_le, ℕ_discrete}
use kvstorage_base_raft_cpp.Base.{
  ℕ, suc, ◌+◌, ◌≤◌, ◌<◌, ◌≡◌, ◌≢◌, refl, ap, ◌∙◌, Option, none, some, List, arith, length, min, max,
}
use kvstorage_base_raft_cpp.Message.{LogEntry, AppendEntriesArgs, AppendEntriesReply}
use kvstorage_base_raft_cpp.Archive.{Archive}
use kvstorage_base_raft_cpp.Raft.{Raft, get_log_term_from_log_index}
use kvstorage_base_raft_cpp.Raft.Store.{persist}
use kvstorage_base_raft_cpp.Raft.Log.{
  Inv, IsConsecutive, get_last_log_index_lem, get_log_term_from_log_index-some,
}
use kvstorage_base_raft_cpp.Raft.Replication.{update_commit, append_entries}
use kvstorage_base_raft_cpp.Raft.Replication.BackUp.{BacksUp}
use kvstorage_base_raft_cpp.Raft.Replication.Entries.{Puts, AllHold}
use kvstorage_base_raft_cpp.Raft.Replication.Follower.{
  accepted, accepting, refusing, following, compare_logs_accepts, compare_logs_mismatch,
  compare_logs_behind, compare_logs_before, append_entries-of_compare, follow_lem,
}

-- A request whose entries carry the indices that follow its position.
abbrev pub IsWellFormed : AppendEntriesArgs → Type 0
IsWellFormed args = IsConsecutive args.prev_log_index args.entries

update_commit_lem :
    (leader_commit : ℕ) (r : Raft)
    → IsConsecutive r.last_snapshot_include_index r.logs
    → r.commit_index ≤ r.last_snapshot_include_index + length r.logs
    → update_commit leader_commit r ≡ record r {
      commit_index =
          max r.commit_index (min leader_commit (r.last_snapshot_include_index + length r.logs));
    }
unfolding update_commit
update_commit_lem leader_commit r h c = ground (arith, get_last_log_index_lem r h)

-- The state after an accepted request, with its new log.
abbrev pub after_accept : ⦃a : Archive⦄ → ℕ → AppendEntriesArgs → Raft → List LogEntry → Raft
after_accept now args r new = persist (record (following now args.term r) {
  logs = new;
  commit_index =
      max r.commit_index (min args.leader_commit (r.last_snapshot_include_index + length new));
})

module _ ⦃a : Archive⦄ (now : ℕ) (args : AppendEntriesArgs) (r : Raft) (inv : Inv r) where
  -- A node accepts a well-formed request of a term that is not behind if its log has the request's
  -- position with the request's term there. Then it is a follower at that term. Its
  -- log has an entry of the index and the term of every entry of the request: this entry itself, or the
  -- one that it had there with the same term. The entries up to the position and those behind
  -- the request are as they were, the log is no shorter, and the commit index is the larger of the
  -- old one and the smaller of the leader's and the last index.
  pub append_entries_accepts :
      IsWellFormed args
      → r.current_term ≤ args.term
      → r.last_snapshot_include_index ≤ args.prev_log_index
      → args.prev_log_index ≤ r.last_snapshot_include_index + length r.logs
      → get_log_term_from_log_index r args.prev_log_index ≡ some args.prev_log_term
      → (new : List LogEntry) × (append_entries now args r
          ≡ some (accepting args.term, after_accept now args r new))
        × Puts r.last_snapshot_include_index args.prev_log_index
            (args.prev_log_index + length args.entries)
            r.logs
            new
        × AllHold r.last_snapshot_include_index r.logs new args.entries
  unfolding get_log_term_from_log_index
  append_entries_accepts c term behind near same =
      let (new, e, puts, held) =
        compare_logs_accepts args (following now args.term r) inv.consecutive c behind near same in
      (
        new,
        append_entries-of_compare now args r (accepting args.term)
              (accepted args (following now args.term r) new) term e
            ∙ ap (λ q. some (accepting args.term, persist q))
                (update_commit_lem args.leader_commit
                  (record (following now args.term r) { logs = new }) puts.consecutive
                  (omega (arith, inv.committed, puts.longer))),
        puts,
        held,
      )

  pub append_entries_mismatch :
      (t : ℕ)
      → r.current_term ≤ args.term
      → args.prev_log_index ≤ r.last_snapshot_include_index + length r.logs
      → get_log_term_from_log_index r args.prev_log_index ≡ some t
      → t ≢ args.prev_log_term
      → (n : ℕ) × (append_entries now args r
          ≡ some (refusing args.term (some n), persist (following now args.term r)))
        × BacksUp (following now args.term r) t (suc args.prev_log_index) n
  unfolding get_log_term_from_log_index
  append_entries_mismatch t term near found differs =
      let (n, e, b) =
        compare_logs_mismatch args (following now args.term r) t inv.consecutive
          (omega (arith, inv.compacted, inv.applied)) near found differs in
      (n, append_entries-of_compare now args r _ _ term e, b)

  -- A request for a position before the node's snapshot, at a term that is not behind, makes the node
  -- read its log at a negative position: the refusal that the source fills in is not returned.
  pub append_entries_before_snapshot :
      r.current_term ≤ args.term
      → args.prev_log_index < r.last_snapshot_include_index
      → append_entries now args r ≡ none
  unfolding append_entries
  append_entries_before_snapshot term before = ground (
    arith,
    follow_lem now args.term r term,
    compare_logs_before args (following now args.term r) inv.consecutive before,
  )

  -- What every answer to a request has in common.
  pub record Answer (reply : AppendEntriesReply) (q : Raft) : Type 0 where
    pub inv_kept : Inv q
    pub term_grows : r.current_term ≤ q.current_term
    pub term_told : reply.term ≡ q.current_term
    pub never_shorter : length r.logs ≤ length q.logs
    pub commit_grows : r.commit_index ≤ q.commit_index
    pub same_snapshot : q.last_snapshot_include_index ≡ r.last_snapshot_include_index
    pub same_applied : q.last_applied ≡ r.last_applied

  following-Answer :
      (next : Option ℕ)
      → r.current_term ≤ args.term
      → Answer (refusing args.term next) (persist (following now args.term r))
  unfolding persist
  following-Answer next term = record {
    inv_kept = record {
      consecutive = inv.consecutive;
      compacted = inv.compacted;
      applied = inv.applied;
      committed = inv.committed;
    };
    term_grows = term;
    term_told = refl;
    never_shorter = omega arith;
    commit_grows = omega arith;
    same_snapshot = refl;
    same_applied = refl;
  }

  accept-Answer :
      (lo hi : ℕ) (new : List LogEntry)
      → r.current_term ≤ args.term
      → Puts r.last_snapshot_include_index lo hi r.logs new
      → Answer (accepting args.term) (after_accept now args r new)
  unfolding persist
  accept-Answer lo hi new term puts = record {
    inv_kept = record {
      consecutive = puts.consecutive;
      compacted = inv.compacted;
      applied = omega (arith, inv.applied);
      committed = omega (arith, inv.committed, puts.longer);
    };
    term_grows = term;
    term_told = refl;
    never_shorter = puts.longer;
    commit_grows = omega arith;
    same_snapshot = refl;
    same_applied = refl;
  }

  stale-Answer : Answer (refusing r.current_term none) r
  stale-Answer = record {
    inv_kept = inv;
    term_grows = omega arith;
    term_told = refl;
    never_shorter = omega arith;
    commit_grows = omega arith;
    same_snapshot = refl;
    same_applied = refl;
  }

  abbrev Answers : Type 0
  Answers =
      (reply : AppendEntriesReply) × (q : Raft) × (append_entries now args r ≡ some (reply, q))
      × Answer reply q

  -- Every well-formed request whose position is not before the snapshot is answered: no read leaves
  -- the log. The state stays in order, the term does not fall and is the reply's, the log gets no
  -- shorter, even where its entries conflict with the leader's, the commit index does not fall, and
  -- the snapshot and what has been applied stay.
  pub append_entries-Answer :
      IsWellFormed args
      → (r.current_term ≤ args.term → r.last_snapshot_include_index ≤ args.prev_log_index)
      → (reply : AppendEntriesReply) × (q : Raft) × (append_entries now args r ≡ some (reply, q))
        × Answer reply q
  append_entries-Answer c not_before = elim (dec_lt args.term r.current_term) [
    | yes stale ↦ (refusing r.current_term none, r, stale_request stale, stale-Answer)
    | no newer ↦ answer (omega arith)
  ]
    where
      stale_request :
          args.term < r.current_term
          → append_entries now args r ≡ some (refusing r.current_term none, r)
      stale_request h = unfold append_entries in ground arith

      at_position :
          r.current_term ≤ args.term
          → args.prev_log_index ≤ r.last_snapshot_include_index + length r.logs
          → (t : ℕ) × (get_log_term_from_log_index r args.prev_log_index ≡ some t)
          → Answers
      at_position term near (t, found) = elim (ℕ_discrete t args.prev_log_term) [
        | yes same ↦
            let (new, e, puts, held) =
              append_entries_accepts c term (not_before term) near (rw (← same) found) in
            (accepting args.term, after_accept now args r new, e, accept-Answer _ _ new term puts)
        | no differs ↦
            let (n, e, b) = append_entries_mismatch t term near found differs in
            (
              refusing args.term (some n),
              persist (following now args.term r),
              e,
              following-Answer (some n) term,
            )
      ]

      answer : r.current_term ≤ args.term → Answers
      answer term =
          elim (dec_le args.prev_log_index (r.last_snapshot_include_index + length r.logs)) [
            | yes near ↦
                at_position term near
                  (get_log_term_from_log_index-some r args.prev_log_index (not_before term) near)
            | no far ↦
                let next = some (r.last_snapshot_include_index + length r.logs + 1) in
                (
                  refusing args.term next,
                  persist (following now args.term r),
                  append_entries-of_compare now args r _ _ term (
                      compare_logs_behind args (following now args.term r) inv.consecutive
                        (omega arith)),
                  following-Answer next term,
                )
          ]
