-- ===== src/Raft/Replication/Frame.antt =====
-- What the handlers of replication leave as it is.
use native.Mathlib.Decide.{dec_lt}
use kvstorage_base_raft_cpp.Base.{
  ℕ, ◌+◌, ◌≤◌, ◌≡◌, ◌⊎◌, max, ap, sym, ◌∙◌, Bool, some, List, [], ◌∷◌, arith, length, ltb,
  >>=-eq-some, Bool-cases, inl, inr,
}
use kvstorage_base_raft_cpp.Message.{LogEntry, AppendEntriesArgs, AppendEntriesReply}
use kvstorage_base_raft_cpp.Archive.{Archive}
use kvstorage_base_raft_cpp.Raft.{Raft}
use kvstorage_base_raft_cpp.Raft.Store.{persist}
use kvstorage_base_raft_cpp.Raft.Log.{Inv}
use kvstorage_base_raft_cpp.Raft.Progress.{Kept, Onward}
use kvstorage_base_raft_cpp.Raft.Replication.{
  put_entry, put_entries, compare_logs, accept, mismatch, update_commit, follow, append_entries,
  receive_append, count_append, commit_entries,
}
use kvstorage_base_raft_cpp.Raft.Replication.Safety.{
  IsWellFormed, append_entries-Answer, append_entries_before_snapshot,
}

-- A loop that changes the log and nothing else.
abbrev Logs : Raft → Raft → Type 0
Logs r q = q ≡ record r { logs = q.logs }

put_entry-Logs : (r : Raft) (log : LogEntry) (q : Raft) → put_entry r log ≡ some q → Logs r q
unfolding put_entry
put_entry-Logs r log q e = ground arith

put_entries-Logs : (r : Raft) (es : List LogEntry) (q : Raft) → put_entries r es ≡ some q → Logs r q
unfolding put_entries
put_entries-Logs r [] q e = ground arith
put_entries-Logs r (log ∷ es) q e =
    let (s, first, rest) = >>=-eq-some (put_entry r log) (λ q. put_entries q es) e in
    put_entries-Logs s es q rest
    ∙ ap (λ (x : Raft). record x { logs = q.logs }) (put_entry-Logs r log s first)

-- The comparison of the logs changes the log and the commit index and nothing else.
abbrev Compared : Raft → Raft → Type 0
Compared r q = q ≡ record r { logs = q.logs; commit_index = q.commit_index }

update_commit-Compared : (leader_commit : ℕ) (r : Raft) → Compared r (update_commit leader_commit r)
unfolding update_commit
update_commit-Compared leader_commit r = ground arith

accept-Compared :
    (args : AppendEntriesArgs) (r : Raft) (reply : AppendEntriesReply) (q : Raft)
    → accept args r ≡ some (reply, q)
    → Compared r q
unfolding accept
accept-Compared args r reply q e =
    let (s, put, rest) = >>=-eq-some (put_entries r args.entries) _ e in
    let same : update_commit args.leader_commit s ≡ q = ground arith in
    sym same
    ∙ update_commit-Compared args.leader_commit s
    ∙ ap
        (λ (x : Raft). record x {
          logs = (update_commit args.leader_commit s).logs;
          commit_index = (update_commit args.leader_commit s).commit_index;
        })
        (put_entries-Logs r args.entries s put)
    ∙ ap (λ (x : Raft). record r { logs = x.logs; commit_index = x.commit_index }) same

compare_logs-Compared :
    (args : AppendEntriesArgs) (r : Raft) (reply : AppendEntriesReply) (q : Raft)
    → compare_logs args r ≡ some (reply, q)
    → Compared r q
unfolding compare_logs mismatch
compare_logs-Compared args r reply q e = ground (arith, accept-Compared args r reply q)

-- What a request leaves of the node that it found, or of the node at the request's term.
abbrev pub Appended : Raft → Raft → Type 0
Appended r q =
    q ≡ record r { logs = q.logs; commit_index = q.commit_index; persister = q.persister }

-- What a stored node keeps of its term and vote.
abbrev SameVote : Raft → Raft → Type 0
SameVote r q = (q.current_term ≡ r.current_term) × (q.voted_for ≡ r.voted_for)

module _ ⦃a : Archive⦄ where
  pub append_entries-Appended :
      (now : ℕ) (args : AppendEntriesArgs) (r : Raft) (reply : AppendEntriesReply) (q : Raft)
      → append_entries now args r ≡ some (reply, q)
      → (q ≡ r) ⊎ Appended (follow now args.term r) q × (r.current_term ≤ args.term)
  unfolding append_entries persist
  append_entries-Appended now args r reply q e = elim (Bool-cases (ltb args.term r.current_term)) [
    | inl stale ↦ inl (ground arith)
    | inr newer ↦
        let ((reply', s), compared, rest) =
          >>=-eq-some {B = AppendEntriesReply × Raft} (compare_logs args (follow now args.term r))
            (λ (reply, q). some (reply, persist q)) {b = (reply, q)} (ground arith) in
        let same : persist s ≡ q = ground arith in
        inr (
          sym same
              ∙ ap (λ (x : Raft). record x { persister = (persist s).persister })
                  (compare_logs-Compared args (follow now args.term r) reply' s compared)
              ∙ ap
                  (λ (x : Raft). record (follow now args.term r) {
                    logs = x.logs;
                    commit_index = x.commit_index;
                    persister = x.persister;
                  })
                  same,
          ground arith,
        )
  ]

  append_entries-vote :
      (now : ℕ) (args : AppendEntriesArgs) (r : Raft) (reply : AppendEntriesReply) (q : Raft)
      → append_entries now args r ≡ some (reply, q)
      → SameVote r q ⊎ SameVote (follow now args.term r) q × (r.current_term ≤ args.term)
  append_entries-vote now args r reply q e = elim (append_entries-Appended now args r reply q e) [
    | inl same ↦ inl (ap (λ (x : Raft). x.current_term) same, ap (λ (x : Raft). x.voted_for) same)
    | inr (appended, newer) ↦ inr (
      (ap (λ (x : Raft). x.current_term) appended, ap (λ (x : Raft). x.voted_for) appended),
      newer,
    )
  ]

  pub append_entries-Kept :
      (now : ℕ) (args : AppendEntriesArgs) (r : Raft) (reply : AppendEntriesReply) (q : Raft)
      → append_entries now args r ≡ some (reply, q)
      → Kept r q
  append_entries-Kept now args r reply q e = record {
    term_grows = ground (arith, append_entries-vote now args r reply q e);
    vote_kept = λ same v p. ground (arith, append_entries-vote now args r reply q e);
  }

  pub append_entries-Onward :
      (now : ℕ) (args : AppendEntriesArgs) (r : Raft) (reply : AppendEntriesReply) (q : Raft)
      → Inv r
      → IsWellFormed args
      → append_entries now args r ≡ some (reply, q)
      → Onward r q
  append_entries-Onward now args r reply q inv c e =
      let (reply', q', e', answer) = append_entries-Answer now args r inv c not_before in
      let same : q' ≡ q = ground (arith, e, e') in
      rw (← same) (record {
        inv_kept = answer.inv_kept;
        snapshot_grows = omega (arith, answer.same_snapshot);
        applied_grows = omega (arith, answer.same_applied);
        commit_grows = answer.commit_grows;
        log_grows = omega (arith, answer.same_snapshot, answer.never_shorter);
      })
    where
      not_before : r.current_term ≤ args.term → r.last_snapshot_include_index ≤ args.prev_log_index
      not_before term = elim (dec_lt args.prev_log_index r.last_snapshot_include_index) [
        | yes before ↦
            let fault = append_entries_before_snapshot now args r inv term before in absurd (cc)
        | no h ↦ omega arith
      ]

  pub receive_append-Kept :
      (server : ℕ) (args : AppendEntriesArgs) (c : ℕ) (ok : Bool) (reply : AppendEntriesReply)
      (r : Raft)
      → Kept r (receive_append server args c ok reply r)
  unfolding receive_append count_append commit_entries
  receive_append-Kept server args c ok reply r = record {
    term_grows = ground arith;
    vote_kept = λ e v p. ground arith;
  }

  pub receive_append-commit :
      (server : ℕ) (args : AppendEntriesArgs) (c : ℕ) (ok : Bool) (reply : AppendEntriesReply)
      (r : Raft)
      → let q = receive_append server args c ok reply r in
        (r.commit_index ≤ q.commit_index)
        × (q.commit_index ≤ max r.commit_index (args.prev_log_index + length args.entries))
        × (q.last_snapshot_include_index ≡ r.last_snapshot_include_index)
        × (q.logs ≡ r.logs)
        × (q.last_applied ≡ r.last_applied)
  unfolding receive_append count_append commit_entries
  receive_append-commit server args c ok reply r =
      (ground arith, ground arith, ground arith, ground arith, ground arith)

  -- The reply to a request whose entries lie within the leader's log.
  pub receive_append-Onward :
      (server : ℕ) (args : AppendEntriesArgs) (c : ℕ) (ok : Bool) (reply : AppendEntriesReply)
      (r : Raft)
      → Inv r
      → args.prev_log_index + length args.entries ≤ r.last_snapshot_include_index + length r.logs
      → Onward r (receive_append server args c ok reply r)
  receive_append-Onward server args c ok reply r inv within =
      let (lower, upper, snap, logs, applied) = receive_append-commit server args c ok reply r in
      record {
        inv_kept = record {
          consecutive = rw (snap, logs) inv.consecutive;
          compacted = omega (arith, inv.compacted, snap, applied);
          applied = omega (arith, inv.applied, applied);
          committed = rw (snap, logs) (omega (arith, inv.committed));
        };
        snapshot_grows = omega (arith, snap);
        applied_grows = omega (arith, applied);
        commit_grows = lower;
        log_grows = rw (snap, logs) (omega arith);
      }
