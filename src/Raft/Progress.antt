-- ===== src/Raft/Progress.antt =====
-- What no handler undoes: the term and the vote in it, and for a node in order the positions of its
-- snapshot, its log, its commits and what it has handed on.
use kvstorage_base_raft_cpp.Base.{ℕ, ◌+◌, ◌≤◌, ◌≡◌, ◌∙◌, ap, some, arith, length}
use kvstorage_base_raft_cpp.Raft.{Raft}
use kvstorage_base_raft_cpp.Raft.Log.{Inv}

-- The term does not fall, and while it stays the vote stays too.
pub record Kept (r q : Raft) : Type 0 where
  pub term_grows : r.current_term ≤ q.current_term
  pub vote_kept :
      r.current_term ≡ q.current_term → (v : ℕ) → r.voted_for ≡ some v → q.voted_for ≡ some v

pub Kept-refl : (r : Raft) → Kept r r
Kept-refl r = record { term_grows = omega arith; vote_kept = λ e v p. p }

pub Kept-trans : {r q s : Raft} → Kept r q → Kept q s → Kept r s
Kept-trans a b = record {
  term_grows = omega (arith, a.term_grows, b.term_grows);
  vote_kept = λ e v p.
      b.vote_kept (omega (arith, a.term_grows, b.term_grows)) v
        (a.vote_kept (omega (arith, a.term_grows, b.term_grows)) v p);
}

-- The state after is in order, and no position has gone back.
pub record Onward (r q : Raft) : Type 0 where
  pub inv_kept : Inv q
  pub snapshot_grows : r.last_snapshot_include_index ≤ q.last_snapshot_include_index
  pub applied_grows : r.last_applied ≤ q.last_applied
  pub commit_grows : r.commit_index ≤ q.commit_index
  pub log_grows :
      r.last_snapshot_include_index + length r.logs ≤ q.last_snapshot_include_index + length q.logs

pub Onward-refl : (r : Raft) → Inv r → Onward r r
Onward-refl r h = record {
  inv_kept = h;
  snapshot_grows = omega arith;
  applied_grows = omega arith;
  commit_grows = omega arith;
  log_grows = omega arith;
}

pub Onward-trans : {r q s : Raft} → Onward r q → Onward q s → Onward r s
Onward-trans a b = record {
  inv_kept = b.inv_kept;
  snapshot_grows = omega (arith, a.snapshot_grows, b.snapshot_grows);
  applied_grows = omega (arith, a.applied_grows, b.applied_grows);
  commit_grows = omega (arith, a.commit_grows, b.commit_grows);
  log_grows = omega (arith, a.log_grows, b.log_grows);
}

-- A handler that leaves the log and its positions as they are.
pub record Aside (r q : Raft) : Type 0 where
  pub same_snapshot : q.last_snapshot_include_index ≡ r.last_snapshot_include_index
  pub same_logs : q.logs ≡ r.logs
  pub same_applied : q.last_applied ≡ r.last_applied
  pub same_commit : q.commit_index ≡ r.commit_index
  pub same_chan : q.apply_chan ≡ r.apply_chan
  pub same_msgs : q.apply_msgs ≡ r.apply_msgs

pub Aside-Onward : {r q : Raft} → Aside r q → Inv r → Onward r q
Aside-Onward a h = record {
  inv_kept = record {
    consecutive = rw (a.same_snapshot, a.same_logs) h.consecutive;
    compacted = omega (arith, a.same_snapshot, a.same_applied, h.compacted);
    applied = omega (arith, a.same_applied, a.same_commit, h.applied);
    committed = rw (a.same_snapshot, a.same_logs, a.same_commit) h.committed;
  };
  snapshot_grows = omega (arith, a.same_snapshot);
  applied_grows = omega (arith, a.same_applied);
  commit_grows = omega (arith, a.same_commit);
  log_grows = rw (a.same_snapshot, a.same_logs) (omega arith);
}

-- A loop that posts tasks and changes nothing else.
abbrev pub Posts : Raft → Raft → Type 0
Posts r q = q ≡ record r { rpc_tasks = q.rpc_tasks }

pub Posts-trans : (r q s : Raft) → Posts r q → Posts q s → Posts r s
Posts-trans r q s p h = h ∙ ap (λ (x : Raft). record x { rpc_tasks = s.rpc_tasks }) p
