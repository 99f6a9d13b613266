-- ===== src/Raft/Group/Beats.antt =====
-- The rounds of heart beats of a node: what a round has counted, and what its requests have in common.
use kvstorage_base_raft_cpp.Base.{
  ℕ, ◌+◌, ◌≤◌, ◌<◌, ◌≡◌, ◌≢◌, inl, inr, sym, some, arith, length, count, count_one, update,
  update-all,
}
use mathlib.Core.Path.{subst}
use kvstorage_base_raft_cpp.Message.{AppendEntriesArgs}
use kvstorage_base_raft_cpp.Raft.{Raft}
use kvstorage_base_raft_cpp.Raft.Posts.{HasAppend, HasAppend-at, NewAppends, KeepsAppends}
use kvstorage_base_raft_cpp.Raft.Bystander.{KeepsRounds}
use kvstorage_base_raft_cpp.Raft.Election.{counter_at}
use kvstorage_base_raft_cpp.Raft.Group.Cluster.{AppendCall, request_of, has_stored}

-- What a step leaves of the rounds of heart beats.
pub record KeepsBeats (r q : Raft) : Type 0 where
  pub counts :
      (k : ℕ) (args : AppendEntriesArgs) (c : ℕ)
      → HasAppend k args c r.rpc_tasks
      → counter_at q c ≤ counter_at r c
  pub fresh_counts : (c : ℕ) → length r.counters ≤ c → counter_at q c ≤ 1
  pub posts : NewAppends r q
  pub keeps : KeepsAppends r q

pub KeepsBeats-refl :
    (r : Raft) → ((c : ℕ) → length r.counters ≤ c → counter_at r c ≤ 1) → KeepsBeats r r
KeepsBeats-refl r fresh = record {
  counts = λ k args c h. omega arith;
  fresh_counts = fresh;
  posts = λ k args c h. inl h;
  keeps = λ k args c h. h;
}

-- Every posted request is of a round that has begun.
abbrev pub AreBegun : Raft → Type 0
AreBegun r =
    (k : ℕ) (args : AppendEntriesArgs) (c : ℕ)
    → HasAppend k args c r.rpc_tasks
    → c < length r.counters

-- The counter that a step may change is of no round of heart beats.
pub KeepsRounds-KeepsBeats :
    (x : ℕ) (r q : Raft)
    → AreBegun r
    → KeepsRounds x r q
    → ((k : ℕ) (args : AppendEntriesArgs) → ¬ HasAppend k args x r.rpc_tasks)
    → KeepsBeats r q
KeepsRounds-KeepsBeats x r q begun rounds apart = record {
  counts =
      λ k args c. λ h. omega (arith, rounds.counts_kept c (begun k args c h) (other k args c h));
  fresh_counts = rounds.fresh_counts;
  posts = rounds.posts;
  keeps = rounds.keeps;
}
  where
    other : (k : ℕ) (args : AppendEntriesArgs) (c : ℕ) → HasAppend k args c r.rpc_tasks → c ≢ x
    other k args c h e = apart k args (subst (λ d. HasAppend k args d r.rpc_tasks) e h)

-- The counter of a round is at most the number of nodes that have stored, and all its requests end
-- at the same index.
pub record Beats (n i : ℕ) (r : Raft) (rows : ℕ → ℕ → AppendCall) : Type 0 where
  pub tally :
      (k : ℕ) (args : AppendEntriesArgs) (c : ℕ)
      → HasAppend k args c r.rpc_tasks
      → counter_at r c ≤ count n (has_stored i (rows c))
  pub ends :
      (k m : ℕ) (args other : AppendEntriesArgs) (c : ℕ)
      → HasAppend k args c r.rpc_tasks
      → HasAppend m other c r.rpc_tasks
      → args.prev_log_index + length args.entries ≡ other.prev_log_index + length other.entries
  pub called :
      (c k : ℕ) (args : AppendEntriesArgs)
      → request_of (rows c k) ≡ some args
      → HasAppend k args c r.rpc_tasks

module _ (n i : ℕ) (inside : i < n) (r q : Raft) (rows : ℕ → ℕ → AppendCall) (begun : AreBegun r)
    (kept : KeepsBeats r q) (beats : Beats n i r rows) where
  own_counts : (c : ℕ) → 1 ≤ count n (has_stored i (rows c))
  own_counts c = count_one n i (has_stored i (rows c)) inside (ground arith)

  kept-ends :
      (k m : ℕ) (args other : AppendEntriesArgs) (c : ℕ)
      → HasAppend k args c q.rpc_tasks
      → HasAppend m other c q.rpc_tasks
      → args.prev_log_index + length args.entries ≡ other.prev_log_index + length other.entries
  kept-ends k m args other c h h' = elim (kept.posts k args c h) [
    | inl before ↦ elim (kept.posts m other c h') [
      | inl before' ↦ beats.ends k m args other c before before'
      | inr new ↦ absurd (omega (arith, new.from, begun k args c before))
    ]
    | inr new ↦ elim (kept.posts m other c h') [
      | inl before ↦ absurd (omega (arith, new.from, begun m other c before))
      | inr new' ↦
          let (d, tail, end) = new.tail in
          let (d', tail', end') = new'.tail in omega (arith, end, end')
    ]
  ]

  pub Beats-kept : Beats n i q rows
  Beats-kept = record {
    tally = λ k args c. λ h. elim (kept.posts k args c h) [
      | inl before ↦ omega (arith, kept.counts k args c before, beats.tally k args c before)
      | inr new ↦ omega (arith, kept.fresh_counts c new.from, own_counts c)
    ];
    ends = kept-ends;
    called = λ c k args e. kept.keeps k args c (beats.called c k args e);
  }

-- The calls of one round change, and with them the counter of that round.
module _ (n i c : ℕ) (r q : Raft) (rows : ℕ → ℕ → AppendCall) (row : ℕ → AppendCall)
    (beats : Beats n i r rows) (tasks : q.rpc_tasks ≡ r.rpc_tasks) where
  abbrev Rows : ℕ → (ℕ → AppendCall) → Type 0
  Rows d calls =
      ((k : ℕ) (args : AppendEntriesArgs)
        → HasAppend k args d r.rpc_tasks
        → counter_at q d ≤ count n (has_stored i calls))
      × ((k : ℕ) (args : AppendEntriesArgs)
          → request_of (calls k) ≡ some args
          → HasAppend k args d r.rpc_tasks)

  pub Beats-row :
      ((k : ℕ) (args : AppendEntriesArgs) (d : ℕ)
        → HasAppend k args d r.rpc_tasks
        → d ≢ c
        → counter_at q d ≤ counter_at r d)
      → Rows c row
      → Beats n i q (update c row rows)
  Beats-row counts here =
      let all : (d : ℕ) → Rows d (update c row rows d) = update-all Rows c row rows here (λ d other.
        (
          λ k args. λ h. omega (arith, counts k args d h other, beats.tally k args d h),
          λ k args. λ e. beats.called d k args e,
        )) in
      record {
        tally = λ k args d. λ h. (all d).0 k args (HasAppend-at k args d tasks h);
        ends = λ k m args other d. λ h. λ h'.
            beats.ends k m args other d (HasAppend-at k args d tasks h)
              (HasAppend-at m other d tasks h');
        called = λ d k args e. HasAppend-at k args d (sym tasks) ((all d).1 k args e);
      }
