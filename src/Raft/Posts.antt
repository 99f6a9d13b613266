-- ===== src/Raft/Posts.antt =====
-- The requests to append among a node's posted tasks.
use kvstorage_base_raft_cpp.Base.{
  ℕ, ◌+◌, ◌≤◌, ◌<◌, ◌≡◌, ◌≢◌, ◌⊎◌, inl, inr, List, [], ◌∷◌, ◌++◌, length, drop, sym,
}
use kvstorage_base_raft_cpp.Message.{AppendEntriesArgs}
use kvstorage_base_raft_cpp.Raft.{Raft, Posted, send_append_entries}
use kvstorage_base_raft_cpp.Raft.Replication.Safety.{IsWellFormed}

-- A request for node `k`, of the round whose counter is `c`, is among the tasks.
abbrev pub HasAppend : ℕ → AppendEntriesArgs → ℕ → List Posted → Type 0
HasAppend k args c [] = ⊥
HasAppend k args c (p ∷ ps) = (p.task ≡ send_append_entries k args c) ⊎ HasAppend k args c ps

-- A request whose entries lie within the node's log.
pub record IsWithin (r : Raft) (args : AppendEntriesArgs) : Type 0 where
  pub well_formed : IsWellFormed args
  pub to_end :
      args.prev_log_index + length args.entries ≤ r.last_snapshot_include_index + length r.logs

-- The entries of a request are the end of the node's log.
abbrev pub IsTail : Raft → AppendEntriesArgs → Type 0
IsTail r args =
    (n : ℕ) × (args.entries ≡ drop n r.logs)
    × (args.prev_log_index + length args.entries ≡ r.last_snapshot_include_index + length r.logs)

-- A request that a handler posts lies within the log, is of a round that the handler began, carries
-- the end of the log and goes to another node.
pub record IsNew (r q : Raft) (k : ℕ) (args : AppendEntriesArgs) (c : ℕ) : Type 0 where
  pub within : IsWithin r args
  pub from : length r.counters ≤ c
  pub to : c < length q.counters
  pub tail : IsTail r args
  pub to_node : k < r.peers
  pub to_other : k ≢ r.me

-- What a handler posts.
abbrev pub NewAppends : Raft → Raft → Type 0
NewAppends r q =
    (k : ℕ) (args : AppendEntriesArgs) (c : ℕ)
    → HasAppend k args c q.rpc_tasks
    → HasAppend k args c r.rpc_tasks ⊎ IsNew r q k args c

-- No request that was posted is dropped.
abbrev pub KeepsAppends : Raft → Raft → Type 0
KeepsAppends r q =
    (k : ℕ) (args : AppendEntriesArgs) (c : ℕ)
    → HasAppend k args c r.rpc_tasks
    → HasAppend k args c q.rpc_tasks

HasAppend-left :
    (k : ℕ) (args : AppendEntriesArgs) (c : ℕ) (ps qs : List Posted)
    → HasAppend k args c ps
    → HasAppend k args c (ps ++ qs)
HasAppend-left k args c [] qs h = absurd h
HasAppend-left k args c (p ∷ ps) qs (inl here) = inl here
HasAppend-left k args c (p ∷ ps) qs (inr h) = inr (HasAppend-left k args c ps qs h)

pub HasAppend-append :
    (k : ℕ) (args : AppendEntriesArgs) (c : ℕ) (ps qs : List Posted)
    → HasAppend k args c (ps ++ qs)
    → HasAppend k args c ps ⊎ HasAppend k args c qs
HasAppend-append k args c [] qs h = inr h
HasAppend-append k args c (p ∷ ps) qs (inl here) = inl (inl here)
HasAppend-append k args c (p ∷ ps) qs (inr h) = elim (HasAppend-append k args c ps qs h) [
  | inl before ↦ inl (inr before)
  | inr behind ↦ inr behind
]

abbrev pub NoAppends : List Posted → Type 0
NoAppends ps = (k : ℕ) (args : AppendEntriesArgs) (c : ℕ) → ¬ HasAppend k args c ps

pub HasAppend-at :
    (k : ℕ) (args : AppendEntriesArgs) (c : ℕ) {ps qs : List Posted}
    → ps ≡ qs
    → HasAppend k args c ps
    → HasAppend k args c qs
HasAppend-at k args c e h = rw (sym e) h

-- No request to append is posted.
abbrev pub NoNewAppends : Raft → Raft → Type 0
NoNewAppends r q =
    (k : ℕ) (args : AppendEntriesArgs) (c : ℕ)
    → HasAppend k args c q.rpc_tasks
    → HasAppend k args c r.rpc_tasks

pub NoNewAppends-NewAppends : (r q : Raft) → NoNewAppends r q → NewAppends r q
NoNewAppends-NewAppends r q same k args c h = inl (same k args c h)

-- The tasks that are added hold no request to append.
pub NoAppends-NoNewAppends :
    (r q : Raft) (more : List Posted)
    → q.rpc_tasks ≡ r.rpc_tasks ++ more
    → NoAppends more
    → NoNewAppends r q
NoAppends-NoNewAppends r q more e none_added k args c h =
    elim (HasAppend-append k args c r.rpc_tasks more (HasAppend-at k args c e h)) [
      | inl before ↦ before
      | inr added ↦ absurd (none_added k args c added)
    ]

pub same-NewAppends : (r q : Raft) → q.rpc_tasks ≡ r.rpc_tasks → NewAppends r q
same-NewAppends r q e k args c h = inl (HasAppend-at k args c e h)

pub same-KeepsAppends : (r q : Raft) → q.rpc_tasks ≡ r.rpc_tasks → KeepsAppends r q
same-KeepsAppends r q e k args c h = HasAppend-at k args c (sym e) h

pub added-KeepsAppends :
    (r q : Raft) (more : List Posted) → q.rpc_tasks ≡ r.rpc_tasks ++ more → KeepsAppends r q
added-KeepsAppends r q more e k args c h =
    HasAppend-at k args c (sym e) (HasAppend-left k args c r.rpc_tasks more h)
