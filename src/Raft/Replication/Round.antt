-- ===== src/Raft/Replication/Round.antt =====
-- A whole round of heart beats: one task for every other node.
use mathlib.Core.List.{append-nil, append_assoc}
use native.Mathlib.Decide.{dec_le, ℕ_discrete}
use kvstorage_base_raft_cpp.Base.{
  ℕ, zero, suc, ◌+◌, ◌≤◌, ◌<◌, ◌≡◌, ◌≢◌, ◌⊎◌, refl, true, some, List, [], ◌∷◌, ◌++◌, arith,
  get_elem?, length, inl, inr,
}
use kvstorage_base_raft_cpp.Message.{AppendEntriesArgs}
use kvstorage_base_raft_cpp.Raft.{
  Raft, Posted, is_leader, send_append_entries, leader_send_snapshot, commit_with_timeout,
  get_log_term_from_log_index,
}
use kvstorage_base_raft_cpp.Raft.Log.{Inv}
use kvstorage_base_raft_cpp.Raft.Replication.{
  heart_beat_to, heart_beats, do_heart_beat, heart_beat_timeout,
}
use kvstorage_base_raft_cpp.Raft.Replication.HeartBeat.{Carries, append_entries_args-Carries}

-- The task for node `i`: the snapshot if the node lacks entries that it covers, or else a request
-- that carries all the entries that the node lacks.
abbrev pub ForNode : Raft → ℕ → ℕ → ℕ → Posted → Type 0
ForNode r now c i p =
    (next : ℕ) × (get_elem? r.next_index i ≡ some next)
    × (p.start_time ≡ now)
    × (p.timeout ≡ heart_beat_timeout)
    × (((next ≤ r.last_snapshot_include_index) × (p.task ≡ leader_send_snapshot i))
        ⊎ ((args : AppendEntriesArgs) × (r.last_snapshot_include_index < next)
            × (args.prev_log_index + 1 ≡ next)
            × (p.task ≡ send_append_entries i args c)
            × Carries r args))

-- The tasks for the nodes `i`, …, `i + n - 1`, in order and without the node itself.
abbrev pub Round : Raft → ℕ → ℕ → ℕ → ℕ → List Posted → Type 0
Round r now c zero i ps = ps ≡ []
Round r now c (suc n) i ps =
    ((i ≡ r.me) × Round r now c n (i + 1) ps)
    ⊎ ((i ≢ r.me)
        × ((p : Posted) × (rest : List Posted) × (ps ≡ p ∷ rest)
            × ForNode r now c i p
            × Round r now c n (i + 1) rest))

-- For every node there is a next index, at most one past the log.
abbrev pub IsTracked : Raft → Type 0
IsTracked r =
    (i : ℕ)
    → i < r.peers
    → (next : ℕ) × (get_elem? r.next_index i ≡ some next)
      × (next ≤ suc (r.last_snapshot_include_index + length r.logs))

-- The leader during the round: tasks have been posted.
abbrev during : Raft → List ℕ → List Posted → Raft
during r cs ts = record r { rpc_tasks = ts; counters = cs }

during-Inv : (r : Raft) (cs : List ℕ) (ts : List Posted) → Inv r → Inv (during r cs ts)
during-Inv r cs ts inv = record {
  consecutive = inv.consecutive;
  compacted = inv.compacted;
  applied = inv.applied;
  committed = inv.committed;
}

Carries-during :
    (r : Raft) (cs : List ℕ) (ts : List Posted) (args : AppendEntriesArgs)
    → Carries (during r cs ts) args
    → Carries r args
unfolding get_log_term_from_log_index
Carries-during r cs ts args h = record {
  of_term = h.of_term;
  of_commit = h.of_commit;
  not_before = h.not_before;
  rest = h.rest;
  well_formed = h.well_formed;
  to_the_end = h.to_the_end;
  true_term = h.true_term;
}

module _ (r : Raft) (inv : Inv r) (tracked : IsTracked r) (now c : ℕ) (cs : List ℕ) where
  heart_beat_to-ForNode :
      (i : ℕ) (ts : List Posted)
      → i < r.peers
      → (p : Posted) × (heart_beat_to now c i (during r cs ts) ≡ some (during r cs (ts ++ p ∷ [])))
        × ForNode r now c i p
  unfolding heart_beat_to commit_with_timeout
  heart_beat_to-ForNode i ts lt =
      let (next, at, near) = tracked i lt in
      elim (dec_le next r.last_snapshot_include_index) [
        | yes covered ↦
            let p : Posted = record {
              task = leader_send_snapshot i;
              start_time = now;
              timeout = heart_beat_timeout;
            } in
            (p, ground (arith, at), (next, at, refl, refl, inl (covered, refl)))
        | no behind ↦
            let (args, e, position, carries) =
              append_entries_args-Carries (during r cs ts) (during-Inv r cs ts inv) i next at
                (omega arith) near in
            let p : Posted = record {
              task = send_append_entries i args c;
              start_time = now;
              timeout = heart_beat_timeout;
            } in
            (
              p,
              ground (arith, at, e),
              (
                next,
                at,
                refl,
                refl,
                inr (
                  args,
                  omega arith,
                  omega (arith, position),
                  refl,
                  Carries-during r cs ts args carries,
                ),
              ),
            )
      ]

  heart_beats-Round :
      (n i : ℕ) (ts : List Posted)
      → i + n ≤ r.peers
      → (new : List Posted) × (heart_beats n i now c (during r cs ts)
          ≡ some (during r cs (ts ++ new)))
        × Round r now c n i new
  unfolding heart_beats
  heart_beats-Round zero i ts h = ([], rw (append-nil ts) refl, refl)
  heart_beats-Round (suc n) i ts h = elim (ℕ_discrete i r.me) [
    | yes own ↦
        let (new, e, round) = heart_beats-Round n (i + 1) ts (omega arith) in
        (new, ground (arith, own, e), inl (own, round))
    | no other ↦
        let (p, posted, task) = heart_beat_to-ForNode i ts (omega arith) in
        let (rest, e, round) = heart_beats-Round n (i + 1) (ts ++ p ∷ []) (omega arith) in
        (
          p ∷ rest,
          ground (arith, posted, e, append_assoc ts (p ∷ []) rest),
          inr (other, (p, rest, refl, task, round)),
        )
  ]

-- A leader in order whose next indices lie within its log, or one past it, posts one task for every
-- other node: its snapshot to a node that lacks entries which the snapshot covers, and to any other a
-- request of its own term and commit index with all entries from the node's next index to the end of
-- its log, after an entry whose term the request tells. All share one new counter, which stands at 1.
-- No read leaves the log; apart from the heart beat timer nothing else changes.
pub do_heart_beat_lem :
    (now : ℕ) (r : Raft)
    → Inv r
    → IsTracked r
    → is_leader r.status ≡ true
    → (new : List Posted) × (do_heart_beat now r
        ≡ some (record r {
          rpc_tasks = r.rpc_tasks ++ new;
          counters = r.counters ++ 1 ∷ [];
          last_reset_heart_beat_time = now;
        }))
      × Round r now (length r.counters) r.peers 0 new
unfolding do_heart_beat
do_heart_beat_lem now r inv tracked leads =
    let (new, e, round) =
      heart_beats-Round r inv tracked now (length r.counters) (r.counters ++ 1 ∷ []) r.peers 0
        r.rpc_tasks (omega arith) in
    (new, ground (arith, leads, e), round)
