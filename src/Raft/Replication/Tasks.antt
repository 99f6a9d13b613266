-- ===== src/Raft/Replication/Tasks.antt =====
-- The requests to append that a round of heart beats posts, whatever its next indices are.
use native.Mathlib.Decide.{dec_le}
use kvstorage_base_raft_cpp.Base.{
  ℕ, zero, suc, ◌+◌, ◌-◌, ◌≤◌, ◌<◌, ◌≡◌, ◌≢◌, sym, ap, ◌∙◌, inl, inr, some, List, [], ◌∷◌, ◌++◌,
  arith, get_elem?, get_elem?-lt, length, leb, ltb, ◌==◌, if◌then◌else◌, >>=-eq-some, Bool-cases,
  Option-cases, length-append,
}
use mathlib.Core.List.{append-nil, append_assoc}
use kvstorage_base_raft_cpp.Message.{AppendEntriesArgs}
use kvstorage_base_raft_cpp.Raft.{
  Raft, Posted, is_leader, send_append_entries, leader_send_snapshot, commit_with_timeout,
  get_prev_log_info,
}
use kvstorage_base_raft_cpp.Raft.Log.{Inv, log_at_lem}
use kvstorage_base_raft_cpp.Raft.Posts.{
  HasAppend, HasAppend-append, HasAppend-at, IsTail, IsWithin, NewAppends, same-NewAppends,
  KeepsAppends, same-KeepsAppends, added-KeepsAppends,
}
use kvstorage_base_raft_cpp.Raft.Replication.{
  append_entries_args, heart_beat_to, heart_beats, do_heart_beat, heart_beat_time_out,
  heart_beat_timeout,
}
use kvstorage_base_raft_cpp.Raft.Replication.HeartBeat.{append_entries_args-Carries}

module _ (r : Raft) (inv : Inv r) (i : ℕ) (args : AppendEntriesArgs)
    (made : append_entries_args i r ≡ some args) where
  -- A request that is made starts within the log.
  made_near :
      (next : ℕ)
      → get_elem? r.next_index i ≡ some next
      → r.last_snapshot_include_index < next
      → next ≤ suc (r.last_snapshot_include_index + length r.logs)
  unfolding append_entries_args get_prev_log_info
  made_near next at behind =
      elim (dec_le next (suc (r.last_snapshot_include_index + length r.logs))) [
        | yes near ↦ near
        | no far ↦
            let place = log_at_lem r (next - 1) (omega arith) in
            elim (Option-cases (get_elem? r.logs (next - 1 - suc r.last_snapshot_include_index))) [
              | inr (log, found) ↦ absurd (
                  omega (
                    arith,
                    get_elem?-lt r.logs (next - 1 - suc r.last_snapshot_include_index) log found,
                  ))
              | inl missing ↦ absurd (ground (arith, made, at, place, missing))
            ]
      ]

  made-IsWithin :
      (next : ℕ)
      → get_elem? r.next_index i ≡ some next
      → r.last_snapshot_include_index < next
      → IsWithin r args × IsTail r args
  made-IsWithin next at behind =
      let (args', e, position, carries) =
        append_entries_args-Carries r inv i next at behind (made_near next at behind) in
      let same : args' ≡ args = ground (arith, made, e) in
      rw (← same) (
        record { well_formed = carries.well_formed; to_end = omega (arith, carries.to_the_end) },
        (args'.prev_log_index - r.last_snapshot_include_index, carries.rest, carries.to_the_end),
      )

-- A request of a round: it lies within the log, carries its end, and goes to another node.
pub record IsSent (r : Raft) (c k : ℕ) (args : AppendEntriesArgs) (d : ℕ) : Type 0 where
  pub within : IsWithin r args
  pub tail : IsTail r args
  pub of_round : d ≡ c
  pub to_node : k < r.peers
  pub to_other : k ≢ r.me

-- The requests to append among new tasks.
abbrev Adds : Raft → ℕ → List Posted → Type 0
Adds r c ps =
    (k : ℕ) (args : AppendEntriesArgs) (d : ℕ) → HasAppend k args d ps → IsSent r c k args d

heart_beat_to-Adds :
    (now c i : ℕ) (r q : Raft)
    → Inv r
    → i < r.peers
    → i ≢ r.me
    → heart_beat_to now c i r ≡ some q
    → (p : Posted) × (q ≡ record r { rpc_tasks = r.rpc_tasks ++ p ∷ [] }) × Adds r c (p ∷ [])
unfolding heart_beat_to commit_with_timeout
heart_beat_to-Adds now c i r q inv below other e =
    let (next, at, rest) = >>=-eq-some (get_elem? r.next_index i) _ e in
    elim (Bool-cases (leb next r.last_snapshot_include_index)) [
      | inl covered ↦ (
        record { task = leader_send_snapshot i; start_time = now; timeout = heart_beat_timeout },
        ground (arith, rest),
        λ k args d. λ h. absurd (ground (arith, h)),
      )
      | inr behind ↦
          let (args, made, posted) =
            >>=-eq-some (append_entries_args i r)
              (λ args.
                some (commit_with_timeout (send_append_entries i args c) heart_beat_timeout now r))
              {b = q} (ground (arith, rest)) in
          let (within, tail) = made-IsWithin r inv i args made next at (ground arith) in
          (
            record {
              task = send_append_entries i args c;
              start_time = now;
              timeout = heart_beat_timeout;
            },
            ground (arith, posted),
            λ k sent d. λ h.
                let same : (args ≡ sent) × (c ≡ d) × (i ≡ k) = ground (arith, h) in
                record {
                  within = rw (← same.0) within;
                  tail = rw (← same.0) tail;
                  of_round = sym same.1;
                  to_node = omega (arith, same.2);
                  to_other = λ own. other (same.2 ∙ own);
                },
          )
    ]

-- The leader during the round: tasks have been posted.
abbrev posted : Raft → List Posted → Raft
posted r ts = record r { rpc_tasks = ts }

posted-Inv : (r : Raft) (ts : List Posted) → Inv r → Inv (posted r ts)
posted-Inv r ts inv = record {
  consecutive = inv.consecutive;
  compacted = inv.compacted;
  applied = inv.applied;
  committed = inv.committed;
}

posted-Adds :
    (r : Raft) (ts : List Posted) (c : ℕ) (ps : List Posted) → Adds (posted r ts) c ps → Adds r c ps
posted-Adds r ts c ps adds k args d h =
    let sent = adds k args d h in
    record {
      within = record { well_formed = sent.within.well_formed; to_end = sent.within.to_end };
      tail = sent.tail;
      of_round = sent.of_round;
      to_node = sent.to_node;
      to_other = sent.to_other;
    }

Adds-append :
    (r : Raft) (c : ℕ) (ps qs : List Posted) → Adds r c ps → Adds r c qs → Adds r c (ps ++ qs)
Adds-append r c ps qs first rest k args d h = elim (HasAppend-append k args d ps qs h) [
  | inl before ↦ first k args d before
  | inr behind ↦ rest k args d behind
]

heart_beats-Adds :
    (n i now c : ℕ) (r : Raft) (ts : List Posted) (q : Raft)
    → Inv r
    → i + n ≤ r.peers
    → heart_beats n i now c (posted r ts) ≡ some q
    → (more : List Posted) × (q ≡ posted r (ts ++ more)) × Adds r c more
unfolding heart_beats
heart_beats-Adds zero i now c r ts q inv below e =
    ([], ground (arith, append-nil ts), λ k args d. λ h. absurd h)
heart_beats-Adds (suc n) i now c r ts q inv below e =
    let (s, first, rest) =
      >>=-eq-some (if i == r.me then some (posted r ts) else heart_beat_to now c i (posted r ts)) _
        e in
    elim (Bool-cases (i == r.me)) [
      | inl own ↦
          let same : posted r ts ≡ s = ground (arith, first) in
          heart_beats-Adds n (i + 1) now c r ts q inv (omega arith) (rw same rest)
      | inr other ↦
          let (p, at, adds) =
            heart_beat_to-Adds now c i (posted r ts) s (posted-Inv r ts inv) (omega arith)
              (ground arith) (ground (arith, first)) in
          let (more, e', adds') =
            heart_beats-Adds n (i + 1) now c r (ts ++ p ∷ []) q inv (omega arith)
              (rw (← at) rest) in
          (
            p ∷ more,
            e' ∙ ap (posted r) (append_assoc ts (p ∷ []) more),
            Adds-append r c (p ∷ []) more (posted-Adds r ts c (p ∷ []) adds) adds',
          )
    ]

do_heart_beat-NewAppends :
    (now : ℕ) (r q : Raft)
    → Inv r
    → do_heart_beat now r ≡ some q
    → NewAppends r q × KeepsAppends r q
unfolding do_heart_beat
do_heart_beat-NewAppends now r q inv e = elim (Bool-cases (is_leader r.status)) [
  | inr other ↦
      let tasks : q.rpc_tasks ≡ r.rpc_tasks = ground (arith, e) in
      (same-NewAppends r q tasks, same-KeepsAppends r q tasks)
  | inl leads ↦
      let start : Raft = record r { counters = r.counters ++ 1 ∷ [] } in
      let inv' : Inv start = record {
        consecutive = inv.consecutive;
        compacted = inv.compacted;
        applied = inv.applied;
        committed = inv.committed;
      } in
      let (s, beats, rest) =
        >>=-eq-some (heart_beats r.peers 0 now (length r.counters) start)
          (λ q. some (record q { last_reset_heart_beat_time = now })) {b = q} (ground (arith, e)) in
      let (more, at, adds) =
        heart_beats-Adds r.peers 0 now (length r.counters) start r.rpc_tasks s inv' (omega arith)
          beats in
      let tasks : q.rpc_tasks ≡ r.rpc_tasks ++ more = ground (arith, at, rest) in
      let grown : length q.counters ≡ length r.counters + 1 =
        ground (arith, at, rest, length-append r.counters (1 ∷ [])) in
      (
        λ k args c h.
            elim (HasAppend-append k args c r.rpc_tasks more (HasAppend-at k args c tasks h)) [
              | inl before ↦ inl before
              | inr added ↦
                  let sent = adds k args c added in
                  inr (record {
                    within = record {
                      well_formed = sent.within.well_formed;
                      to_end = sent.within.to_end;
                    };
                    from = omega (arith, sent.of_round);
                    to = omega (arith, sent.of_round, grown);
                    tail = sent.tail;
                    to_node = sent.to_node;
                    to_other = sent.to_other;
                  })
            ],
        added-KeepsAppends r q more tasks,
      )
]

-- A heart beat posts requests within the log, of a round of their own.
pub heart_beat_time_out-NewAppends :
    (wake now : ℕ) (r q : Raft)
    → Inv r
    → heart_beat_time_out wake now r ≡ some q
    → NewAppends r q × KeepsAppends r q
unfolding heart_beat_time_out
heart_beat_time_out-NewAppends wake now r q inv e =
    elim (Bool-cases (ltb wake r.last_reset_heart_beat_time)) [
      | inl reset ↦
          let tasks : q.rpc_tasks ≡ r.rpc_tasks = ground (arith, e) in
          (same-NewAppends r q tasks, same-KeepsAppends r q tasks)
      | inr due ↦ do_heart_beat-NewAppends now r q inv (ground (arith, e))
    ]
