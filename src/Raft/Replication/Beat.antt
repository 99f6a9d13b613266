-- ===== src/Raft/Replication/Beat.antt =====
-- What a round of heart beats leaves as it is.
use kvstorage_base_raft_cpp.Base.{
  ℕ, zero, suc, ◌+◌, ◌≡◌, ◌++◌, refl, ap, some, List, [], ◌∷◌, arith, length, ltb, ◌==◌,
  >>=-eq-some, if◌then◌else◌, Bool-cases, inl, inr,
}
use mathlib.Core.List.{append-nil}
use kvstorage_base_raft_cpp.Raft.{Raft, is_leader, commit_with_timeout}
use kvstorage_base_raft_cpp.Raft.Bystander.{IsStart}
use kvstorage_base_raft_cpp.Raft.Progress.{Posts, Posts-trans}
use kvstorage_base_raft_cpp.Raft.Replication.{
  heart_beat_to, heart_beats, do_heart_beat, heart_beat_time_out,
}

pub heart_beat_to-Posts : (now c i : ℕ) (r q : Raft) → heart_beat_to now c i r ≡ some q → Posts r q
unfolding heart_beat_to commit_with_timeout
heart_beat_to-Posts now c i r q e = ground arith

beat_if_other-Posts :
    (now c i : ℕ) (r q : Raft)
    → (if i == r.me then some r else heart_beat_to now c i r) ≡ some q
    → Posts r q
beat_if_other-Posts now c i r q e = ground (arith, heart_beat_to-Posts now c i r q)

heart_beats-Posts : (n i now c : ℕ) (r q : Raft) → heart_beats n i now c r ≡ some q → Posts r q
unfolding heart_beats
heart_beats-Posts zero i now c r q e = ground arith
heart_beats-Posts (suc n) i now c r q e =
    let (s, first, rest) =
      >>=-eq-some (if i == r.me then some r else heart_beat_to now c i r) _ e in
    Posts-trans r s q (beat_if_other-Posts now c i r s first)
      (heart_beats-Posts n (i + 1) now c s q rest)

-- A heart beat touches only the posted tasks, the counters and its timer.
abbrev pub Beat : Raft → Raft → Type 0
Beat r q = q ≡ record r {
  rpc_tasks = q.rpc_tasks;
  counters = q.counters;
  last_reset_heart_beat_time = q.last_reset_heart_beat_time;
}

do_heart_beat-Beat : (now : ℕ) (r q : Raft) → do_heart_beat now r ≡ some q → Beat r q
unfolding do_heart_beat
do_heart_beat-Beat now r q e = elim (Bool-cases (is_leader r.status)) [
  | inr other ↦ ground arith
  | inl leads ↦
      let start : Raft = record r { counters = r.counters ++ 1 ∷ [] } in
      let (s, beats, rest) =
        >>=-eq-some (heart_beats r.peers 0 now (length r.counters) start)
          (λ q. some (record q { last_reset_heart_beat_time = now })) {b = q} (ground arith) in
      ground (arith, heart_beats-Posts r.peers 0 now (length r.counters) start s beats)
]

pub heart_beat_time_out-Beat :
    (wake now : ℕ) (r q : Raft) → heart_beat_time_out wake now r ≡ some q → Beat r q
unfolding heart_beat_time_out
heart_beat_time_out-Beat wake now r q e = ground (arith, do_heart_beat-Beat now r q)

do_heart_beat-counters :
    (now : ℕ) (r q : Raft)
    → do_heart_beat now r ≡ some q
    → (more : List ℕ) × IsStart more × (q.counters ≡ r.counters ++ more)
unfolding do_heart_beat
do_heart_beat-counters now r q e = elim (Bool-cases (is_leader r.status)) [
  | inr other ↦ ([], inl refl, ground (arith, append-nil r.counters))
  | inl leads ↦
      let start : Raft = record r { counters = r.counters ++ 1 ∷ [] } in
      let (s, beats, rest) =
        >>=-eq-some (heart_beats r.peers 0 now (length r.counters) start)
          (λ q. some (record q { last_reset_heart_beat_time = now })) {b = q} (ground arith) in
      let posts = heart_beats-Posts r.peers 0 now (length r.counters) start s beats in
      (1 ∷ [], inr refl, ground (arith, ap (λ (x : Raft). x.counters) posts))
]

-- A round of heart beats begins with a counter of its own.
pub heart_beat_time_out-counters :
    (wake now : ℕ) (r q : Raft)
    → heart_beat_time_out wake now r ≡ some q
    → (more : List ℕ) × IsStart more × (q.counters ≡ r.counters ++ more)
unfolding heart_beat_time_out
heart_beat_time_out-counters wake now r q e =
    elim (Bool-cases (ltb wake r.last_reset_heart_beat_time)) [
      | inl reset ↦ ([], inl refl, ground (arith, append-nil r.counters))
      | inr due ↦ do_heart_beat-counters now r q (ground arith)
    ]
