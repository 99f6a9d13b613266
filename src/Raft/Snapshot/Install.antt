-- ===== src/Raft/Snapshot/Install.antt =====
-- `InstallSnapshot`: the log behind the leader's snapshot, and what is handed to the key-value
-- server.
use native.Mathlib.Decide.{dec_lt, dec_le}
use kvstorage_base_raft_cpp.Base.{
  ℕ, suc, ◌+◌, ◌-◌, ◌≤◌, ◌<◌, ◌≡◌, refl, ap, ◌∙◌, some, [], ◌∷◌, ◌++◌, arith, drop, drop_all,
  length, length-drop, max, sub_ℕ_le,
}
use kvstorage_base_raft_cpp.Message.{InstallSnapshotRequest, InstallSnapshotResponse}
use kvstorage_base_raft_cpp.Archive.{Archive}
use kvstorage_base_raft_cpp.Persister.{save}
use kvstorage_base_raft_cpp.Raft.{Raft, follower}
use kvstorage_base_raft_cpp.Raft.Store.{persist, persist_data}
use kvstorage_base_raft_cpp.Raft.Log.{
  Inv, IsConsecutive, IsConsecutive-at, IsConsecutive-drop, get_last_log_index_lem,
}
use kvstorage_base_raft_cpp.Raft.Progress.{
  Kept, Kept-refl, Onward, Onward-refl, Onward-trans, Aside, Aside-Onward,
}
use kvstorage_base_raft_cpp.Raft.Snapshot.{
  snapshot_msg, logs_behind, adopt_snapshot, adopt, follow_snapshot, install_snapshot,
}

-- The log that is left behind a snapshot: what is further on, or nothing.
module _ (args : InstallSnapshotRequest) (r : Raft) (inv : Inv r)
    (newer : r.last_snapshot_include_index < args.last_snapshot_include_index) where
  abbrev skipped : ℕ
  skipped = args.last_snapshot_include_index - r.last_snapshot_include_index

  logs_behind-drop : logs_behind args r ≡ some (drop skipped r.logs)
  unfolding logs_behind
  logs_behind-drop = elim (dec_lt args.last_snapshot_include_index last) [
    | yes longer ↦
        let past : suc (args.last_snapshot_include_index - suc r.last_snapshot_include_index)
            ≡ skipped =
          omega arith in
        ground (
          arith,
          get_last_log_index_lem r inv.consecutive,
          sub_ℕ_le args.last_snapshot_include_index (suc r.last_snapshot_include_index) newer,
          ap (λ n. drop n r.logs) past,
        )
    | no shorter ↦
        ground
          (arith, get_last_log_index_lem r inv.consecutive, drop_all skipped r.logs (omega arith))
  ]
    where
      last : ℕ
      last = r.last_snapshot_include_index + length r.logs

  rest_IsConsecutive : IsConsecutive args.last_snapshot_include_index (drop skipped r.logs)
  rest_IsConsecutive = elim (dec_le skipped (length r.logs)) [
    | yes inside ↦
        IsConsecutive-at _ (omega arith)
          (IsConsecutive-drop skipped r.last_snapshot_include_index r.logs inv.consecutive inside)
    | no past ↦ rw (drop_all skipped r.logs (omega arith)) tt
  ]

  abbrev adopted : Raft
  adopted = adopt_snapshot args (drop skipped r.logs) r

  adopted-Onward : Onward r adopted
  unfolding adopt_snapshot
  adopted-Onward = record {
    inv_kept = record {
      consecutive = rest_IsConsecutive;
      compacted = omega arith;
      applied = omega (arith, inv.applied);
      committed = omega (arith, inv.committed, length-drop skipped r.logs);
    };
    snapshot_grows = omega arith;
    applied_grows = omega arith;
    commit_grows = omega arith;
    log_grows = omega (arith, length-drop skipped r.logs);
  }

module _ ⦃a : Archive⦄ where
  -- The state after a snapshot that was adopted, with the rest of the log.
  abbrev pub after_adopt : InstallSnapshotRequest → Raft → Raft
  after_adopt args r =
      let q =
        adopt_snapshot args
          (drop (args.last_snapshot_include_index - r.last_snapshot_include_index) r.logs) r in
      record q { persister = save (persist_data q) args.snapshot q.persister }

  adopt-newer :
      (args : InstallSnapshotRequest) (r : Raft)
      → Inv r
      → r.last_snapshot_include_index < args.last_snapshot_include_index
      → adopt args r ≡ some (record { term = r.current_term }, after_adopt args r)
  unfolding adopt adopt_snapshot
  adopt-newer args r inv newer = ground (arith, logs_behind-drop args r inv newer)

  after_adopt-Onward :
      (args : InstallSnapshotRequest) (r : Raft)
      → Inv r
      → r.last_snapshot_include_index < args.last_snapshot_include_index
      → Onward r (after_adopt args r)
  unfolding adopt_snapshot
  after_adopt-Onward args r inv newer = Onward-trans (adopted-Onward args r inv newer) (
      Aside-Onward {q = after_adopt args r}
        (record {
          same_snapshot = refl;
          same_logs = refl;
          same_applied = refl;
          same_commit = refl;
          same_chan = refl;
          same_msgs = refl;
        })
        (adopted-Onward args r inv newer).inv_kept)

  adopt-Onward :
      (args : InstallSnapshotRequest) (r : Raft)
      → Inv r
      → (reply : InstallSnapshotResponse) × (q : Raft) × (adopt args r ≡ some (reply, q))
        × Onward r q
        × (q.current_term ≡ r.current_term)
        × (q.voted_for ≡ r.voted_for)
  unfolding adopt adopt_snapshot
  adopt-Onward args r inv =
      elim (dec_lt r.last_snapshot_include_index args.last_snapshot_include_index) [
        | yes newer ↦ (
          record { term = r.current_term },
          after_adopt args r,
          adopt-newer args r inv newer,
          after_adopt-Onward args r inv newer,
          refl,
          refl,
        )
        | no outdated ↦ (record { term = 0 }, r, ground arith, Onward-refl r inv, refl, refl)
      ]

  follow_snapshot-Aside : (now term : ℕ) (r : Raft) → Aside r (follow_snapshot now term r)
  unfolding follow_snapshot persist
  follow_snapshot-Aside now term r = ground arith

  follow_snapshot-Kept :
      (now term : ℕ) (r : Raft) → r.current_term ≤ term → Kept r (follow_snapshot now term r)
  unfolding follow_snapshot persist
  follow_snapshot-Kept now term r h = record {
    term_grows = ground arith;
    vote_kept = λ e v p. ground arith;
  }

  follow_snapshot-same :
      (now term : ℕ) (r : Raft)
      → r.current_term ≤ term
      → let s = follow_snapshot now term r in
        (s.current_term ≡ term) × (s.apply_chan ≡ r.apply_chan)
  unfolding follow_snapshot persist
  follow_snapshot-same now term r h = (ground arith, ground arith)

  follow_snapshot-status :
      (now term : ℕ) (r : Raft) → (follow_snapshot now term r).status ≡ follower
  unfolding follow_snapshot
  follow_snapshot-status now term r = refl

  pub install_snapshot-Onward :
      (now : ℕ) (args : InstallSnapshotRequest) (r : Raft)
      → Inv r
      → (reply : InstallSnapshotResponse) × (q : Raft) × (install_snapshot now args r
          ≡ some (reply, q))
        × Onward r q
        × Kept r q
  unfolding install_snapshot
  install_snapshot-Onward now args r inv = elim (dec_lt args.term r.current_term) [
    | yes stale ↦
        (record { term = r.current_term }, r, ground arith, Onward-refl r inv, Kept-refl r)
    | no newer ↦
        let s : Raft = follow_snapshot now args.term r in
        let aside = Aside-Onward (follow_snapshot-Aside now args.term r) inv in
        let kept = follow_snapshot-Kept now args.term r (omega arith) in
        let (reply, q, e, onward, term, vote) = adopt-Onward args s aside.inv_kept in
        (
          reply,
          q,
          ground (arith, e),
          Onward-trans aside onward,
          record {
            term_grows = omega (arith, kept.term_grows, term);
            vote_kept = λ same v p. vote ∙ kept.vote_kept (omega (arith, term)) v p;
          },
        )
  ]

  -- Every snapshot that a leader sends is answered: no erasure leaves the log, the node stays in
  -- order, no position goes back, and the term does not fall.
  pub install_snapshot_total :
      (now : ℕ) (args : InstallSnapshotRequest) (r : Raft)
      → Inv r
      → (reply : InstallSnapshotResponse) × (q : Raft) × (install_snapshot now args r
          ≡ some (reply, q))
        × Onward r q
        × (r.current_term ≤ q.current_term)
  install_snapshot_total now args r inv =
      let (reply, q, e, onward, kept) = install_snapshot-Onward now args r inv in
      (reply, q, e, onward, kept.term_grows)

  -- A snapshot that is newer than the node's, at a term that is not behind, takes its place, with its
  -- index and its term: the node is a follower at the request's term, what is left of the log is what
  -- lies behind the snapshot, all it covers counts as committed and applied, the state and the snapshot
  -- are saved, the reply has the new term, and the key-value server is sent the snapshot after all that
  -- was sent before.
  pub install_snapshot_newer :
      (now : ℕ) (args : InstallSnapshotRequest) (r : Raft)
      → Inv r
      → r.current_term ≤ args.term
      → r.last_snapshot_include_index < args.last_snapshot_include_index
      → (q : Raft) × (install_snapshot now args r ≡ some (record { term = args.term }, q))
        × (q.last_snapshot_include_index ≡ args.last_snapshot_include_index)
        × (q.last_snapshot_include_term ≡ args.last_snapshot_include_term)
        × (q.current_term ≡ args.term)
        × (q.status ≡ follower)
        × (q.persister
            ≡ save (persist_data q) args.snapshot (follow_snapshot now args.term r).persister)
        × (q.logs ≡ drop (args.last_snapshot_include_index - r.last_snapshot_include_index) r.logs)
        × (q.commit_index ≡ max r.commit_index args.last_snapshot_include_index)
        × (q.last_applied ≡ max r.last_applied args.last_snapshot_include_index)
        × (q.apply_chan ≡ r.apply_chan ++ snapshot_msg args ∷ [])
  unfolding install_snapshot adopt_snapshot save persist_data
  install_snapshot_newer now args r inv term newer =
      let s : Raft = follow_snapshot now args.term r in
      let aside = follow_snapshot-Aside now args.term r in
      let (same_term, same_chan) = follow_snapshot-same now args.term r term in
      let e =
        adopt-newer args s (Aside-Onward aside inv).inv_kept (omega (arith, aside.same_snapshot)) in
      (
        after_adopt args s,
        ground (arith, e, same_term),
        refl,
        refl,
        same_term,
        follow_snapshot-status now args.term r,
        refl,
        rw (aside.same_snapshot, aside.same_logs),
        rw aside.same_commit,
        rw aside.same_applied,
        rw same_chan,
      )
