-- ===== src/Raft/Group/Apart.antt =====
-- A step that is no part of an election leaves the elections of its node as they are.
use kvstorage_base_raft_cpp.Base.{ℕ, ◌≡◌, refl, arith, some}
use kvstorage_base_raft_cpp.Message.{Op}
use kvstorage_base_raft_cpp.Archive.{Archive}
use kvstorage_base_raft_cpp.Raft.{Raft}
use kvstorage_base_raft_cpp.Raft.Log.{Inv}
use kvstorage_base_raft_cpp.Raft.Store.{persist}
use kvstorage_base_raft_cpp.Raft.Bystander.{Bystander, SameRounds-Bystander}
use kvstorage_base_raft_cpp.Raft.Replication.Bystander.{heart_beat_time_out-Bystander}
use kvstorage_base_raft_cpp.Raft.Snapshot.Bystander.{
  install_snapshot-Bystander, snapshot_request-Bystander, receive_snapshot-Bystander,
  take_snapshot-Bystander,
}
use kvstorage_base_raft_cpp.Raft.Apply.{applier_tick}
use kvstorage_base_raft_cpp.Raft.Apply.Order.{applier_tick_lem, push_message-SameNode}
use kvstorage_base_raft_cpp.Raft.Node.{start}
use kvstorage_base_raft_cpp.Raft.Node.Steps.{
  Step, votes, vote_arrives, election_timer, appends, append_arrives, heart_beat_timer, installs,
  sends_snapshot, snapshot_arrives, compacts, applies, pushes, starts,
}
use kvstorage_base_raft_cpp.Raft.Group.{IsApart}

module _ ⦃a : Archive⦄ where
  applies-Bystander :
      (x : ℕ) (r : Raft) {q : Raft} → Inv r → applier_tick r ≡ some q → Bystander x r q
  applies-Bystander x r {q} inv e =
      let (msgs, e', commands) = applier_tick_lem r inv in
      let same : record r { last_applied = r.commit_index; apply_msgs = msgs } ≡ q = cc in
      rw (← same) (SameRounds-Bystander x (refl, refl, refl, refl) (λ h. (h, refl)))

  starts-Bystander : (x : ℕ) (command : Op) (r : Raft) → Bystander x r (start command r).1
  unfolding start persist
  starts-Bystander x command r =
      SameRounds-Bystander x (ground arith) (λ h. (ground arith, ground arith))

  -- Such a step may change no counter.
  pub IsApart-Bystander :
      (x : ℕ) {r q : Raft} (step : Step r q) → Inv r → IsApart step → Bystander x r q
  IsApart-Bystander x (votes now args e) inv apart = absurd apart
  IsApart-Bystander x (vote_arrives now c ok reply e) inv apart = absurd apart
  IsApart-Bystander x (election_timer wake now e) inv apart = absurd apart
  IsApart-Bystander x (appends now args reply h e) inv apart = absurd apart
  IsApart-Bystander x (append_arrives server args c ok reply h e) inv apart = absurd apart
  IsApart-Bystander x {r} {q} (heart_beat_timer wake now e) inv apart =
      heart_beat_time_out-Bystander x wake now r q inv e
  IsApart-Bystander x {r} {q} (installs now args reply e) inv apart =
      install_snapshot-Bystander x now args r reply q e
  IsApart-Bystander x {r} (sends_snapshot e) inv apart = rw e (snapshot_request-Bystander x r)
  IsApart-Bystander x {r} (snapshot_arrives now server args ok reply e) inv apart =
      rw e (receive_snapshot-Bystander x now server args ok reply r)
  IsApart-Bystander x {r} {q} (compacts i snapshot e) inv apart =
      take_snapshot-Bystander x i snapshot r q e
  IsApart-Bystander x {r} (pushes e) inv apart =
      rw (e, push_message-SameNode r)
        (SameRounds-Bystander x (refl, refl, refl, refl) (λ h. (h, refl)))
  IsApart-Bystander x {r} (applies idle e) inv apart = applies-Bystander x r inv e
  IsApart-Bystander x {r} (starts command e) inv apart = rw e (starts-Bystander x command r)
