-- ===== src/Raft/Snapshot/Bystander.antt =====
-- What the handlers of snapshots leave of a node's elections.
use kvstorage_base_raft_cpp.Base.{ℕ, ◌≡◌, refl, Bool, some, arith, Bytes}
use kvstorage_base_raft_cpp.Message.{InstallSnapshotRequest, InstallSnapshotResponse}
use kvstorage_base_raft_cpp.Archive.{Archive}
use kvstorage_base_raft_cpp.Raft.{Raft}
use kvstorage_base_raft_cpp.Raft.Store.{persist}
use kvstorage_base_raft_cpp.Raft.Bystander.{Bystander, SameRounds-Bystander}
use kvstorage_base_raft_cpp.Raft.Snapshot.{
  take_snapshot, compact, install_snapshot, adopt, adopt_snapshot, follow_snapshot,
  snapshot_request, receive_snapshot,
}

module _ ⦃a : Archive⦄ (x : ℕ) where
  pub install_snapshot-Bystander :
      (now : ℕ) (args : InstallSnapshotRequest) (r : Raft) (reply : InstallSnapshotResponse)
      (q : Raft)
      → install_snapshot now args r ≡ some (reply, q)
      → Bystander x r q
  unfolding install_snapshot adopt adopt_snapshot follow_snapshot persist
  install_snapshot-Bystander now args r reply q e =
      SameRounds-Bystander x (ground arith) (λ h. (ground arith, ground arith))

  pub snapshot_request-Bystander : (r : Raft) → Bystander x r (snapshot_request r).1
  unfolding snapshot_request
  snapshot_request-Bystander r = SameRounds-Bystander x (refl, refl, refl, refl) (λ h. (h, refl))

  pub receive_snapshot-Bystander :
      (now server : ℕ) (args : InstallSnapshotRequest) (ok : Bool) (reply : InstallSnapshotResponse)
      (r : Raft)
      → Bystander x r (receive_snapshot now server args ok reply r)
  unfolding receive_snapshot persist
  receive_snapshot-Bystander now server args ok reply r =
      SameRounds-Bystander x (ground arith) (λ h. (ground arith, ground arith))

  pub take_snapshot-Bystander :
      (i : ℕ) (snapshot : Bytes) (r q : Raft)
      → take_snapshot i snapshot r ≡ some q
      → Bystander x r q
  unfolding take_snapshot compact
  take_snapshot-Bystander i snapshot r q e =
      SameRounds-Bystander x (ground arith) (λ h. (ground arith, ground arith))
