-- ===== src/Raft/Snapshot/Send.antt =====
-- The leader's side of a snapshot.
use kvstorage_base_raft_cpp.Base.{ℕ, Bytes, ◌≡◌, Bool, some, arith}
use kvstorage_base_raft_cpp.Message.{InstallSnapshotRequest, InstallSnapshotResponse}
use kvstorage_base_raft_cpp.Archive.{Archive}
use kvstorage_base_raft_cpp.Raft.{Raft}
use kvstorage_base_raft_cpp.Raft.Store.{persist}
use kvstorage_base_raft_cpp.Raft.Progress.{Kept, Aside}
use kvstorage_base_raft_cpp.Raft.Snapshot.{
  compact, take_snapshot, snapshot_request, receive_snapshot,
}

module _ ⦃a : Archive⦄ where
  pub snapshot_request-Kept : (r : Raft) → Kept r (snapshot_request r).1
  unfolding snapshot_request
  snapshot_request-Kept r = record { term_grows = omega arith; vote_kept = λ e v p. p }

  pub snapshot_request-Aside : (r : Raft) → Aside r (snapshot_request r).1
  unfolding snapshot_request
  snapshot_request-Aside r = ground arith

  pub receive_snapshot-Kept :
      (now server : ℕ) (args : InstallSnapshotRequest) (ok : Bool) (reply : InstallSnapshotResponse)
      (r : Raft)
      → Kept r (receive_snapshot now server args ok reply r)
  unfolding receive_snapshot persist
  receive_snapshot-Kept now server args ok reply r = record {
    term_grows = ground arith;
    vote_kept = λ e v p. ground arith;
  }

  pub receive_snapshot-Aside :
      (now server : ℕ) (args : InstallSnapshotRequest) (ok : Bool) (reply : InstallSnapshotResponse)
      (r : Raft)
      → Aside r (receive_snapshot now server args ok reply r)
  unfolding receive_snapshot persist
  receive_snapshot-Aside now server args ok reply r = ground arith

  pub take_snapshot-vote :
      (i : ℕ) (snapshot : Bytes) (r q : Raft)
      → take_snapshot i snapshot r ≡ some q
      → (q.current_term ≡ r.current_term) × (q.voted_for ≡ r.voted_for)
  unfolding take_snapshot compact
  take_snapshot-vote i snapshot r q e = (ground arith, ground arith)
