-- ===== src/Raft/Snapshot/Channel.antt =====
-- What snapshots put into the channel of the key-value server.
use kvstorage_base_raft_cpp.Base.{ℕ, ◌≡◌, ◌⊎◌, Bytes, some, [], ◌∷◌, ◌++◌, arith}
use kvstorage_base_raft_cpp.Message.{InstallSnapshotRequest, InstallSnapshotResponse}
use kvstorage_base_raft_cpp.Archive.{Archive}
use kvstorage_base_raft_cpp.Raft.{Raft}
use kvstorage_base_raft_cpp.Raft.Store.{persist}
use kvstorage_base_raft_cpp.Raft.Snapshot.{
  take_snapshot, compact, snapshot_msg, adopt, adopt_snapshot, follow_snapshot, install_snapshot,
}

module _ ⦃a : Archive⦄ where
  pub take_snapshot-chan :
      (i : ℕ) (snapshot : Bytes) (r q : Raft)
      → take_snapshot i snapshot r ≡ some q
      → (q.apply_chan ≡ r.apply_chan) × (q.apply_msgs ≡ r.apply_msgs)
  unfolding take_snapshot compact
  take_snapshot-chan i snapshot r q e = (ground arith, ground arith)

  adopt-chan :
      (args : InstallSnapshotRequest) (r : Raft) (reply : InstallSnapshotResponse) (q : Raft)
      → adopt args r ≡ some (reply, q)
      → ((q.apply_chan ≡ r.apply_chan) ⊎ (q.apply_chan ≡ r.apply_chan ++ snapshot_msg args ∷ []))
        × (q.apply_msgs ≡ r.apply_msgs)
  unfolding adopt adopt_snapshot
  adopt-chan args r reply q e = (ground arith, ground arith)

  pub install_snapshot-chan :
      (now : ℕ) (args : InstallSnapshotRequest) (r : Raft) (reply : InstallSnapshotResponse)
      (q : Raft)
      → install_snapshot now args r ≡ some (reply, q)
      → ((q.apply_chan ≡ r.apply_chan) ⊎ (q.apply_chan ≡ r.apply_chan ++ snapshot_msg args ∷ []))
        × (q.apply_msgs ≡ r.apply_msgs)
  unfolding install_snapshot follow_snapshot persist
  install_snapshot-chan now args r reply q e =
      let chan : (follow_snapshot now args.term r).apply_chan ≡ r.apply_chan = ground arith in
      let s : Raft = follow_snapshot now args.term r in
      let after : adopt args s ≡ some (reply, q)
          → ((q.apply_chan ≡ s.apply_chan)
              ⊎ (q.apply_chan ≡ s.apply_chan ++ snapshot_msg args ∷ []))
            × (q.apply_msgs ≡ s.apply_msgs) =
        adopt-chan args s reply q in
      let msgs : (follow_snapshot now args.term r).apply_msgs ≡ r.apply_msgs = ground arith in
      (ground (arith, chan, after), ground (arith, msgs, after))
