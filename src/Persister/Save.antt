-- ===== src/Persister/Save.antt =====
-- What is read back after a save.
use kvstorage_base_raft_cpp.Base.{ℕ, ◌≡◌, refl, ap, ◌∙◌, true, [], ◌∷◌, ◌++◌, Bytes}
use kvstorage_base_raft_cpp.Persister.{
  Persister, is_space, read_word, save, read_snapshot, read_raft_state, create, destroy,
}
use kvstorage_base_raft_cpp.Persister.Words.{IsWord, read_word-IsWord, read_word-append}

-- What the first and the second `read_snapshot` return.
abbrev pub reads : Persister → Bytes × Bytes
reads p = let (first, q) = read_snapshot p in (first, (read_snapshot q).0)

reads-save :
    (p : Persister) (raftstate snapshot : Bytes)
    → reads (save raftstate snapshot p) ≡ (read_word snapshot, [])
unfolding save read_snapshot
reads-save p raftstate snapshot = refl

-- A snapshot with no white space is read back whole after `save`, whatever was stored before; the
-- first read empties the file, so the second returns nothing.
pub read_snapshot-save :
    (p : Persister) (raftstate snapshot : Bytes)
    → IsWord snapshot
    → reads (save raftstate snapshot p) ≡ (snapshot, [])
read_snapshot-save p raftstate snapshot h =
    rw (reads-save p raftstate snapshot, read_word-IsWord snapshot h)

-- Of a snapshot that holds white space after its first word, as a text archive does, only that word
-- is read back.
pub read_snapshot-save_archive :
    (p : Persister) (raftstate : Bytes) (x : ℕ) (w : Bytes) (c : ℕ) (rest : Bytes)
    → IsWord (x ∷ w)
    → is_space c ≡ true
    → (read_snapshot (save raftstate (x ∷ w ++ c ∷ rest) p)).0 ≡ x ∷ w
read_snapshot-save_archive p raftstate x w c rest h e =
    ap (λ r. r.0) (reads-save p raftstate (x ∷ w ++ c ∷ rest)) ∙ read_word-append x w c rest h e

-- Whatever state and snapshot a node saved before it stopped, the persister that the next run
-- creates over its files reads back neither.
pub create-forgets :
    (p : Persister) (raftstate snapshot : Bytes)
    → let old = destroy (save raftstate snapshot p) in
      let new = create old.raft_state_out_stream.file old.snapshot_out_stream.file in
      (old.raft_state_out_stream.file ≡ raftstate)
      × (old.snapshot_out_stream.file ≡ snapshot)
      × (read_raft_state new ≡ [])
      × ((read_snapshot new).0 ≡ [])
unfolding save create destroy read_raft_state read_snapshot
create-forgets p raftstate snapshot = (refl, refl, refl, refl)
