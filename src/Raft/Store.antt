-- ===== src/Raft/Store.antt =====
-- `Raft::persistData`, `readPersist` and `persist`: the part of a node's state that is stored.
use kvstorage_base_raft_cpp.Base.{ℕ, ◌≡◌, refl, sym, ap, ◌∙◌, List, [], ◌∷◌, map, Bytes}
use kvstorage_base_raft_cpp.Message.{LogEntry, BoostPersistRaftNode}
use kvstorage_base_raft_cpp.Archive.{Archive, IsArchive}
use kvstorage_base_raft_cpp.Persister.{save_raft_state}
use kvstorage_base_raft_cpp.Raft.{Raft}

abbrev pub persist_node : Archive → Raft → BoostPersistRaftNode
persist_node a r = record {
  current_term = r.current_term;
  voted_for = r.voted_for;
  last_snapshot_include_index = r.last_snapshot_include_index;
  last_snapshot_include_term = r.last_snapshot_include_term;
  logs = map a.serialize_entry r.logs;
}

module _ ⦃a : Archive⦄ where
  unfoldable pub persist_data : Raft → Bytes
  persist_data r = a.save_node (persist_node a r)

  abbrev pub restore : BoostPersistRaftNode → Raft → Raft
  restore n r = record r {
    current_term = n.current_term;
    voted_for = n.voted_for;
    last_snapshot_include_index = n.last_snapshot_include_index;
    last_snapshot_include_term = n.last_snapshot_include_term;
    logs = map a.parse_entry n.logs;
  }

  unfoldable pub read_persist : Bytes → Raft → Raft
  read_persist [] r = r
  read_persist (c ∷ cs) r = restore (a.load_node (c ∷ cs)) r

  unfoldable pub persist : Raft → Raft
  unfolding persist_data
  persist r = record r { persister = save_raft_state (persist_data r) r.persister }

parse-serialize_entries :
    (a : Archive)
    → IsArchive a
    → (logs : List LogEntry) → map a.parse_entry (map a.serialize_entry logs) ≡ logs
parse-serialize_entries a h [] = refl
parse-serialize_entries a h (e ∷ es) = rw (h.parse-serialize e, parse-serialize_entries a h es)

restore-persist_node :
    (a : Archive)
    → IsArchive a
    → (r q : Raft)
    → restore ⦃a = a⦄ (a.load_node (a.save_node (persist_node a r))) q ≡ record q {
      current_term = r.current_term;
      voted_for = r.voted_for;
      last_snapshot_include_index = r.last_snapshot_include_index;
      last_snapshot_include_term = r.last_snapshot_include_term;
      logs = r.logs;
    }
restore-persist_node a h r q =
    rw (h.load-save_node (persist_node a r), parse-serialize_entries a h r.logs)

-- A node that reads what `persist_data` of another state wrote, if that text is not empty, has its
-- term, vote, snapshot position and log, and keeps all else, when the archives read back what they
-- wrote.
pub read_persist-persist_data :
    (a : Archive)
    → IsArchive a
    → (r q : Raft) → (c : ℕ) (cs : Bytes) → persist_data ⦃a = a⦄ r ≡ c ∷ cs
    → read_persist ⦃a = a⦄ (persist_data ⦃a = a⦄ r) q ≡ record q {
      current_term = r.current_term;
      voted_for = r.voted_for;
      last_snapshot_include_index = r.last_snapshot_include_index;
      last_snapshot_include_term = r.last_snapshot_include_term;
      logs = r.logs;
    }
unfolding persist_data read_persist
read_persist-persist_data a h r q c cs e =
    rw e (ap (λ t. restore ⦃a = a⦄ (a.load_node t) q) (sym e) ∙ restore-persist_node a h r q)
