-- ===== src/Archive.antt =====
-- Boost's text archives and protobuf's wire format, which the source calls and does not implement.
use kvstorage_base_raft_cpp.Base.{ℕ, Option, some, Bytes, ◌≡◌}
use kvstorage_base_raft_cpp.Message.{LogEntry, Op, BoostPersistRaftNode}

pub record Archive : Type 0 where
  -- `LogEntry::SerializeAsString` and `ParseFromString`.
  pub serialize_entry : LogEntry → Bytes
  pub parse_entry : Bytes → LogEntry
  -- `text_oarchive << node` and `text_iarchive >> node`.
  pub save_node : BoostPersistRaftNode → Bytes
  pub load_node : Bytes → BoostPersistRaftNode
  -- `text_oarchive << op` and `text_iarchive >> op`.
  pub save_op : Op → Bytes
  pub load_op : Bytes → Op
  -- `text_oarchive << server` and `text_iarchive >> server`: `KvServer::serialize` lists the text of
  -- the skip list and the index of the last snapshot. `text_iarchive` throws on a text that is no
  -- such archive: `none`.
  pub save_server : Bytes → Option ℕ → Bytes
  pub load_server : Bytes → Option (Bytes × Option ℕ)

-- Reading back what was written, as both libraries document it.
pub record IsArchive (a : Archive) : Type 0 where
  pub parse-serialize : (e : LogEntry) → a.parse_entry (a.serialize_entry e) ≡ e
  pub load-save_node : (n : BoostPersistRaftNode) → a.load_node (a.save_node n) ≡ n
  pub load-save_server :
      (text : Bytes) (i : Option ℕ) → a.load_server (a.save_server text i) ≡ some (text, i)
  pub load-save_op : (o : Op) → a.load_op (a.save_op o) ≡ o
