-- ===== src/Examples/Files.antt =====
-- Files: the persister's two, the configuration, and the client's calls.
use kvstorage_base_raft_cpp.Base.{◌+◌, ◌%◌, ◌≡◌, refl, none, some, [], ◌∷◌, ◌++◌, arith, length}
use kvstorage_base_raft_cpp.Persister.{save, read_snapshot}
use kvstorage_base_raft_cpp.Persister.Save.{reads, read_snapshot-save, read_snapshot-save_archive}
use kvstorage_base_raft_cpp.KvServer.{ok, err_no_key, err_wrong_leader, put_op, GetReply}
use kvstorage_base_raft_cpp.RpcConfig.{remove_spaces}
use kvstorage_base_raft_cpp.RpcConfig.Spaces.{without_spaces, remove_spaces_lem}
use kvstorage_base_raft_cpp.Clerk.{Clerk, put_append}
use kvstorage_base_raft_cpp.Clerk.Retry.{nil, failed, not_leader, put_append-returns}
use kvstorage_base_raft_cpp.Examples.Nodes.{no_files}

read_snapshot-save_example : reads (save (1 ∷ []) (65 ∷ 66 ∷ []) no_files) ≡ (65 ∷ 66 ∷ [], [])
read_snapshot-save_example = read_snapshot-save no_files (1 ∷ []) (65 ∷ 66 ∷ []) (refl, (refl, tt))

read_snapshot-save_archive_example :
    (read_snapshot (save (1 ∷ []) (65 ∷ 66 ∷ [] ++ 32 ∷ 67 ∷ []) no_files)).0 ≡ 65 ∷ 66 ∷ []
read_snapshot-save_archive_example =
    read_snapshot-save_archive no_files (1 ∷ []) 65 (66 ∷ []) 32 (67 ∷ []) (refl, (refl, tt)) refl

remove_spaces_lem_example :
    remove_spaces (65 ∷ 32 ∷ 32 ∷ 66 ∷ []) ≡ without_spaces (65 ∷ 32 ∷ 32 ∷ 66 ∷ [])
remove_spaces_lem_example = remove_spaces_lem (65 ∷ 32 ∷ 32 ∷ 66 ∷ [])

abbrev clerk : Clerk
clerk = record {
  servers = (1 ∷ []) ∷ (2 ∷ []) ∷ (3 ∷ []) ∷ [];
  client_id = 9 ∷ [];
  request_id = 4;
  cur_leader_id = 2;
}

put_append-returns_example :
    ((put_append (7 ∷ []) (8 ∷ []) put_op (none ∷ some err_wrong_leader ∷ some ok ∷ []) clerk).1
      ≡ some (record clerk { request_id = 4 + 1; cur_leader_id = (2 + 2) % 3 }))
    × (length
          (put_append
            (7 ∷ [])
            (8 ∷ [])
            put_op
            (none ∷ some err_wrong_leader ∷ some ok ∷ [])
            clerk).0
        ≡ 3)
put_append-returns_example =
    put_append-returns (7 ∷ []) (8 ∷ []) put_op (none ∷ some err_wrong_leader ∷ []) [] clerk
      (failed (not_leader nil)) (omega arith)

abbrev value_reply : GetReply
value_reply = record { err = ok; value = 8 ∷ [] }

abbrev missing_reply : GetReply
missing_reply = record { err = err_no_key; value = [] }
