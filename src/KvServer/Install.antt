-- ===== src/KvServer/Install.antt =====
-- `GetSnapShotFromRaft` of raftCore/kvServer.cc: what a snapshot that is installed leaves alone.
use kvstorage_base_raft_cpp.Base.{
  ◌≡◌, inl, inr, some, [], ◌∷◌, arith, Bytes, Option-cases, >>=-eq-some,
}
use kvstorage_base_raft_cpp.Message.{ApplyMsg}
use kvstorage_base_raft_cpp.Archive.{Archive}
use kvstorage_base_raft_cpp.KvServer.{
  SkipList, KvServer, parse_from_string, read_snap_shot_to_install, get_snap_shot_from_raft,
}

module _ {S : Type 0} ⦃l : SkipList S⦄ ⦃a : Archive⦄ where
  read_snap_shot_to_install-same :
      (text : Bytes) (s q : KvServer S)
      → read_snap_shot_to_install text s ≡ some q
      → (q.channels ≡ s.channels)
        × (q.last_request_client_and_id ≡ s.last_request_client_and_id)
        × (q.raft_node ≡ s.raft_node)
  unfolding read_snap_shot_to_install parse_from_string
  read_snap_shot_to_install-same [] s q e =
      (ground (arith, e), ground (arith, e), ground (arith, e))
  read_snap_shot_to_install-same (b ∷ bs) s q e = elim (Option-cases (a.load_server (b ∷ bs))) [
    | inl malformed ↦ absurd (ground (arith, e, malformed))
    | inr (loaded, reads) ↦
        (ground (arith, e, reads), ground (arith, e, reads), ground (arith, e, reads))
  ]

  -- A snapshot leaves the queues, the table and the node alone.
  pub get_snap_shot_from_raft-same :
      (message : ApplyMsg) (s q : KvServer S)
      → get_snap_shot_from_raft message s ≡ some q
      → (q.channels ≡ s.channels)
        × (q.last_request_client_and_id ≡ s.last_request_client_and_id)
        × (q.raft_node ≡ s.raft_node)
  unfolding get_snap_shot_from_raft
  get_snap_shot_from_raft-same message s q e =
      let (t, installed, rest) =
        >>=-eq-some (read_snap_shot_to_install message.snapshot s)
          (λ q. some (record q { last_snap_shot_raft_log_index = message.snapshot_index })) e in
      let (channels, table, node) = read_snap_shot_to_install-same message.snapshot s t installed in
      (ground (arith, rest, channels), ground (arith, rest, table), ground (arith, rest, node))
