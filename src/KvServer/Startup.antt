-- ===== src/KvServer/Startup.antt =====
-- The constructor of raftCore/kvServer.cc: the addresses of the other nodes, the Raft node over the
-- files of the last run, and the snapshot that the server installs if one is stored. Its threads and
-- sleeps are left out.
use kvstorage_base_raft_cpp.Base.{
  ℕ, zero, suc, ◌+◌, ◌≡◌, refl, true, false, Option, none, some, List, [], ◌∷◌, ◌++◌, ◌==◌, Bytes,
  Map, length,
}
use kvstorage_base_raft_cpp.Archive.{Archive}
use kvstorage_base_raft_cpp.Persister.{create, read_snapshot, read_raft_state}
use kvstorage_base_raft_cpp.Raft.Log.{Inv}
use kvstorage_base_raft_cpp.Raft.Store.{read_persist}
use kvstorage_base_raft_cpp.Raft.Node.{init}
use kvstorage_base_raft_cpp.Raft.Node.Frame.{fresh_node-Inv}
use kvstorage_base_raft_cpp.RpcConfig.{load}
use kvstorage_base_raft_cpp.Clerk.{node_key, ip_field, port_field}
use kvstorage_base_raft_cpp.KvServer.{SkipList, KvServer, read_snap_shot_to_install}

-- The loop over the nodes from number `i` on; the place of the node itself is empty.
unfoldable pub other_servers : ℕ → ℕ → ℕ → Map Bytes Bytes → List (Option Bytes)
unfolding load node_key
other_servers zero me i config = []
other_servers (suc fuel) me i config = elim (i == me) [
  | true ↦ none ∷ other_servers fuel me (i + 1) config
  | false ↦ elim (load (node_key i ip_field) config) [
    | [] ↦ []
    | b ∷ ip ↦
        some ((b ∷ ip) ++ 58 ∷ load (node_key i port_field) config)
        ∷ other_servers fuel me (i + 1) config
  ]
]

-- `KvServer::GrpcBuilderInit` on the configuration that is loaded: the address at which the server
-- listens. The registration of the services is left out.
abbrev pub grpc_builder_init : ℕ → Map Bytes Bytes → Bytes
grpc_builder_init me config =
    load (node_key me ip_field) config ++ 58 ∷ load (node_key me port_field) config

module _ {S : Type 0} ⦃l : SkipList S⦄ ⦃a : Archive⦄ where
  -- The server with its Raft node, and the snapshot that it reads back.
  abbrev pub set_up : ℕ → ℕ → Option ℕ → Map Bytes Bytes → S → Bytes → Bytes → Bytes × KvServer S
  set_up now me max_raft_state config empty raftstate snapshot =
      let peers = length (other_servers 2147483646 me 0 config) in
      let r = init now peers me (create raftstate snapshot) [] in
      let (stored, p) = read_snapshot r.persister in
      (
        stored,
        record {
          me = me;
          max_raft_state = max_raft_state;
          serialized_kv_data = [];
          skip_list = empty;
          wait_apply_ch = [];
          channels = [];
          last_request_client_and_id = [];
          last_snap_shot_raft_log_index = some 0;
          raft_node = record r { persister = p };
        },
      )

  -- `KvServer::KvServer` at time `now`, with an empty skip list, over the two files of the last run.
  unfoldable pub start_server :
      ℕ → ℕ → Option ℕ → Map Bytes Bytes → S → Bytes → Bytes → Option (KvServer S)
  unfolding other_servers init create read_snapshot read_snap_shot_to_install
  start_server now me max_raft_state config empty raftstate snapshot =
      let (stored, s) = set_up now me max_raft_state config empty raftstate snapshot in
      read_snap_shot_to_install stored s

  -- A server starts, with a Raft node in order, an empty store and no request on record, whatever
  -- state and snapshot the last run has left in the files.
  pub start_server_lem :
      (now me : ℕ) (max_raft_state : Option ℕ) (config : Map Bytes Bytes) (empty : S)
      (raftstate snapshot : Bytes)
      → (s : KvServer S) × (start_server now me max_raft_state config empty raftstate snapshot
          ≡ some s)
        × Inv s.raft_node
        × (s.raft_node.logs ≡ [])
        × (s.skip_list ≡ empty)
        × (s.last_request_client_and_id ≡ [])
  unfolding start_server read_raft_state read_persist
  start_server_lem now me max_raft_state config empty raftstate snapshot =
      let peers = length (other_servers 2147483646 me 0 config) in
      let h = fresh_node-Inv now peers me raftstate snapshot [] in
      (
        (set_up now me max_raft_state config empty raftstate snapshot).1,
        refl,
        record {
          consecutive = h.consecutive;
          compacted = h.compacted;
          applied = h.applied;
          committed = h.committed;
        },
        refl,
        refl,
        refl,
      )
