-- ===== src/Examples/Elections.antt =====
-- An election, its ticker, and the addresses of two nodes.
use kvstorage_base_raft_cpp.Base.{
  ℕ, zero, suc, ◌+◌, ◌≤◌, ◌<◌, ◌≡◌, ◌≢◌, refl, arith, some, [], ◌∷◌, ◌++◌, max, Bytes, Map, find,
  bytes_eq, bytes_eq_instance,
}
use kvstorage_base_raft_cpp.Raft.{Raft, follower}
use kvstorage_base_raft_cpp.Raft.Election.{do_election}
use kvstorage_base_raft_cpp.Raft.Election.Round.{
  candidacy_of, candidate_state, vote_tasks, do_election_lem,
}
use kvstorage_base_raft_cpp.Raft.Tickers.{election_ticker, election_ticker-bounds}
use kvstorage_base_raft_cpp.RpcConfig.{load, load_config_file}
use kvstorage_base_raft_cpp.Launcher.{basic_test_ip, to_string, test_conf, write_config}
use kvstorage_base_raft_cpp.Launcher.Config.{local_addresses, launch_lem}
use kvstorage_base_raft_cpp.Clerk.{new_clerk, digits, node_key, ip_field, port_field, init_servers}
use kvstorage_base_raft_cpp.Clerk.Servers.{Lists}
use kvstorage_base_raft_cpp.KvServer.Startup.{other_servers, grpc_builder_init}
use kvstorage_base_raft_cpp.KvServer.Servers.{without}
use kvstorage_base_raft_cpp.Examples.Archives.{archive}
use kvstorage_base_raft_cpp.Examples.Nodes.{node, node-Inv}

do_election_lem_example :
    do_election 400 (node follower) ≡ record (candidate_state 400 (node follower)) {
      rpc_tasks = [] ++ vote_tasks (candidacy_of (node follower)) 400 1 3 0;
    }
do_election_lem_example = do_election_lem 400 (node follower) (node-Inv follower) refl

abbrev round_of_100 : ℕ × Raft
round_of_100 = election_ticker 700 100 3 (λ r. r) (node follower)

election_ticker-bounds_example :
    (0 + 299 ≤ round_of_100.0)
    × (round_of_100.0 ≤ max 100 (0 + 500) + 3)
    × (round_of_100.1.current_term ≡ 2 + 1)
    × (round_of_100.1.voted_for ≡ some 0)
election_ticker-bounds_example =
    election_ticker-bounds 700 100 3 (λ r. r) (node follower) refl refl refl

-- `node0ip=1`, `node0port=2`, `node1ip=3`, `node1port=4`.
abbrev two_nodes : Map Bytes Bytes
two_nodes =
    (node_key 0 ip_field, 49 ∷ [])
    ∷ (node_key 0 port_field, 50 ∷ [])
    ∷ (node_key 1 ip_field, 51 ∷ [])
    ∷ (node_key 1 port_field, 52 ∷ [])
    ∷ []

two_nodes-Lists : Lists two_nodes 2 0
unfolding load find node_key digits bytes_eq
two_nodes-Lists = record { has = two; ends = refl }
  where
    two : (j : ℕ) → 0 ≤ j → j < 0 + 2 → load (node_key j ip_field) two_nodes ≢ []
    two zero from to e = absurd (cc)
    two (suc zero) from to e = absurd (cc)
    two (suc (suc j)) from to e = absurd (omega arith)

launch_lem_example :
    (config : Map Bytes Bytes) × (load_config_file
        (find test_conf (write_config test_conf 3 10000 []))
        []
      ≡ some config)
    × ((init_servers config (new_clerk [])).servers ≡ [] ++ local_addresses 10000 3 0)
    × (other_servers 2147483646 2 0 config ≡ without 2 0 (local_addresses 10000 3 0))
    × (grpc_builder_init 2 config ≡ basic_test_ip ++ 58 ∷ to_string 10002)
unfolding new_clerk
launch_lem_example =
    launch_lem 3 2 10000 [] (new_clerk []) (omega arith) (omega arith) (omega arith)
