-- ===== src/Launcher/Config.antt =====
-- The nodes that the launcher writes are the nodes that its servers and their clients read.
use kvstorage_base_raft_cpp.Base.{
  ℕ, zero, suc, ◌+◌, ◌≤◌, ◌<◌, ◌≡◌, refl, ap, ◌∙◌, some, List, [], ◌∷◌, ◌++◌, arith, Bytes,
  bytes_eq_refl, bytes_eq_instance, Map, find, assign, find-assign,
}
use kvstorage_base_raft_cpp.RpcConfig.{load, load_config_file}
use kvstorage_base_raft_cpp.RpcConfig.Entries.{found-load}
use kvstorage_base_raft_cpp.Clerk.{Clerk, node_key, ip_field, port_field, init_servers}
use kvstorage_base_raft_cpp.Clerk.Servers.{Lists, addresses_of}
use kvstorage_base_raft_cpp.KvServer.Startup.{other_servers, grpc_builder_init}
use kvstorage_base_raft_cpp.KvServer.Servers.{without, servers_of_config}
use kvstorage_base_raft_cpp.Launcher.{
  basic_test_ip, to_string, node_lines, test_conf, append_to, write_config,
}
use kvstorage_base_raft_cpp.Launcher.Lines.{config_of, load_config_file-entries, find-config_of}
use kvstorage_base_raft_cpp.Launcher.Entries.{
  node_entries, node_lines-entries, node_entries-AreEntries, find-ip, find-port, find-none,
}

module _ (start : ℕ) where
  -- What the launcher's file gives.
  abbrev pub launched : ℕ → Map Bytes Bytes
  launched n = config_of (node_entries n start 0)

  load-ip : (n j : ℕ) → j < n → load (node_key j ip_field) (launched n) ≡ basic_test_ip
  load-ip n j below = found-load (node_key j ip_field) basic_test_ip (launched n) (
      find-config_of (node_key j ip_field) (node_entries n start 0)
      ∙ find-ip start n 0 j (omega arith) (omega arith))

  load-port : (n j : ℕ) → j < n → load (node_key j port_field) (launched n) ≡ to_string (j + start)
  load-port n j below = found-load (node_key j port_field) (to_string (j + start)) (launched n) (
      find-config_of (node_key j port_field) (node_entries n start 0)
      ∙ find-port start n 0 j (omega arith) (omega arith))

  load-end : (n : ℕ) → load (node_key n ip_field) (launched n) ≡ []
  unfolding load
  load-end n =
      rw
        (
          load,
          find-config_of (node_key n ip_field) (node_entries n start 0),
          find-none start n 0 n (omega arith),
        )
        refl

  launched-Lists : (n : ℕ) → Lists (launched n) n 0
  launched-Lists n = record {
    has = λ j from to. λ e. let ip = load-ip n j (omega arith) in absurd (cc);
    ends = ap (λ k. load (node_key k ip_field) (launched n)) (omega arith) ∙ load-end n;
  }

  -- `127.0.0.1:port` of the nodes `i`, …, `i + n - 1`, with one port after the other.
  abbrev pub local_addresses : ℕ → ℕ → List Bytes
  local_addresses zero i = []
  local_addresses (suc n) i =
      (basic_test_ip ++ 58 ∷ to_string (i + start)) ∷ local_addresses n (i + 1)

  addresses_of-launched :
      (n m i : ℕ) → i + m ≤ n → addresses_of (launched n) m i ≡ local_addresses m i
  addresses_of-launched n zero i h = refl
  addresses_of-launched n (suc m) i h =
      rw
        (
          load-ip n i (omega arith),
          load-port n i (omega arith),
          addresses_of-launched n m (i + 1) (omega arith),
        )
        refl

find-assign_self :
    (name text : Bytes) (files : Map Bytes Bytes) → find name (assign name text files) ≡ some text
find-assign_self name text files =
    ground (arith, find-assign name name text files, bytes_eq_refl name)

append_to-some :
    (name text old : Bytes) (files : Map Bytes Bytes)
    → find name files ≡ some old
    → append_to name text files ≡ assign name (old ++ text) files
append_to-some name text old files e = rw (append_to, e) refl

find-write_config :
    (n start : ℕ) (files : Map Bytes Bytes)
    → find test_conf (write_config test_conf n start files) ≡ some (node_lines n start 0)
unfolding write_config
find-write_config n start files =
    let emptied = assign test_conf [] files in
    ap (find test_conf) (
      append_to-some test_conf (node_lines n start 0) [] emptied
        (find-assign_self test_conf [] files))
    ∙ find-assign_self test_conf ([] ++ node_lines n start 0) emptied

-- A launcher that is given the file name `test.conf`, for `n` nodes with ports from `start_port` on,
-- writes a file from which a client reads the addresses of all `n` nodes on this host, in order and
-- behind those it has, and the server of node `me` the same addresses, with none at its own place,
-- where it listens itself, whatever the files held before. The first port is below 30000, as the
-- launcher draws it, and the nodes are so few that every port fits in an `int`.
pub launch_lem :
    (n me start_port : ℕ) (files : Map Bytes Bytes) (c : Clerk)
    → me < n
    → start_port < 30000
    → start_port + n < 2147483646
    → (config : Map Bytes Bytes) × (load_config_file
          (find test_conf (write_config test_conf n start_port files))
          []
        ≡ some config)
      × ((init_servers config c).servers ≡ c.servers ++ local_addresses start_port n 0)
      × (other_servers 2147483646 me 0 config ≡ without me 0 (local_addresses start_port n 0))
      × (grpc_builder_init me config ≡ basic_test_ip ++ 58 ∷ to_string (me + start_port))
launch_lem n me start_port files c own low fits =
    let config = launched start_port n in
    let entries = node_entries-AreEntries n start_port 0 (omega (arith, fits)) low in
    let read = load_config_file-entries (node_entries n start_port 0) entries in
    let (client, server) =
      servers_of_config n me config c (omega (arith, fits)) own (launched-Lists start_port n) in
    let same = addresses_of-launched start_port n n 0 (omega arith) in
    (
      config,
      ap (λ f. load_config_file f [])
            (find-write_config n start_port files ∙ ap some (node_lines-entries n start_port 0))
          ∙ read,
      client ∙ ap (λ xs. c.servers ++ xs) same,
      server ∙ ap (without me 0) same,
      rw (load-ip start_port n me own, load-port start_port n me own) refl,
    )
