-- ===== src/Launcher.antt =====
-- example/raftCoreExample/raftKvDB.cpp: the program that writes the configuration of the nodes and
-- starts them. The files are a map from their names to their contents.
pub mod Keys
pub mod Lines
pub mod Entries
pub mod Config
use kvstorage_base_raft_cpp.Base.{
  ℕ, zero, suc, ◌+◌, none, some, [], ◌∷◌, ◌++◌, Bytes, bytes_eq_instance, Map, find, assign,
}
use kvstorage_base_raft_cpp.Clerk.{digits, node_key, ip_field, port_field}

-- `127.0.0.1`.
abbrev pub basic_test_ip : Bytes
basic_test_ip = 49 ∷ 50 ∷ 55 ∷ 46 ∷ 48 ∷ 46 ∷ 48 ∷ 46 ∷ 49 ∷ []

abbrev pub to_string : ℕ → Bytes
to_string n = digits (suc n) n

-- The lines that the loop writes for the nodes `i`, …, `i + n - 1`. A port is an `int` in the source;
-- here it has no upper bound, and theorems on it say that it fits.
unfoldable pub node_lines : ℕ → ℕ → ℕ → Bytes
node_lines zero start_port i = []
node_lines (suc n) start_port i =
    (node_key i ip_field ++ 61 ∷ (basic_test_ip ++ 10 ∷ []))
    ++ (node_key i port_field ++ 61 ∷ (to_string (i + start_port) ++ 10 ∷ []))
    ++ node_lines n start_port (i + 1)

-- `test.conf`.
abbrev pub test_conf : Bytes
test_conf = 116 ∷ 101 ∷ 115 ∷ 116 ∷ 46 ∷ 99 ∷ 111 ∷ 110 ∷ 102 ∷ []

abbrev pub append_to : Bytes → Bytes → Map Bytes Bytes → Map Bytes Bytes
append_to name text files = elim (find name files) [
  | none ↦ assign name text files
  | some old ↦ assign name (old ++ text) files
]

-- `main` up to the start of the nodes: it empties the file that it is given, and appends the nodes
-- to `test.conf`.
unfoldable pub write_config : Bytes → ℕ → ℕ → Map Bytes Bytes → Map Bytes Bytes
unfolding node_lines
write_config config_file_name node_num start_port files =
    append_to test_conf (node_lines node_num start_port 0) (assign config_file_name [] files)
