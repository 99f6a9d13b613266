-- ===== src/RpcConfig.antt =====
-- rpc/rpcConfig.cc: the configuration file, a list of `key=value` lines.
pub mod Spaces
pub mod Entries
use kvstorage_base_raft_cpp.Base.{
  ℕ, zero, suc, ◌≡◌, Bool, true, false, ◌||◌, Option, none, some, List, [], ◌∷◌, ◌++◌, ◌==◌,
  if◌then◌else◌, Bytes, bytes_eq_instance, Map, find, emplace, get_elem?, set, length, take, drop,
}

-- The loop of `removeSpaces`: the text, the read position and the write position.
unfoldable pub remove_spaces_from : ℕ → Bytes → ℕ → ℕ → Bytes × ℕ
remove_spaces_from zero str read write = (str, write)
remove_spaces_from (suc fuel) str read write = elim (get_elem? str read) [
  | none ↦ (str, write)
  | some b ↦ elim (b == 32) [
    | true ↦ remove_spaces_from fuel str (suc read) write
    | false ↦ remove_spaces_from fuel (set str write b) (suc read) (suc write)
  ]
]

-- `removeSpaces`. Each round reads one character.
unfoldable pub remove_spaces : Bytes → Bytes
unfolding remove_spaces_from
remove_spaces str =
    let (written, write) = remove_spaces_from (length str) str 0 0 in take write written

-- `str.find(c)`.
unfoldable pub find_char : ℕ → Bytes → Option ℕ
find_char c [] = none
find_char c (b ∷ bs) =
    let rest = find_char c bs in
    if b == c then some 0 else elim rest [ none ↦ none | some i ↦ some (suc i) ]

-- A line break at the end goes.
unfoldable pub drop_line_break : Bytes → Bytes
drop_line_break [] = []
drop_line_break (b ∷ []) = if b == 10 then [] else b ∷ []
drop_line_break (b ∷ c ∷ bs) = b ∷ drop_line_break (c ∷ bs)

-- One line of `rpcConfig::LoadConfigFile`, after its spaces are gone.
unfoldable pub load_entry : Bytes → Map Bytes Bytes → Map Bytes Bytes
unfolding find_char drop_line_break
load_entry [] m = m
load_entry (b ∷ bs) m = if b == 35 then m else elim (find_char 61 (b ∷ bs)) [
  | none ↦ m
  | some i ↦ emplace (take i (b ∷ bs)) (drop_line_break (drop (suc i) (b ∷ bs))) m
]

-- The text of a buffer ends at its first zero byte.
unfoldable pub c_string : Bytes → Bytes
c_string [] = []
c_string (zero ∷ bs) = []
c_string (suc b ∷ bs) = suc b ∷ c_string bs

-- What `fgets` reads, call by call: up to a line break, and at most 511 bytes. `room` is what is
-- left in the buffer that holds `line`.
unfoldable pub fgets_all : ℕ → Bytes → Bytes → List Bytes
fgets_all room [] [] = []
fgets_all room (c ∷ line) [] = (c ∷ line) ∷ []
fgets_all room line (b ∷ bs) = elim (b == 10 || room == 1) [
  | true ↦ (line ++ b ∷ []) ∷ fgets_all 511 [] bs
  | false ↦ fgets_all (pred room) (line ++ b ∷ []) bs
]
  where
    pred : ℕ → ℕ
    pred zero = zero
    pred (suc n) = n

unfoldable pub load_lines : List Bytes → Map Bytes Bytes → Map Bytes Bytes
unfolding load_entry remove_spaces c_string
load_lines [] m = m
load_lines (line ∷ lines) m = load_lines lines (load_entry (remove_spaces (c_string line)) m)

-- `rpcConfig::LoadConfigFile` on a file's contents. The process ends if there is no file.
unfoldable pub load_config_file : Option Bytes → Map Bytes Bytes → Option (Map Bytes Bytes)
unfolding load_lines fgets_all
load_config_file none m = none
load_config_file (some contents) m = some (load_lines (fgets_all 511 [] contents) m)

-- `rpcConfig::Load`.
unfoldable pub load : Bytes → Map Bytes Bytes → Bytes
load key m = elim (find key m) [ none ↦ [] | some value ↦ value ]
