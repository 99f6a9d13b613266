-- ===== src/RpcConfig/Entries.antt =====
-- Which value a key of the configuration has.
use kvstorage_base_raft_cpp.Base.{
  ℕ, zero, suc, ◌≡◌, refl, ap, ◌∙◌, Bool, true, false, none, some, List, [], ◌∷◌, ◌++◌, arith, ◌==◌,
  if◌then◌else◌, inl, inr, Bool-cases, Option-cases, Bytes, bytes_eq_refl, bytes_eq_instance, Map,
  find, emplace, find-emplace, length, take, drop, take-append_length,
}
use kvstorage_base_raft_cpp.RpcConfig.{
  remove_spaces, find_char, drop_line_break, load_entry, c_string, load_lines, load,
}
use kvstorage_base_raft_cpp.RpcConfig.Spaces.{without_spaces, remove_spaces_lem}

-- A text of printable characters, with none of `=`, spaces, line breaks and `#`.
abbrev pub is_plain : Bytes → Bool
is_plain [] = true
is_plain (zero ∷ bs) = false
is_plain (b ∷ bs) =
    if b == 10
    then false
    else if b == 32
    then false
    else if b == 35
    then false
    else if b == 61
    then false
    else is_plain bs

emplace_keeps :
    (j : Bytes) (v w : Bytes) (k : Bytes) (m : Map Bytes Bytes)
    → find k m ≡ some v
    → find k (emplace j w m) ≡ some v
emplace_keeps j v w k m e = ground (arith, e, find-emplace j k w m)

load_entry-find :
    (line k v : Bytes) (m : Map Bytes Bytes)
    → find k m ≡ some v
    → find k (load_entry line m) ≡ some v
unfolding load_entry
load_entry-find [] k v m e = e
load_entry-find (b ∷ bs) k v m e = elim (Bool-cases (b == 35)) [
  | inl comment ↦ rw (comment) e
  | inr other ↦ elim (Option-cases (find_char 61 (b ∷ bs))) [
    | inl missing ↦ rw (other, missing) e
    | inr (i, at) ↦
        rw (other, at)
          (emplace_keeps (take i (b ∷ bs)) v (drop_line_break (drop (suc i) (b ∷ bs))) k m e)
  ]
]

-- The first value that is read for a key stays, whatever lines follow.
pub load_lines-find :
    (lines : List Bytes) (k v : Bytes) (m : Map Bytes Bytes)
    → find k m ≡ some v
    → find k (load_lines lines m) ≡ some v
unfolding load_lines
load_lines-find [] k v m e = e
load_lines-find (line ∷ lines) k v m e =
    load_lines-find lines k v (load_entry (remove_spaces (c_string line)) m)
      (load_entry-find (remove_spaces (c_string line)) k v m e)

-- Lemmas on a line `key=value`.
plain-append-without_spaces :
    (key rest : Bytes)
    → is_plain key ≡ true
    → without_spaces (key ++ rest) ≡ key ++ without_spaces rest
plain-append-without_spaces [] rest h = refl
plain-append-without_spaces (zero ∷ key) rest h = absurd (cc)
plain-append-without_spaces (suc b ∷ key) rest h =
    ground (arith, h, plain-append-without_spaces key rest)

plain-append-c_string :
    (key rest : Bytes) → is_plain key ≡ true → c_string (key ++ rest) ≡ key ++ c_string rest
unfolding c_string
plain-append-c_string [] rest h = refl
plain-append-c_string (zero ∷ key) rest h = absurd (cc)
plain-append-c_string (suc b ∷ key) rest h = ground (arith, h, plain-append-c_string key rest)

find_char-plain :
    (key rest : Bytes) → is_plain key ≡ true → find_char 61 (key ++ 61 ∷ rest) ≡ some (length key)
unfolding find_char
find_char-plain [] rest h = refl
find_char-plain (zero ∷ key) rest h = absurd (cc)
find_char-plain (suc b ∷ key) rest h = ground (arith, h, find_char-plain key rest)

drop_line_break-plain : (value : Bytes) → drop_line_break (value ++ 10 ∷ []) ≡ value
unfolding drop_line_break
drop_line_break-plain [] = refl
drop_line_break-plain (b ∷ []) = refl
drop_line_break-plain (b ∷ c ∷ bs) = ap (b ∷◌) (drop_line_break-plain (c ∷ bs))

drop-suc_append :
    (key : Bytes) (b : ℕ) (rest : Bytes) → drop (suc (length key)) (key ++ b ∷ rest) ≡ rest
drop-suc_append [] b rest = refl
drop-suc_append (x ∷ key) b rest = drop-suc_append key b rest

load_entry_lem :
    (key text : Bytes) (m : Map Bytes Bytes)
    → is_plain key ≡ true
    → load_entry (key ++ 61 ∷ text) m ≡ emplace key (drop_line_break text) m
unfolding load_entry find_char
load_entry_lem [] text m h = refl
load_entry_lem (zero ∷ key) text m h = absurd (cc)
load_entry_lem (suc b ∷ key) text m h = ground (
  arith,
  h,
  find_char-plain (suc b ∷ key) text h,
  take-append_length (suc b ∷ key) (61 ∷ text),
  drop-suc_append (suc b ∷ key) 61 text,
)

-- The text of the line `key=value`.
abbrev pub entry_line : Bytes → Bytes → Bytes
entry_line key value = key ++ 61 ∷ (value ++ 10 ∷ [])

c_string-entry_line :
    (key value : Bytes)
    → is_plain key ≡ true
    → is_plain value ≡ true
    → c_string (entry_line key value) ≡ entry_line key value
unfolding c_string
c_string-entry_line key value k v =
    plain-append-c_string key (61 ∷ (value ++ 10 ∷ [])) k
    ∙ ap (λ t. key ++ 61 ∷ t) (plain-append-c_string value (10 ∷ []) v)

without_spaces-entry_line :
    (key value : Bytes)
    → is_plain key ≡ true
    → is_plain value ≡ true
    → without_spaces (entry_line key value) ≡ entry_line key value
without_spaces-entry_line key value k v =
    plain-append-without_spaces key (61 ∷ (value ++ 10 ∷ [])) k
    ∙ ap (λ t. key ++ 61 ∷ t) (plain-append-without_spaces value (10 ∷ []) v)

pub load_line :
    (key value : Bytes) (m : Map Bytes Bytes)
    → is_plain key ≡ true
    → is_plain value ≡ true
    → load_entry (remove_spaces (c_string (entry_line key value))) m ≡ emplace key value m
load_line key value m k v =
    rw
      (
        c_string-entry_line key value k v,
        remove_spaces_lem (entry_line key value),
        without_spaces-entry_line key value k v,
      )
      (load_entry_lem key (value ++ 10 ∷ []) m k
        ∙ ap (λ t. emplace key t m) (drop_line_break-plain value))

emplace_new :
    (key value : Bytes) (m : Map Bytes Bytes)
    → find key m ≡ none
    → find key (emplace key value m) ≡ some value
emplace_new key value m e = ground (arith, e, find-emplace key key value m, bytes_eq_refl key)

pub found-load :
    (key value : Bytes) (m : Map Bytes Bytes) → find key m ≡ some value → load key m ≡ value
unfolding load
found-load key value m e = ground (arith, e)

-- A line `key=value` whose key the file has not had before gives the key its value, whatever lines
-- follow. Neither text has a zero byte, a line break, a space, `#` or `=`.
pub load-load_lines :
    (key value : Bytes) (lines : List Bytes) (m : Map Bytes Bytes)
    → is_plain key ≡ true
    → is_plain value ≡ true
    → find key m ≡ none
    → load key (load_lines (entry_line key value ∷ lines) m) ≡ value
unfolding load_lines
load-load_lines key value lines m k v new =
    found-load key value (load_lines (entry_line key value ∷ lines) m) (
      rw (load_line key value m k v)
        (load_lines-find lines key value (emplace key value m) (emplace_new key value m new)))
