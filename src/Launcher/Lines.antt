-- ===== src/Launcher/Lines.antt =====
-- A file of lines `key=value` is read line by line, and what a key finds is what the first of its
-- lines holds.
use kvstorage_base_raft_cpp.Base.{
  ℕ, zero, suc, ◌+◌, ◌<◌, ◌≡◌, refl, sym, ap, ◌∙◌, Bool, true, false, none, some, [], ◌∷◌, ◌++◌,
  arith, length, length-append, Bytes, bytes_eq_instance, Map, find, emplace, find-emplace, ◌==◌,
  ◌||◌, if◌then◌else◌,
}
use mathlib.Core.List.{append_assoc}
use kvstorage_base_raft_cpp.RpcConfig.{fgets_all, load_lines, load_config_file}
use kvstorage_base_raft_cpp.RpcConfig.Entries.{is_plain, entry_line, load_line}

-- No line break.
abbrev no_break : Bytes → Bool
no_break [] = true
no_break (b ∷ bs) = if b == 10 then false else no_break bs

is_plain-no_break : (bs : Bytes) → is_plain bs ≡ true → no_break bs ≡ true
is_plain-no_break [] h = refl
is_plain-no_break (zero ∷ bs) h = absurd (cc)
is_plain-no_break (suc b ∷ bs) h = ground (arith, h, is_plain-no_break bs)

no_break-append :
    (xs ys : Bytes) → no_break xs ≡ true → no_break ys ≡ true → no_break (xs ++ ys) ≡ true
no_break-append [] ys h h' = h'
no_break-append (x ∷ xs) ys h h' = ground (arith, h, h', no_break-append xs ys)

fgets_all_line :
    (room : ℕ) (start line rest : Bytes)
    → no_break line ≡ true
    → length line < room
    → fgets_all room start (line ++ 10 ∷ rest)
      ≡ (start ++ (line ++ 10 ∷ [])) ∷ fgets_all 511 [] rest
unfolding fgets_all
fgets_all_line room start [] rest h fits = refl
fgets_all_line zero start (b ∷ line) rest h fits = absurd (omega arith)
fgets_all_line (suc room) start (b ∷ line) rest h fits =
    let goes_on : (b == 10 || suc room == 1) ≡ false = ground (arith, h) in
    let rest_plain : no_break line ≡ true = ground (arith, h) in
    rw (fgets_all, goes_on)
      (fgets_all_line room (start ++ b ∷ []) line rest rest_plain (omega arith)
        ∙ ap (λ (t : Bytes). t ∷ fgets_all 511 [] rest)
            (append_assoc start (b ∷ []) (line ++ 10 ∷ [])))

-- The keys and values of a file.
abbrev pub AreEntries : Map Bytes Bytes → Type 0
AreEntries [] = Unit {0}
AreEntries ((key, value) ∷ es) =
    (is_plain key ≡ true)
    × (is_plain value ≡ true)
    × (length key + length value < 500)
    × AreEntries es

abbrev pub entries_text : Map Bytes Bytes → Bytes
entries_text [] = []
entries_text ((key, value) ∷ es) = entry_line key value ++ entries_text es

abbrev emplace_all : Map Bytes Bytes → Map Bytes Bytes → Map Bytes Bytes
emplace_all [] m = m
emplace_all ((key, value) ∷ es) m = emplace_all es (emplace key value m)

entry_line_append :
    (key value rest : Bytes) → entry_line key value ++ rest ≡ (key ++ 61 ∷ value) ++ 10 ∷ rest
entry_line_append key value rest =
    append_assoc key (61 ∷ (value ++ 10 ∷ [])) rest
    ∙ ap (λ (t : Bytes). key ++ 61 ∷ t) (append_assoc value (10 ∷ []) rest)
    ∙ sym (append_assoc key (61 ∷ value) (10 ∷ rest))

load_lines-entries :
    (es m : Map Bytes Bytes)
    → AreEntries es
    → load_lines (fgets_all 511 [] (entries_text es)) m ≡ emplace_all es m
unfolding load_lines fgets_all
load_lines-entries [] m h = refl
load_lines-entries ((key, value) ∷ es) m (k, v, short, h) =
    let line = key ++ 61 ∷ value in
    let whole : [] ++ (line ++ 10 ∷ []) ≡ entry_line key value =
      append_assoc key (61 ∷ value) (10 ∷ []) in
    let unbroken =
      no_break-append key (61 ∷ value) (is_plain-no_break key k) (is_plain-no_break value v) in
    let fits = length-append key (61 ∷ value) in
    ap (λ t. load_lines (fgets_all 511 [] t) m) (entry_line_append key value (entries_text es))
    ∙ ap (λ ls. load_lines ls m)
        (fgets_all_line 511 [] line (entries_text es) unbroken (omega (arith, fits)))
    ∙ ap (λ t. load_lines (t ∷ fgets_all 511 [] (entries_text es)) m) whole
    ∙ ap (load_lines (fgets_all 511 [] (entries_text es))) (load_line key value m k v)
    ∙ load_lines-entries es (emplace key value m) h

find-emplace_all :
    (k : Bytes) (es m : Map Bytes Bytes)
    → find k (emplace_all es m) ≡ (elim (find k m) [ some w ↦ some w | none ↦ find k es ])
unfolding find
find-emplace_all k [] m = ground arith
find-emplace_all k ((key, value) ∷ es) m =
    ground (arith, find-emplace_all k es (emplace key value m), find-emplace key k value m)

-- What a file of entries gives.
abbrev pub config_of : Map Bytes Bytes → Map Bytes Bytes
config_of es = emplace_all es []

pub load_config_file-entries :
    (es : Map Bytes Bytes)
    → AreEntries es
    → load_config_file (some (entries_text es)) [] ≡ some (config_of es)
unfolding load_config_file
load_config_file-entries es h = ap some (load_lines-entries es [] h)

pub find-config_of : (k : Bytes) (es : Map Bytes Bytes) → find k (config_of es) ≡ find k es
unfolding find
find-config_of k es = find-emplace_all k es []
