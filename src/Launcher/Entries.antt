-- ===== src/Launcher/Entries.antt =====
-- The entries of the file that the launcher writes, and what a key finds in them.
use native.Mathlib.Decide.{ℕ_discrete}
use kvstorage_base_raft_cpp.Base.{
  ℕ, zero, suc, ◌+◌, ◌≤◌, ◌<◌, ◌≡◌, ◌≢◌, refl, ap, ◌∙◌, false, none, some, [], ◌∷◌, ◌++◌, arith,
  length, length-append, Bytes, bytes_eq, bytes_eq_refl, bytes_eq_instance, Map, find,
}
use mathlib.Core.List.{append_assoc}
use kvstorage_base_raft_cpp.Clerk.{digits, node_key, ip_field, port_field}
use kvstorage_base_raft_cpp.Launcher.{basic_test_ip, to_string, node_lines}
use kvstorage_base_raft_cpp.Launcher.Keys.{
  node_key-ne, node_key-is_plain, digits-AreDigits, AreDigits-is_plain, length-digits,
}
use kvstorage_base_raft_cpp.Launcher.Lines.{AreEntries, entries_text}

-- The entries of the nodes `i`, …, `i + n - 1`.
abbrev pub node_entries : ℕ → ℕ → ℕ → Map Bytes Bytes
node_entries zero start i = []
node_entries (suc n) start i =
    (node_key i ip_field, basic_test_ip)
    ∷ (node_key i port_field, to_string (i + start))
    ∷ node_entries n start (i + 1)

pub node_lines-entries :
    (n start i : ℕ) → node_lines n start i ≡ entries_text (node_entries n start i)
unfolding node_lines
node_lines-entries zero start i = refl
node_lines-entries (suc n) start i =
    let first = node_key i ip_field ++ 61 ∷ (basic_test_ip ++ 10 ∷ []) in
    let second = node_key i port_field ++ 61 ∷ (to_string (i + start) ++ 10 ∷ []) in
    append_assoc first second (node_lines n start (i + 1))
    ∙ ap (λ (t : Bytes). first ++ (second ++ t)) (node_lines-entries n start (i + 1))

length-node_key :
    (i : ℕ) (field : Bytes) → i < 10000000000 → length (node_key i field) ≤ 15 + length field
unfolding node_key
length-node_key i field h =
    omega (arith, length-append (digits (suc i) i) field, length-digits 10 (suc i) i h)

pub node_entries-AreEntries :
    (n start i : ℕ) → i + n ≤ 2147483646 → start < 30000 → AreEntries (node_entries n start i)
node_entries-AreEntries zero start i h h' = tt
node_entries-AreEntries (suc n) start i h h' = (
  node_key-is_plain i ip_field refl,
  refl,
  omega (arith, length-node_key i ip_field (omega arith)),
  (
    node_key-is_plain i port_field refl,
    AreDigits-is_plain (to_string (i + start)) (digits-AreDigits (suc (i + start)) (i + start)),
    omega (
      arith,
      length-node_key i port_field (omega arith),
      length-digits 10 (suc (i + start)) (i + start) (omega arith),
    ),
    node_entries-AreEntries n start (i + 1) (omega arith) h',
  ),
)

find_here : (k value : Bytes) (es : Map Bytes Bytes) → find k ((k, value) ∷ es) ≡ some value
unfolding find
find_here k value es = rw (find, bytes_eq_refl k) refl

find_past :
    (key value k : Bytes) (es : Map Bytes Bytes)
    → bytes_eq key k ≡ false
    → find k ((key, value) ∷ es) ≡ find k es
unfolding find
find_past key value k es other = rw (find, other) refl

module _ (start : ℕ) where
  -- The entries of another node are passed over.
  past_node :
      (n i j c : ℕ) (cs : Bytes)
      → 57 < c
      → i ≢ j
      → find (node_key j (c ∷ cs)) (node_entries (suc n) start i)
        ≡ find (node_key j (c ∷ cs)) (node_entries n start (i + 1))
  past_node n i j c cs p other =
      find_past (node_key i ip_field) basic_test_ip (node_key j (c ∷ cs)) _
        (node_key-ne i j 105 c (112 ∷ []) cs (omega arith) p (λ e. other e.0))
      ∙ find_past (node_key i port_field) (to_string (i + start)) (node_key j (c ∷ cs)) _
          (node_key-ne i j 112 c (111 ∷ 114 ∷ 116 ∷ []) cs (omega arith) p (λ e. other e.0))

  pub find-ip :
      (n i j : ℕ)
      → i ≤ j
      → j < i + n
      → find (node_key j ip_field) (node_entries n start i) ≡ some basic_test_ip
  find-ip zero i j from to = absurd (omega arith)
  find-ip (suc n) i j from to = elim (ℕ_discrete i j) [
    | yes here ↦ rw here (find_here (node_key j ip_field) basic_test_ip _)
    | no other ↦
        past_node n i j 105 (112 ∷ []) (omega arith) other
        ∙ find-ip n (i + 1) j (omega arith) (omega arith)
  ]

  pub find-port :
      (n i j : ℕ)
      → i ≤ j
      → j < i + n
      → find (node_key j port_field) (node_entries n start i) ≡ some (to_string (j + start))
  find-port zero i j from to = absurd (omega arith)
  find-port (suc n) i j from to = elim (ℕ_discrete i j) [
    | yes here ↦ rw here (
        find_past (node_key j ip_field) basic_test_ip (node_key j port_field) _ (
          node_key-ne j j 105 112 (112 ∷ []) (111 ∷ 114 ∷ 116 ∷ []) (omega arith) (omega arith)
            (λ e. absurd (ground (arith, e.1))))
        ∙ find_here (node_key j port_field) (to_string (j + start)) _)
    | no other ↦
        past_node n i j 112 (111 ∷ 114 ∷ 116 ∷ []) (omega arith) other
        ∙ find-port n (i + 1) j (omega arith) (omega arith)
  ]

  pub find-none :
      (n i j : ℕ) → i + n ≤ j → find (node_key j ip_field) (node_entries n start i) ≡ none
  unfolding find
  find-none zero i j from = refl
  find-none (suc n) i j from =
      past_node n i j 105 (112 ∷ []) (omega arith) (λ e. absurd (omega arith))
      ∙ find-none n (i + 1) j (omega arith)
