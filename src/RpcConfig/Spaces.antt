-- ===== src/RpcConfig/Spaces.antt =====
-- `removeSpaces` works in place; what it leaves.
use kvstorage_base_raft_cpp.Base.{
  ℕ, zero, suc, ◌+◌, ◌≤◌, ◌<◌, ◌≡◌, refl, ap, ◌∙◌, inl, inr, true, false, none, some, [], ◌∷◌, ◌++◌,
  arith, ◌==◌, if◌then◌else◌, Bytes, get_elem?, set, length, take, drop, length-set, drop_all,
  drop-get_elem?, get_elem?-lt, Option-cases, Bool-cases,
}
use kvstorage_base_raft_cpp.RpcConfig.{remove_spaces_from, remove_spaces}

-- A text without its spaces.
abbrev pub without_spaces : Bytes → Bytes
without_spaces [] = []
without_spaces (b ∷ bs) = if b == 32 then without_spaces bs else b ∷ without_spaces bs

append_assoc : (xs ys zs : Bytes) → xs ++ ys ++ zs ≡ xs ++ (ys ++ zs)
append_assoc [] ys zs = refl
append_assoc (x ∷ xs) ys zs = ap (x ∷◌) (append_assoc xs ys zs)

append_nil : (xs : Bytes) → xs ++ [] ≡ xs
append_nil [] = refl
append_nil (x ∷ xs) = ap (x ∷◌) (append_nil xs)

take-set : (xs : Bytes) (i b : ℕ) → i < length xs → take (suc i) (set xs i b) ≡ take i xs ++ b ∷ []
take-set [] i b h = elim h [ ]
take-set (x ∷ xs) zero b h = refl
take-set (x ∷ xs) (suc i) b h = ap (x ∷◌) (take-set xs i b (omega arith))

drop-set : (xs : Bytes) (i j b : ℕ) → i < j → drop j (set xs i b) ≡ drop j xs
drop-set xs i zero b h = elim h [ ]
drop-set [] i (suc j) b h = refl
drop-set (x ∷ xs) zero (suc j) b h = refl
drop-set (x ∷ xs) (suc i) (suc j) b h = drop-set xs i j b (omega arith)

none_past : (xs : Bytes) (i : ℕ) → get_elem? xs i ≡ none → length xs ≤ i
none_past [] i h = omega arith
none_past (x ∷ xs) zero h = absurd (cc)
none_past (x ∷ xs) (suc i) h = omega (arith, none_past xs i h)

past_end :
    (fuel : ℕ) (str : Bytes) (read write : ℕ)
    → get_elem? str read ≡ none
    → remove_spaces_from (suc fuel) str read write ≡ (str, write)
unfolding remove_spaces_from
past_end fuel str read write e = ground (arith, e)

skips :
    (fuel : ℕ) (str : Bytes) (read write b : ℕ)
    → get_elem? str read ≡ some b
    → (b == 32) ≡ true
    → remove_spaces_from (suc fuel) str read write ≡ remove_spaces_from fuel str (suc read) write
unfolding remove_spaces_from
skips fuel str read write b e space = ground (arith, e, space)

copies :
    (fuel : ℕ) (str : Bytes) (read write b : ℕ)
    → get_elem? str read ≡ some b
    → (b == 32) ≡ false
    → remove_spaces_from (suc fuel) str read write
      ≡ remove_spaces_from fuel (set str write b) (suc read) (suc write)
unfolding remove_spaces_from
copies fuel str read write b e other = ground (arith, e, other)

writes :
    (str : Bytes) (read write b : ℕ)
    → write ≤ read
    → write < length str
    → take (suc write) (set str write b) ++ without_spaces (drop (suc read) (set str write b))
      ≡ take write str ++ b ∷ without_spaces (drop (suc read) str)
writes str read write b below inside =
    rw (take-set str write b inside, drop-set str write (suc read) b (omega arith))
      (append_assoc (take write str) (b ∷ []) (without_spaces (drop (suc read) str)))

-- What the loop has written, then what it has still to read without spaces.
remove_spaces_from_lem :
    (fuel : ℕ) (str : Bytes) (read write : ℕ)
    → write ≤ read
    → length str ≤ fuel + read
    → take (remove_spaces_from fuel str read write).1 (remove_spaces_from fuel str read write).0
      ≡ take write str ++ without_spaces (drop read str)
unfolding remove_spaces_from
remove_spaces_from_lem zero str read write below enough =
    rw (drop_all read str (omega arith), append_nil (take write str))
remove_spaces_from_lem (suc fuel) str read write below enough =
    elim (Option-cases (get_elem? str read)) [
      | inl e ↦ rw (
        past_end fuel str read write e,
        drop_all read str (none_past str read e),
        append_nil (take write str),
      )
      | inr (b, e) ↦ elim (Bool-cases (b == 32)) [
        | inl space ↦
            rw (skips fuel str read write b e space, drop-get_elem? read str b e, space)
              (remove_spaces_from_lem fuel str (suc read) write (omega arith) (omega arith))
        | inr other ↦
            let inside : write < length str = omega (arith, get_elem?-lt str read b e) in
            rw (copies fuel str read write b e other, drop-get_elem? read str b e, other)
              (remove_spaces_from_lem fuel (set str write b) (suc read) (suc write) (omega arith)
                  (omega (arith, length-set str write b))
                ∙ writes str read write b below inside)
      ]
    ]

-- `removeSpaces` leaves the characters that are not spaces, in their order.
pub remove_spaces_lem : (str : Bytes) → remove_spaces str ≡ without_spaces str
unfolding remove_spaces
remove_spaces_lem str = remove_spaces_from_lem (length str) str 0 0 (omega arith) (omega arith)
