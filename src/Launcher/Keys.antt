-- ===== src/Launcher/Keys.antt =====
-- The keys of the nodes are plain texts and all different.
use native.Mathlib.Decide.{dec_lt}
use kvstorage_base_raft_cpp.Base.{
  ℕ, zero, suc, ◌+◌, ◌*◌, ◌/◌, ◌%◌, ◌≤◌, ◌<◌, ◌≡◌, refl, sym, ap, ◌∙◌, true, false, [], ◌∷◌, ◌++◌,
  arith, length, length-append, Bytes, bytes_eq, bytes_eq_iff, Bool-cases, inl, inr,
}
use kvstorage_base_raft_cpp.RpcConfig.Entries.{is_plain}
use kvstorage_base_raft_cpp.Clerk.{digits, node_key}
use kvstorage_base_raft_cpp.Clerk.Keys.{digits-one, digits-more, read_number, digits_lem}

-- A text of the digits `0` to `9`.
abbrev pub AreDigits : Bytes → Type 0
AreDigits [] = Unit {0}
AreDigits (b ∷ bs) = (48 ≤ b) × (b ≤ 57) × AreDigits bs

AreDigits-append : (xs ys : Bytes) → AreDigits xs → AreDigits ys → AreDigits (xs ++ ys)
AreDigits-append [] ys h h' = h'
AreDigits-append (x ∷ xs) ys h h' = (h.0, h.1, AreDigits-append xs ys h.2 h')

pub digits-AreDigits : (fuel n : ℕ) → AreDigits (digits fuel n)
unfolding digits
digits-AreDigits zero n = tt
digits-AreDigits (suc fuel) n = elim (dec_lt n 10) [
  | yes few ↦ rw (digits-one fuel n few) (omega arith, omega arith, tt)
  | no many ↦ rw (digits-more fuel n (omega arith)) (
      AreDigits-append (digits fuel (n / 10)) ((48 + n % 10) ∷ []) (digits-AreDigits fuel (n / 10))
        (omega arith, omega arith, tt))
]

-- The text of a number ends where what is no digit begins.
split_digits :
    (xs ys : Bytes) (b c : ℕ) (bs cs : Bytes)
    → AreDigits xs
    → AreDigits ys
    → 57 < b
    → 57 < c
    → xs ++ b ∷ bs ≡ ys ++ c ∷ cs
    → (xs ≡ ys) × (b ∷ bs ≡ c ∷ cs)
split_digits [] [] b c bs cs h h' p p' e = (refl, e)
split_digits [] (y ∷ ys) b c bs cs h h' p p' e =
    let same : b ≡ y = ground (arith, e) in absurd (omega (arith, h'.1))
split_digits (x ∷ xs) [] b c bs cs h h' p p' e =
    let same : x ≡ c = ground (arith, e) in absurd (omega (arith, h.1))
split_digits (x ∷ xs) (y ∷ ys) b c bs cs h h' p p' e =
    let heads : x ≡ y = ground (arith, e) in
    let tails : xs ++ b ∷ bs ≡ ys ++ c ∷ cs = ground (arith, e) in
    let (same, rest) = split_digits xs ys b c bs cs h.2 h'.2 p p' tails in
    (rw (heads, same) refl, rest)

node_key-eq :
    (i j b c : ℕ) (bs cs : Bytes)
    → 57 < b
    → 57 < c
    → node_key i (b ∷ bs) ≡ node_key j (c ∷ cs)
    → (i ≡ j) × (b ∷ bs ≡ c ∷ cs)
unfolding node_key
node_key-eq i j b c bs cs p p' e =
    let tails : digits (suc i) i ++ b ∷ bs ≡ digits (suc j) j ++ c ∷ cs = ground (arith, e) in
    let (same, rest) =
      split_digits (digits (suc i) i) (digits (suc j) j) b c bs cs (digits-AreDigits (suc i) i)
        (digits-AreDigits (suc j) j) p p' tails in
    let number =
      sym (digits_lem (suc i) i (omega arith)).1
      ∙ ap (read_number 0) same
      ∙ (digits_lem (suc j) j (omega arith)).1 in
    (number, rest)

-- Keys of different nodes or fields are different texts.
pub node_key-ne :
    (i j b c : ℕ) (bs cs : Bytes)
    → 57 < b
    → 57 < c
    → ¬ ((i ≡ j) × (b ∷ bs ≡ c ∷ cs))
    → bytes_eq (node_key i (b ∷ bs)) (node_key j (c ∷ cs)) ≡ false
node_key-ne i j b c bs cs p p' other =
    elim (Bool-cases (bytes_eq (node_key i (b ∷ bs)) (node_key j (c ∷ cs)))) [
      | inr different ↦ different
      | inl same ↦ absurd (other (node_key-eq i j b c bs cs p p' ((bytes_eq_iff _ _).0 same)))
    ]

is_plain-append :
    (xs ys : Bytes) → is_plain xs ≡ true → is_plain ys ≡ true → is_plain (xs ++ ys) ≡ true
is_plain-append [] ys h h' = h'
is_plain-append (zero ∷ xs) ys h h' = absurd (cc)
is_plain-append (suc x ∷ xs) ys h h' = ground (arith, h, h', is_plain-append xs ys)

pub AreDigits-is_plain : (xs : Bytes) → AreDigits xs → is_plain xs ≡ true
AreDigits-is_plain [] h = refl
AreDigits-is_plain (zero ∷ xs) h = absurd (omega (arith, h.0))
AreDigits-is_plain (suc x ∷ xs) h = ground (arith, h.0, h.1, AreDigits-is_plain xs h.2)

pub node_key-is_plain :
    (i : ℕ) (field : Bytes) → is_plain field ≡ true → is_plain (node_key i field) ≡ true
unfolding node_key
node_key-is_plain i field h =
    is_plain-append (110 ∷ 111 ∷ 100 ∷ 101 ∷ []) (digits (suc i) i ++ field) refl (
      is_plain-append (digits (suc i) i) field
        (AreDigits-is_plain (digits (suc i) i) (digits-AreDigits (suc i) i)) h)

-- `10 ^ k`.
abbrev pub pow_ten : ℕ → ℕ
pow_ten zero = 1
pow_ten (suc k) = 10 * pow_ten k

pub length-digits : (k fuel n : ℕ) → n < pow_ten k → length (digits fuel n) ≤ suc k
unfolding digits
length-digits k zero n h = omega arith
length-digits zero (suc fuel) n h = rw (digits-one fuel n (omega arith)) (omega arith)
length-digits (suc k) (suc fuel) n h = elim (dec_lt n 10) [
  | yes few ↦ rw (digits-one fuel n few) (omega arith)
  | no many ↦ rw (digits-more fuel n (omega arith)) (
      omega (
        arith,
        length-append (digits fuel (n / 10)) ((48 + n % 10) ∷ []),
        length-digits k fuel (n / 10) (omega arith),
      ))
]
