-- ===== src/Base/Families.antt =====
-- Families indexed by natural numbers, updated at one index, and counts over the first `n`.
use Prim.Native.Nat.{ℕ, zero, suc, ◌+◌, ◌≤◌, ◌<◌}
use mathlib.Core.Path.{◌≡◌}
use mathlib.Core.Logic.{◌≢◌, inl, inr}
use mathlib.Core.Bool.{Bool, true, false}
use native.Mathlib.Decide.{dec_lt, ℕ_discrete}
use native.Mathlib.Omega.{arith}
use kvstorage_base_raft_cpp.Base.Tests.{◌==◌, if◌then◌else◌, Bool-cases}

abbrev pub update {ℓ} : {A : Type ℓ} → ℕ → A → (ℕ → A) → ℕ → A
update i a f j = if j == i then a else f j

pub update_self {ℓ} : {A : Type ℓ} (i : ℕ) (a : A) (f : ℕ → A) → update i a f i ≡ a
update_self i a f = ground arith

pub update_other {ℓ} : {A : Type ℓ} (i j : ℕ) (a : A) (f : ℕ → A) → j ≢ i → update i a f j ≡ f j
update_other i j a f h = ground arith

-- What holds at the index of an update and at the others holds everywhere.
pub update-all {ℓ κ} :
    {A : Type ℓ} (P : ℕ → A → Type κ) (i : ℕ) (a : A) (f : ℕ → A)
    → P i a
    → ((j : ℕ) → j ≢ i → P j (f j))
    → (j : ℕ) → P j (update i a f j)
update-all P i a f here there j = elim (ℕ_discrete j i) [
  | yes e ↦ rw e (rw (update_self i a f) here)
  | no h ↦ rw (update_other i j a f h) (there j h)
]

-- How many of the first `n` are chosen.
abbrev pub count : ℕ → (ℕ → Bool) → ℕ
count zero p = 0
count (suc n) p = (if p n then 1 else 0) + count n p

-- Two choices of more than `n` together have one in common.
pub quorums_meet :
    (n : ℕ) (p q : ℕ → Bool)
    → n < count n p + count n q
    → (i : ℕ) × (i < n) × (p i ≡ true) × (q i ≡ true)
quorums_meet zero p q h = absurd (omega arith)
quorums_meet (suc n) p q h = elim (dec_lt n (count n p + count n q)) [
  | yes more ↦ let (i, below, in_p, in_q) = quorums_meet n p q more in (i, omega arith, in_p, in_q)
  | no few ↦ elim (Bool-cases (p n)) [
    | inl yes_p ↦ elim (Bool-cases (q n)) [
      | inl yes_q ↦ (n, omega arith, yes_p, yes_q)
      | inr no_q ↦ absurd (few (ground (arith, no_q, h)))
    ]
    | inr no_p ↦ absurd (few (ground (arith, no_p, h)))
  ]
]

pub count_mono :
    (n : ℕ) (p q : ℕ → Bool) → ((i : ℕ) → p i ≡ true → q i ≡ true) → count n p ≤ count n q
count_mono zero p q h = omega arith
count_mono (suc n) p q h = ground (arith, count_mono n p q h, h n)

-- One more is chosen.
pub count_more :
    (n k : ℕ) (p q : ℕ → Bool)
    → k < n
    → p k ≡ false
    → q k ≡ true
    → ((i : ℕ) → p i ≡ true → q i ≡ true)
    → count n p + 1 ≤ count n q
count_more zero k p q below out into h = absurd (omega arith)
count_more (suc n) k p q below out into h = elim (ℕ_discrete k n) [
  | yes here ↦
      let out' : p n ≡ false = rw (← here) out in
      let into' : q n ≡ true = rw (← here) into in ground (arith, count_mono n p q h, out', into')
  | no h' ↦ ground (arith, count_more n k p q (omega arith) out into h, h n)
]

pub count_one : (n k : ℕ) (p : ℕ → Bool) → k < n → p k ≡ true → 1 ≤ count n p
count_one zero k p below into = absurd (omega arith)
count_one (suc n) k p below into = elim (ℕ_discrete k n) [
  | yes here ↦ let into' : p n ≡ true = rw (← here) into in ground (arith, into')
  | no h ↦ omega (arith, count_one n k p (omega arith) into)
]
