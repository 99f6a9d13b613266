-- ===== src/Clerk/Keys.antt =====
-- `std::to_string` in `Clerk::Init`: the text of a number, and the keys of the nodes.
use native.Mathlib.Decide.{dec_lt}
use kvstorage_base_raft_cpp.Base.{
  ℕ, zero, suc, ◌+◌, ◌-◌, ◌*◌, ◌/◌, ◌%◌, ◌≤◌, ◌<◌, ◌≡◌, refl, sym, ap, ◌∙◌, true, false, [], ◌∷◌,
  ◌++◌, arith, ltb, Bytes,
}
use kvstorage_base_raft_cpp.Clerk.{digits}

-- The number that a text of digits stands for, behind the digits of `acc`.
abbrev pub read_number : ℕ → Bytes → ℕ
read_number acc [] = acc
read_number acc (b ∷ bs) = read_number (acc * 10 + (b - 48)) bs

read_number-append :
    (acc : ℕ) (xs bs : Bytes) → read_number acc (xs ++ bs) ≡ read_number (read_number acc xs) bs
read_number-append acc [] bs = refl
read_number-append acc (x ∷ xs) bs = read_number-append (acc * 10 + (x - 48)) xs bs

pub digits-one : (fuel n : ℕ) → n < 10 → digits (suc fuel) n ≡ (48 + n) ∷ []
unfolding digits
digits-one fuel n few = rw (digits, ltb_true n few) refl
  where
    ltb_true : (n : ℕ) → n < 10 → ltb n 10 ≡ true
    ltb_true n h = ground arith

pub digits-more :
    (fuel n : ℕ) → 10 ≤ n → digits (suc fuel) n ≡ digits fuel (n / 10) ++ (48 + n % 10) ∷ []
unfolding digits
digits-more fuel n many = rw (digits, ltb_false n many) refl
  where
    ltb_false : (n : ℕ) → 10 ≤ n → ltb n 10 ≡ false
    ltb_false n h = ground arith

digits_enough : (fuel more n : ℕ) → n < fuel → n < more → digits fuel n ≡ digits more n
digits_enough zero more n h h' = absurd (omega arith)
digits_enough (suc fuel) zero n h h' = absurd (omega arith)
digits_enough (suc fuel) (suc more) n h h' = elim (dec_lt n 10) [
  | yes few ↦ digits-one fuel n few ∙ sym (digits-one more n few)
  | no many ↦
      digits-more fuel n (omega arith)
      ∙ ap (λ t. t ++ (48 + n % 10) ∷ [])
          (digits_enough fuel more (n / 10) (omega arith) (omega arith))
      ∙ sym (digits-more more n (omega arith))
]

read_number-digits : (fuel n : ℕ) → n < fuel → read_number 0 (digits fuel n) ≡ n
read_number-digits zero n h = absurd (omega arith)
read_number-digits (suc fuel) n h = elim (dec_lt n 10) [
  | yes few ↦ ap (read_number 0) (digits-one fuel n few) ∙ omega arith
  | no many ↦
      ap (read_number 0) (digits-more fuel n (omega arith))
      ∙ read_number-append 0 (digits fuel (n / 10)) ((48 + n % 10) ∷ [])
      ∙ omega (arith, read_number-digits fuel (n / 10) (omega arith))
]

-- The fuel `suc n` is enough for the text of `n`: any fuel above `n` gives the same text, and the
-- text reads back as `n`.
pub digits_lem :
    (fuel n : ℕ)
    → n < fuel
    → (digits fuel n ≡ digits (suc n) n) × (read_number 0 (digits fuel n) ≡ n)
digits_lem fuel n h = (digits_enough fuel (suc n) n h (omega arith), read_number-digits fuel n h)
