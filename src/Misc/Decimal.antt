-- ===== src/Misc/Decimal.antt =====
-- The digits that itoa of src/misc.cpp writes: decimal numbers can be read back, so no two of them are spelled alike.
use greensql_fw.Base.{
  ℕ, zero, suc, ◌+◌, ◌-◌, ◌*◌, ◌/◌, ◌%◌, ◌<◌, Bool, true, ◌&&◌, ltb, leb, Bytes, [], ◌∷◌, ◌++◌,
  length, length-append, ◌≤◌, ◌≡◌, refl, inl, inr, arith, Bool-cases, ltb→le,
}
use greensql_fw.Misc.{digits_text, digits_loop}

-- The number that a decimal text stands for, behind the digits read so far.
pub decimal : ℕ → Bytes → ℕ
decimal acc [] = acc
decimal acc (c ∷ s) = decimal (acc * 10 + (c - 48)) s

decimal-snoc :
    (acc : ℕ) (s : Bytes) (d : ℕ) → decimal acc (s ++ ((48 + d) ∷ [])) ≡ decimal acc s * 10 + d
unfolding decimal
decimal-snoc acc [] d = omega arith
decimal-snoc acc (c ∷ s) d = decimal-snoc (acc * 10 + (c - 48)) s d

decimal-digits_loop : (fuel n : ℕ) → n < fuel → decimal 0 (digits_loop fuel n) ≡ n
unfolding digits_loop
decimal-digits_loop zero n h = absurd (omega arith)
decimal-digits_loop (suc fuel) n h = elim (Bool-cases (ltb n 10)) [
  | inl small ↦ rw small (unfold decimal in omega arith)
  | inr big ↦
      rw (big, decimal-snoc 0 (digits_loop fuel (n / 10)) (n % 10))
        (omega (
          arith,
          ltb→le n 10 big,
          decimal-digits_loop fuel (n / 10) (omega (arith, ltb→le n 10 big)),
        ))
]

-- The decimal spelling of a number stands for that number.
pub decimal-digits_text : (n : ℕ) → decimal 0 (digits_text n) ≡ n
unfolding digits_text
decimal-digits_text n = decimal-digits_loop (suc n) n (omega arith)

-- Only digits.
pub all_digits : Bytes → Bool
all_digits [] = true
all_digits (c ∷ s) = leb b'0' c && leb c b'9' && all_digits s

all_digits-snoc :
    (s : Bytes) (d : ℕ) → d < 10 → all_digits s ≡ true → all_digits (s ++ ((48 + d) ∷ [])) ≡ true
unfolding all_digits
all_digits-snoc [] d h k = ground arith
all_digits-snoc (c ∷ s) d h k = ground (arith, all_digits-snoc s d h)

digits_loop-digits : (fuel n : ℕ) → all_digits (digits_loop fuel n) ≡ true
unfolding digits_loop
digits_loop-digits zero n = unfold all_digits in refl
digits_loop-digits (suc fuel) n = elim (Bool-cases (ltb n 10)) [
  | inl small ↦ rw small (unfold all_digits in ground arith)
  | inr big ↦ rw big (all_digits-snoc _ (n % 10) (omega arith) (digits_loop-digits fuel (n / 10)))
]

pub digits_text-digits : (n : ℕ) → all_digits (digits_text n) ≡ true
unfolding digits_text
digits_text-digits n = digits_loop-digits (suc n) n

-- Digits in front of a comma are told apart from what follows.
pub digits-comma :
    (a b x y : Bytes)
    → all_digits a ≡ true
    → all_digits b ≡ true
    → a ++ (b',' ∷ x) ≡ b ++ (b',' ∷ y)
    → (a ≡ b) × (x ≡ y)
unfolding all_digits
digits-comma [] [] x y h k e = (refl, cc)
digits-comma [] (c ∷ b) x y h k e = ground arith
digits-comma (c ∷ a) [] x y h k e = ground arith
digits-comma (c ∷ a) (d ∷ b) x y h k e =
    let (p, q) = digits-comma a b x y (ground arith) (ground arith) (cc) in (cc p, q)

abbrev pub pow10 : ℕ → ℕ
pow10 zero = 1
pow10 (suc k) = pow10 k * 10

length-digits_loop : (fuel k n : ℕ) → n < pow10 (suc k) → length (digits_loop fuel n) ≤ suc k
unfolding digits_loop
length-digits_loop zero k n h = omega arith
length-digits_loop (suc fuel) zero n h =
    let small : ltb n 10 ≡ true = ground (arith, h) in rw small (omega arith)
length-digits_loop (suc fuel) (suc k) n h = elim (Bool-cases (ltb n 10)) [
  | inl small ↦ rw small (omega arith)
  | inr big ↦
      rw (big, length-append (digits_loop fuel (n / 10)) ((48 + n % 10) ∷ []))
        (omega (arith, length-digits_loop fuel k (n / 10) (omega (arith, h))))
]

-- A number below a power of ten has no more digits than its exponent.
pub length-digits_text : (k n : ℕ) → n < pow10 (suc k) → length (digits_text n) ≤ suc k
unfolding digits_text
length-digits_text k n h = length-digits_loop (suc n) k n h
