-- ===== src/Text/Decimal.antt =====
-- `%d`: decimal digits of a number and of a signed number.
use kettlingar_go.Prelude.{
  ℕ, zero, suc, ◌+◌, ◌-◌, ◌*◌, ◌/◌, ◌%◌, ◌<◌, ◌≡◌, ◌≢◌, refl, ◌∙◌, arith, All, All-append,
  Bool-cases, inl, inr, Bytes, [], ◌∷◌, ◌++◌, ltb, true, false, ℤ, pos, negsuc, codes,
}

-- One digit a round; `f` bounds the rounds and `digits-eq` shows that any `f` above `n` will do.
pub digits : ℕ → ℕ → Bytes
digits zero n = []
digits (suc f) n = elim (ltb n 10) [
  | true ↦ (b'0' + n) ∷ []
  | false ↦ digits f (n / 10) ++ (b'0' + n % 10) ∷ []
]

unfoldable pub decimal : ℕ → Bytes
unfolding digits
decimal n = digits (suc n) n

unfoldable pub decimal_ℤ : ℤ → Bytes
unfolding decimal
decimal_ℤ (pos n) = decimal n
decimal_ℤ (negsuc n) = b'-' ∷ decimal (suc n)

-- The number that a row of digits spells behind `acc`.
abbrev pub spelled : ℕ → Bytes → ℕ
spelled acc [] = acc
spelled acc (c ∷ cs) = spelled (acc * 10 + (c - b'0')) cs

pub spelled-append :
    (acc : ℕ) (xs ys : Bytes) → spelled acc (xs ++ ys) ≡ spelled (spelled acc xs) ys
spelled-append acc [] ys = refl
spelled-append acc (x ∷ xs) ys = spelled-append (acc * 10 + (x - b'0')) xs ys

pub spelled-digits : (f n : ℕ) → n < f → spelled 0 (digits f n) ≡ n
unfolding digits
spelled-digits zero n h = elim h [ ]
spelled-digits (suc f) n h = elim (Bool-cases (ltb n 10)) [
  | inl small ↦ rw (small, digits) (omega arith)
  | inr large ↦
      rw (large, digits)
        (spelled-append 0 (digits f (n / 10)) ((b'0' + n % 10) ∷ [])
          ∙ rw (spelled-digits f (n / 10) (ground arith)) (omega arith))
]

pub spelled-decimal : (n : ℕ) → spelled 0 (decimal n) ≡ n
unfolding decimal
spelled-decimal n = spelled-digits (suc n) n (omega arith)

digits-lines : (f n : ℕ) → All (λ c. c ≢ b'\n') (digits f n)
unfolding digits
digits-lines zero n = tt
digits-lines (suc f) n = elim (Bool-cases (ltb n 10)) [
  | inl small ↦ rw (small, digits) (omega arith, tt)
  | inr large ↦
      rw (large, digits)
        (All-append (λ c. c ≢ b'\n') (digits f (n / 10)) ((b'0' + n % 10) ∷ [])
          (digits-lines f (n / 10)) (omega arith, tt))
]

-- No line ends inside a number.
pub decimal-lines : (n : ℕ) → All (λ c. c ≢ b'\n') (decimal n)
unfolding decimal
decimal-lines n = digits-lines (suc n) n

max_u64_digits : decimal 18446744073709551615 ≡ codes "18446744073709551615"
unfolding decimal
max_u64_digits = refl
