-- ===== src/Bits/Digit.antt =====
-- The native `&` and `|` run over the binary digits on a count of digits to go; here the count is
-- dropped, which leaves one equation for the lowest digit.
use Prim.Native.Nat.{min, max, digits, bit_and-bitwise, bit_or-bitwise}
use mathlib.Core.Path.{subst}
use deer.Base.{ℕ, zero, suc, ◌+◌, ◌-◌, ◌*◌, ◌/◌, ◌%◌, ◌≤◌, bit_and, bit_or, ◌≡◌, refl, ◌∙◌, arith}

module _ (rest : ℕ → ℕ) (op : ℕ → ℕ → ℕ) where
  -- A count beyond the first word's value changes nothing.
  digits-more : (n a b : ℕ) → a ≤ n → digits rest op (suc n) a b ≡ digits rest op n a b
  digits-more zero zero b h = refl
  digits-more (suc n) zero b h = refl
  digits-more zero (suc a) b h = absurd (omega arith)
  digits-more (suc n) (suc a) b h = rw (digits-more n (suc a / 2) (b / 2) (omega arith))

  digits-add : (k a b : ℕ) → digits rest op (k + a) a b ≡ digits rest op a a b
  digits-add zero a b = rw (zero_plus a)
    where
      zero_plus : (n : ℕ) → zero + n ≡ n
      zero_plus n = omega arith
  digits-add (suc k) a b =
      rw (suc_plus k a) (digits-more (k + a) a b (omega arith) ∙ digits-add k a b)
    where
      suc_plus : (m n : ℕ) → suc m + n ≡ suc (m + n)
      suc_plus m n = omega arith

  -- So the count may be any number that covers the first word's value.
  digits-enough : (n a b : ℕ) → a ≤ n → digits rest op n a b ≡ digits rest op a a b
  digits-enough n a b h =
      subst (λ (m : ℕ). digits rest op m a b ≡ digits rest op a a b) split (digits-add (n - a) a b)
    where
      split : n - a + a ≡ n
      split = omega arith

pub or_digit : (a b : ℕ) → bit_or a b ≡ bit_or (a / 2) (b / 2) * 2 + max (a % 2) (b % 2)
or_digit zero b = omega (arith, bit_or-bitwise 0 b, bit_or-bitwise 0 (b / 2))
or_digit (suc a) b = omega (
  arith,
  bit_or-bitwise (suc a) b,
  bit_or-bitwise (suc a / 2) (b / 2),
  digits-enough (λ d. d) max a (suc a / 2) (b / 2) (omega arith),
)

pub and_digit : (a b : ℕ) → bit_and a b ≡ bit_and (a / 2) (b / 2) * 2 + min (a % 2) (b % 2)
and_digit zero b = omega (arith, bit_and-bitwise 0 b, bit_and-bitwise 0 (b / 2))
and_digit (suc a) b = omega (
  arith,
  bit_and-bitwise (suc a) b,
  bit_and-bitwise (suc a / 2) (b / 2),
  digits-enough (λ d. zero) min a (suc a / 2) (b / 2) (omega arith),
)
