-- ===== src/Bits.antt =====
-- `&` and `|` of machine words at variables: one equation for the lowest digit, then shifts,
-- single bits, masks and disjoint fields.
pub mod Digit
use Digit.{or_digit, and_digit}
use native.Mathlib.Nat.{pow-succ', one-le-pow, div-div-eq-div-mul, div-one, div-add-mod, mul-one}
use deer.Base.{
  ℕ, zero, suc, ◌+◌, ◌-◌, ◌*◌, ◌/◌, ◌%◌, ◌^◌, ◌<◌, ◌≤◌, bit_and, bit_or, ◌≡◌, refl, sym, ap, arith,
}
use Prim.Native.Nat.{min, max}

pub halve : (a k : ℕ) → a / 2 ^ suc k ≡ a / 2 / 2 ^ k
halve a k = rw (pow-succ' 2 k) (sym (div-div-eq-div-mul a 2 (2 ^ k)))

-- A right shift goes through both operations.
pub or-shift : (k a b : ℕ) → bit_or a b / 2 ^ k ≡ bit_or (a / 2 ^ k) (b / 2 ^ k)
or-shift zero a b = rw (div-one a, div-one b, div-one (bit_or a b))
or-shift (suc k) a b =
    rw (halve a k, halve b k, halve (bit_or a b) k, ← or-shift k (a / 2) (b / 2))
      (ap (λ t. t / 2 ^ k) (omega (arith, or_digit a b)))

pub and-shift : (k a b : ℕ) → bit_and a b / 2 ^ k ≡ bit_and (a / 2 ^ k) (b / 2 ^ k)
and-shift zero a b = rw (div-one a, div-one b, div-one (bit_and a b))
and-shift (suc k) a b =
    rw (halve a k, halve b k, halve (bit_and a b) k, ← and-shift k (a / 2) (b / 2))
      (ap (λ t. t / 2 ^ k) (omega (arith, and_digit a b)))

-- Bit `j` of a word.
abbrev pub bit : ℕ → ℕ → ℕ
bit a j = a / 2 ^ j % 2

pub bit-or : (j a b : ℕ) → bit (bit_or a b) j ≡ max (bit a j) (bit b j)
bit-or j a b = rw (or-shift j a b) (omega (arith, or_digit (a / 2 ^ j) (b / 2 ^ j)))

pub bit-and : (j a b : ℕ) → bit (bit_and a b) j ≡ min (bit a j) (bit b j)
bit-and j a b = rw (and-shift j a b) (omega (arith, and_digit (a / 2 ^ j) (b / 2 ^ j)))

-- Both stay within a width.
pub or-lt : (k a b : ℕ) → a < 2 ^ k → b < 2 ^ k → bit_or a b < 2 ^ k
or-lt zero a b p q = rw (the_zero a p, the_zero b q) (omega arith)
  where
    the_zero : (n : ℕ) → n < 2 ^ zero → n ≡ 0
    the_zero n h = omega arith
or-lt (suc k) a b p q = omega (
  arith,
  or_digit a b,
  or-lt k (a / 2) (b / 2) (omega (arith, pow-succ' 2 k)) (omega (arith, pow-succ' 2 k)),
  pow-succ' 2 k,
)

and-zero_below : (n a : ℕ) → a ≤ n → bit_and a 0 ≡ 0
and-zero_below n zero h = refl
and-zero_below zero (suc a) h = absurd (omega arith)
and-zero_below (suc n) (suc a) h =
    omega (arith, and_digit (suc a) 0, and-zero_below n (suc a / 2) (omega arith))

pub and-zero : (a : ℕ) → bit_and a 0 ≡ 0
and-zero a = and-zero_below a a (omega arith)

or-zero_below : (n a : ℕ) → a ≤ n → bit_or a 0 ≡ a
or-zero_below n zero h = refl
or-zero_below zero (suc a) h = absurd (omega arith)
or-zero_below (suc n) (suc a) h =
    omega (arith, or_digit (suc a) 0, or-zero_below n (suc a / 2) (omega arith))

pub or-zero : (a : ℕ) → bit_or a 0 ≡ a
or-zero a = or-zero_below a a (omega arith)

double : (m k : ℕ) → m * 2 ^ suc k ≡ 2 * (m * 2 ^ k)
double m k = omega (arith, ap (λ (t : ℕ). m * t) (pow-succ' 2 k))

half_of_double : (n : ℕ) → 2 * n / 2 ≡ n
half_of_double n = omega arith

-- A mask whose low `k` bits are clear drops the low `k` bits of the word.
pub and-high : (k a m : ℕ) → bit_and a (m * 2 ^ k) ≡ bit_and (a / 2 ^ k) m * 2 ^ k
and-high zero a m = rw (div-one a, mul-one m) (omega arith)
and-high (suc k) a m = rw (halve a k) (
    omega (
      arith,
      and_digit a (m * 2 ^ suc k),
      ap (λ (t : ℕ). bit_and (a / 2) (t / 2)) (double m k),
      ap (λ (t : ℕ). bit_and (a / 2) t) (half_of_double (m * 2 ^ k)),
      and-high k (a / 2) m,
      double m k,
      double (bit_and (a / 2 / 2 ^ k) m) k,
    ))

-- The remainder by `2 * p`, from the lowest digit up.
mod-two-mul : (a p : ℕ) → 1 ≤ p → a % (2 * p) ≡ a / 2 % p * 2 + a % 2
mod-two-mul a p h = omega (
  arith,
  div-add-mod a (2 * p),
  div-add-mod (a / 2) p,
  ap (λ (t : ℕ). p * t) (div-div-eq-div-mul a 2 p),
)

-- A mask of `k` ones is the remainder by `2 ^ k`.
pub and-ones : (k a : ℕ) → bit_and a (2 ^ k - 1) ≡ a % 2 ^ k
and-ones zero a = rw and-zero (omega arith)
and-ones (suc k) a = omega (
  arith,
  and_digit a (2 ^ suc k - 1),
  ap (λ (t : ℕ). bit_and (a / 2) ((t - 1) / 2)) (pow-succ' 2 k),
  ap (λ (t : ℕ). bit_and (a / 2) t) (half_ones (2 ^ k) (one-le-pow k 2 (omega arith))),
  and-ones k (a / 2),
  pow-succ' 2 k,
  one-le-pow k 2 (omega arith),
  ap (λ (t : ℕ). a % t) (pow-succ' 2 k),
  mod-two-mul a (2 ^ k) (one-le-pow k 2 (omega arith)),
)
  where
    half_ones : (p : ℕ) → 1 ≤ p → (2 * p - 1) / 2 ≡ p - 1
    half_ones p h = omega arith

-- `|` of a field above bit `k` and one below it is their sum.
pub or-fields : (k q r : ℕ) → r < 2 ^ k → bit_or (q * 2 ^ k) r ≡ q * 2 ^ k + r
or-fields zero q r h = rw (none_left r h, mul-one q, or-zero q) (omega arith)
  where
    none_left : (n : ℕ) → n < 2 ^ zero → n ≡ 0
    none_left n p = omega arith
or-fields (suc k) q r h = omega (
  arith,
  or_digit (q * 2 ^ suc k) r,
  ap (λ (t : ℕ). bit_or (t / 2) (r / 2)) (double q k),
  ap (λ (t : ℕ). bit_or t (r / 2)) (half_of_double (q * 2 ^ k)),
  or-fields k q (r / 2) (omega (arith, pow-succ' 2 k)),
  double q k,
)

or_comm_below : (n a b : ℕ) → a ≤ n → b ≤ n → bit_or a b ≡ bit_or b a
or_comm_below zero zero zero p q = refl
or_comm_below zero zero (suc b) p q = absurd (omega arith)
or_comm_below zero (suc a) b p q = absurd (omega arith)
or_comm_below (suc n) a b p q =
    omega (
      arith,
      or_digit a b,
      or_digit b a,
      or_comm_below n (a / 2) (b / 2) (omega arith) (omega arith),
    )

pub or_comm : (a b : ℕ) → bit_or a b ≡ bit_or b a
or_comm a b = or_comm_below (a + b) a b (omega arith) (omega arith)
