-- ===== src/Pmm/Bitmap.antt =====
-- What `bitmap_set` and `bitmap_clear` of kernel/src/memory/pmm.c do to `bitmap_test`.
use native.Mathlib.Nat.{one-le-pow}
use mathlib.Core.Path.{subst₂}
use deer.Base.{
  agrees, agrees-eq, ◌+◌, ℕ, ◌-◌, ◌*◌, ◌/◌, ◌%◌, ◌^◌, ◌<◌, ◌≡◌, refl, ap, ◌∙◌, bit_and, true, false,
  not, arith, ◌==◌, if◌then◌else◌, ◌<<<◌,
}
use deer.Bits.{bit, bit-or, bit-and, and-high, and-ones}
use deer.Pmm.{Pmm, bitmap_set, bitmap_clear, bitmap_test}

-- The bits of `1 << o` and of `~(1 << o)` within a byte, the bit `j` of the mask for `o` as number
-- `8 * o + j`.
mask_bits :
    agrees (λ x. bit (1 <<< (x / 8)) (x % 8)) (λ x. if x / 8 == x % 8 then 1 else 0) 64 ≡ true
unfolding agrees
mask_bits = refl

hole_bits :
    agrees (λ x. bit (255 - (1 <<< (x / 8))) (x % 8)) (λ x. if x / 8 == x % 8 then 0 else 1) 64
    ≡ true
unfolding agrees
hole_bits = refl

module _ (o j : ℕ) (p : o < 8) (q : j < 8) where
  hi : (8 * o + j) / 8 ≡ o
  hi = omega arith

  lo : (8 * o + j) % 8 ≡ j
  lo = omega arith

  bit_one : bit (1 <<< o) j ≡ (if o == j then 1 else 0)
  bit_one =
      subst₂ (λ a b. bit (1 <<< a) b ≡ (if a == b then 1 else 0)) hi lo
        (agrees-eq (λ x. bit (1 <<< (x / 8)) (x % 8)) (λ x. if x / 8 == x % 8 then 1 else 0)
          (8 * o + j) 64 (omega arith) mask_bits)

  bit_hole : bit (255 - (1 <<< o)) j ≡ (if o == j then 0 else 1)
  bit_hole =
      subst₂ (λ a b. bit (255 - (1 <<< a)) b ≡ (if a == b then 0 else 1)) hi lo
        (agrees-eq (λ x. bit (255 - (1 <<< (x / 8))) (x % 8)) (λ x. if x / 8 == x % 8 then 0 else 1)
          (8 * o + j) 64 (omega arith) hole_bits)

-- `(b & (1 << o)) != 0` reads bit `o`.
masked : (b o : ℕ) → bit_and b (1 <<< o) ≡ bit b o * 2 ^ o
masked b o = and-high o b 1 ∙ ap (λ (t : ℕ). t * 2 ^ o) (and-ones 1 (b / 2 ^ o))

test_bit : (b o : ℕ) → not (bit_and b (1 <<< o) == 0) ≡ (bit b o == 1)
test_bit b o = rw (masked b o) (ground (arith, one-le-pow o 2 (omega arith)))

pub bitmap_test_lem : (q : ℕ) (s : Pmm) → bitmap_test q s ≡ (bit (s.bytes (q / 8)) (q % 8) == 1)
unfolding bitmap_test
bitmap_test_lem q s = test_bit (s.bytes (q / 8)) (q % 8)

-- Setting a page's bit changes no other page's.
pub test-set :
    (p q : ℕ) (s : Pmm)
    → bitmap_test q (bitmap_set p s) ≡ (if p == q then true else bitmap_test q s)
unfolding bitmap_set
test-set p q s = ground (
  arith,
  bitmap_test_lem q (bitmap_set p s),
  bitmap_test_lem q s,
  bit-or (q % 8) (s.bytes (p / 8)) (1 <<< (p % 8)),
  bit_one (p % 8) (q % 8),
)

pub test-clear :
    (p q : ℕ) (s : Pmm)
    → bitmap_test q (bitmap_clear p s) ≡ (if p == q then false else bitmap_test q s)
unfolding bitmap_clear
test-clear p q s = ground (
  arith,
  bitmap_test_lem q (bitmap_clear p s),
  bitmap_test_lem q s,
  bit-and (q % 8) (s.bytes (p / 8)) (255 - (1 <<< (p % 8))),
  bit_hole (p % 8) (q % 8),
)
