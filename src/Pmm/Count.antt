-- ===== src/Pmm/Count.antt =====
-- How many pages below a bound the bitmap of kernel/src/memory/pmm.c marks used, and what setting
-- or clearing one page does to that number.
use deer.Base.{
  ℕ, zero, suc, ◌+◌, ◌≤◌, ◌<◌, ◌≡◌, refl, true, false, arith, ◌==◌, if◌then◌else◌, Bool-cases, inl,
  inr,
}
use deer.Pmm.{Pmm, bitmap_set, bitmap_clear, bitmap_test}
use deer.Pmm.Bitmap.{test-set, test-clear}

unfoldable pub marked : ℕ → Pmm → ℕ
marked zero s = 0
marked (suc n) s = (if bitmap_test n s then 1 else 0) + marked n s

pub marked-le : (n : ℕ) (s : Pmm) → marked n s ≤ n
unfolding marked
marked-le zero s = omega arith
marked-le (suc n) s = ground (arith, marked-le n s)

-- Pages beyond the bound do not count.
pub marked-set_beyond : (n p : ℕ) (s : Pmm) → n ≤ p → marked n (bitmap_set p s) ≡ marked n s
unfolding marked
marked-set_beyond zero p s h = refl
marked-set_beyond (suc n) p s h = ground (arith, test-set p n s, marked-set_beyond n p s)

pub marked-clear_beyond : (n p : ℕ) (s : Pmm) → n ≤ p → marked n (bitmap_clear p s) ≡ marked n s
unfolding marked
marked-clear_beyond zero p s h = refl
marked-clear_beyond (suc n) p s h = ground (arith, test-clear p n s, marked-clear_beyond n p s)

pub marked-set :
    (n p : ℕ) (s : Pmm)
    → p < n
    → bitmap_test p s ≡ false
    → marked n (bitmap_set p s) ≡ marked n s + 1
unfolding marked
marked-set zero p s h free = absurd (omega arith)
marked-set (suc n) p s h free = elim (Bool-cases (p == n)) [
  | inl here ↦ ground (arith, test-set p n s, marked-set_beyond n p s)
  | inr below ↦ ground (arith, test-set p n s, marked-set n p s)
]

pub marked-clear :
    (n p : ℕ) (s : Pmm)
    → p < n
    → bitmap_test p s ≡ true
    → marked n (bitmap_clear p s) + 1 ≡ marked n s
unfolding marked
marked-clear zero p s h used = absurd (omega arith)
marked-clear (suc n) p s h used = elim (Bool-cases (p == n)) [
  | inl here ↦ ground (arith, test-clear p n s, marked-clear_beyond n p s)
  | inr below ↦ ground (arith, test-clear p n s, marked-clear n p s)
]

-- Clearing a page that was clear, and setting one that was set, count nothing.
pub marked_ext :
    (n : ℕ) (s t : Pmm)
    → ((q : ℕ) → q < n → bitmap_test q t ≡ bitmap_test q s)
    → marked n t ≡ marked n s
unfolding marked
marked_ext zero s t h = refl
marked_ext (suc n) s t h = ground (arith, h n, marked_ext n s t (λ q p. h q (omega arith)))
