-- ===== src/Text/Examples.antt =====
-- Texts at concrete addresses: two characters at 50 and one at 10.
use deer.Base.{ℕ, suc, zero, ◌+◌, ◌<◌, ◌≡◌, ◌≢◌, refl, arith, some, ◌==◌, if◌then◌else◌}
use deer.Memory.{Bytes}
use deer.Text.{strcat}
use deer.Text.Compare.{strcmp, strncmp, strncpy, pad, copy_bounded, strcmp-strncmp}
use deer.Text.Laws.{IsText, IsCopied, strcat-IsText}

abbrev letters : Bytes
letters a = if a == 10 then 99 else (if a == 50 then 97 else (if a == 51 then 98 else 0))

ab : IsText letters 50 2
ab = record { full = λ k h z. two k h z; ended = refl }
  where
    two : (k : ℕ) → k < 2 → letters (50 + k) ≢ 0
    two zero h z = omega arith
    two (suc zero) h z = omega arith
    two (suc (suc k)) h z = omega arith

c : IsText letters 10 1
c = record { full = λ k h z. one k h z; ended = refl }
  where
    one : (k : ℕ) → k < 1 → letters (10 + k) ≢ 0
    one zero h z = omega arith
    one (suc k) h z = omega arith

strcat-IsText_example :
    (m' : Bytes) × (strcat 5 10 50 letters ≡ some m')
    × IsText m' 10 (1 + 2)
    × IsCopied letters m' (10 + 1) 50 2
strcat-IsText_example =
    strcat-IsText 5 10 1 50 2 letters c ab (λ j k p q e. omega arith) (omega arith) (omega arith)

order : (strcmp 5 50 10 letters ≡ some (97, 99)) × (strncmp 50 50 1 letters ≡ (0, 0))
unfolding strcmp strncmp
order = (refl, refl)

padding : (strncpy 100 50 4 letters).1 101 ≡ 98
unfolding strncpy copy_bounded pad
padding = refl

strcmp-strncmp_example : strcmp 5 50 10 letters ≡ some (strncmp 50 10 4 letters)
strcmp-strncmp_example = strcmp-strncmp 5 50 10 2 4 letters ab (omega arith) (omega arith)
