-- ===== src/Itoa/Examples.antt =====
-- The digits of a number at concrete arguments.
use deer.Base.{ℕ, ◌<◌, ◌≡◌, refl, arith, Option, none, some}
use deer.Memory.{Bytes}
use deer.Itoa.{digits_loop, itoa, swap_loop, finish, digit_char}
use deer.Itoa.Text.{parse, itoa-parse}

abbrev blank : Bytes
blank a = 0

-- The byte at `a` after a call that ends.
abbrev byte_of : ℕ → Option Bytes → ℕ
byte_of a o = elim o [ none ↦ 256 | some m ↦ m a ]

first_digit : byte_of 100 (itoa 0xBEEF 100 16 blank) ≡ b'b'
unfolding itoa digits_loop digit_char finish swap_loop
first_digit = refl

last_digit : byte_of 103 (itoa 0xBEEF 100 16 blank) ≡ b'f'
unfolding itoa digits_loop digit_char finish swap_loop
last_digit = refl

terminator : byte_of 104 (itoa 0xBEEF 100 16 blank) ≡ 0
unfolding itoa digits_loop digit_char finish swap_loop
terminator = refl

itoa-parse_example :
    (w : Bytes) × (itoa 48879 100 16 blank ≡ some w)
    × (parse 65 16 100 0 w ≡ some 48879)
    × ((a : ℕ) → a < 100 → w a ≡ blank a)
itoa-parse_example = itoa-parse 48879 100 16 blank (omega arith) (omega arith) (omega arith)
