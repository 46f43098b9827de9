-- ===== src/Itoa.antt =====
-- kernel/src/libc/string/itoa.c over a byte-addressed memory. The loop of digits runs on fuel, and
-- `none` means that it ran out; 64 rounds are enough for a 64-bit value, whatever the base.
pub mod Digits
pub mod Reverse
pub mod Text
mod Examples
use deer.Base.{
  ℕ, zero, suc, ◌+◌, ◌-◌, ◌/◌, ◌%◌, ◌||◌, ltb, ◌==◌, if◌then◌else◌, update, Option, none, some,
}
use deer.Memory.{Bytes}

-- `(digit < 10 ? '0' + digit : 'a' + digit - 10)`
unfoldable pub digit_char : ℕ → ℕ
digit_char digit = if ltb digit 10 then b'0' + digit else b'a' + digit - 10

-- `while (value > 0)`: where the digits end, and the memory.
unfoldable pub digits_loop : (fuel value base end : ℕ) → Bytes → Option (ℕ × Bytes)
digits_loop zero value base end m = if value == 0 then some (end, m) else none
digits_loop (suc fuel) value base end m =
    let rest =
      digits_loop fuel (value / base) base (end + 1) (update m end (digit_char (value % base))) in
    if value == 0 then some (end, m) else rest

-- `while (ptr < end)`; each round brings the pointers two steps closer.
unfoldable pub swap_loop : (fuel ptr end : ℕ) → Bytes → Bytes
swap_loop zero ptr end m = m
swap_loop (suc fuel) ptr end m =
    let rest = swap_loop fuel (ptr + 1) (end - 1) (update (update m ptr (m end)) end (m ptr)) in
    if ltb ptr end then rest else m

-- The terminator and the reversal, when the digits end at `end`.
unfoldable pub finish : (str end : ℕ) → Bytes → Bytes
finish str end m = swap_loop (end - str) str (end - 1) (update m end 0)

unfoldable pub itoa : (value str base : ℕ) → Bytes → Option Bytes
unfolding finish
itoa value str base m =
    if ltb base 2 || ltb 16 base
    then some (update m str 0)
    else (if value == 0
        then some (finish str (str + 1) (update m str b'0'))
        else elim (digits_loop 64 value base str m) [
          | none ↦ none
          | some (end, m') ↦ some (finish str end m')
        ])
