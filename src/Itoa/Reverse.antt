-- ===== src/Itoa/Reverse.antt =====
-- The reversal of the digits at the end of kernel/src/libc/string/itoa.c.
use deer.Base.{
  ℕ, zero, suc, ◌+◌, ◌-◌, ◌/◌, ◌%◌, ◌^◌, ◌<◌, ◌≤◌, ◌≡◌, ap, ◌∙◌, arith, Bool, ◌&&◌, inl, inr,
  Bool-cases, leb, ltb, ltb→lt, if◌then◌else◌, update,
}
use deer.Memory.{Bytes}
use deer.Itoa.{digit_char, swap_loop, finish}
use deer.Itoa.Digits.{AreDigits}

-- The bytes from `ptr` to `end` in the other order.
abbrev mirrored : (ptr end : ℕ) → Bytes → Bytes
mirrored ptr end m a = if leb ptr a && leb a end then m (ptr + end - a) else m a

swap_step :
    (ptr end a : ℕ) (m : Bytes)
    → ptr < end
    → mirrored (ptr + 1) (end - 1) (update (update m ptr (m end)) end (m ptr)) a
      ≡ mirrored ptr end m a
swap_step ptr end a m h = ground arith

swap_loop-mirrored :
    (fuel ptr end a : ℕ) (m : Bytes)
    → end ≤ ptr + fuel
    → swap_loop fuel ptr end m a ≡ mirrored ptr end m a
unfolding swap_loop
swap_loop-mirrored zero ptr end a m h = ground arith
swap_loop-mirrored (suc fuel) ptr end a m h = elim (Bool-cases (ltb ptr end)) [
  | inl more ↦
      ap
        (λ (b : Bool).
          (if b
              then swap_loop fuel (ptr + 1) (end - 1) (update (update m ptr (m end)) end (m ptr))
              else m)
            a)
        more
      ∙ swap_loop-mirrored fuel (ptr + 1) (end - 1) a (update (update m ptr (m end)) end (m ptr))
          (omega arith)
      ∙ swap_step ptr end a m (ltb→lt ptr end more)
  | inr done ↦ ground arith
]

-- From `str` on stand `len` digits of `value`, highest first, and a NUL behind them.
pub record IsWritten (value base str len : ℕ) (m w : Bytes) : Type 0 where
  pub digit :
      (k a : ℕ) → k < len → a + k + 1 ≡ str + len → w a ≡ digit_char (value / base ^ k % base)
  pub ended : w (str + len) ≡ 0
  pub before : (a : ℕ) → a < str → w a ≡ m a

finish-mirrored :
    (str len a : ℕ) (w : Bytes)
    → finish str (str + len) w a ≡ mirrored str (str + len - 1) (update w (str + len) 0) a
unfolding finish
finish-mirrored str len a w =
    swap_loop-mirrored (str + len - str) str (str + len - 1) a (update w (str + len) 0)
      (omega arith)

pub finish-IsWritten :
    (value base str len : ℕ) (m w : Bytes)
    → 0 < len
    → AreDigits value base str m w len
    → IsWritten value base str len m (finish str (str + len) w)
finish-IsWritten value base str len m w some_digits d = record {
  digit = λ k a below e.
      finish-mirrored str len a w ∙ inside str len k a w some_digits below e ∙ d.digit k below;
  ended = finish-mirrored str len (str + len) w ∙ behind str len w some_digits;
  before = λ a h. finish-mirrored str len a w ∙ in_front str len a w some_digits h ∙ d.before a h;
}
  where
    inside :
        (str len k a : ℕ) (w : Bytes)
        → 0 < len
        → k < len
        → a + k + 1 ≡ str + len
        → mirrored str (str + len - 1) (update w (str + len) 0) a ≡ w (str + k)
    inside str len k a w some_digits below e = ground arith

    behind :
        (str len : ℕ) (w : Bytes)
        → 0 < len
        → mirrored str (str + len - 1) (update w (str + len) 0) (str + len) ≡ 0
    behind str len w some_digits = ground arith

    in_front :
        (str len a : ℕ) (w : Bytes)
        → 0 < len
        → a < str
        → mirrored str (str + len - 1) (update w (str + len) 0) a ≡ w a
    in_front str len a w some_digits h = ground arith
