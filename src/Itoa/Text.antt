-- ===== src/Itoa/Text.antt =====
-- The text that kernel/src/libc/string/itoa.c leaves at `str`, read back as a number.
use mathlib.Core.Path.{subst}
use native.Mathlib.Nat.{
  pow-zero, pow-suc, div-div-eq-div-mul, div-one, zero-div, zero-mod, div-add-mod', div-eq_of_lt,
  mod-lt,
}
use deer.Base.{
  ℕ, zero, suc, ◌+◌, ◌-◌, ◌*◌, ◌/◌, ◌%◌, ◌^◌, ◌<◌, ◌≤◌, ◌≡◌, refl, sym, ap, ◌∙◌, arith, Bool, true,
  false, ◌||◌, inl, inr, Bool-cases, leb, ltb, ◌==◌, if◌then◌else◌, update, Option, none, some,
}
use deer.Memory.{Bytes}
use deer.Itoa.{digit_char, digits_loop, finish, itoa}
use deer.Itoa.Digits.{AreDigits, AreDigits-cons, digits_loop-AreDigits}
use deer.Itoa.Reverse.{IsWritten, finish-IsWritten}

-- What a reader takes a character for.
abbrev pub digit_of : ℕ → ℕ
digit_of c = if leb b'a' c then c - b'a' + 10 else c - b'0'

-- The number whose digits stand from `ptr` on, behind those of `acc`, up to a NUL; `none` means
-- that there was no NUL among `fuel` bytes.
unfoldable pub parse : (fuel base ptr acc : ℕ) → Bytes → Option ℕ
parse zero base ptr acc m = none
parse (suc fuel) base ptr acc m =
    let rest = parse fuel base (ptr + 1) (acc * base + digit_of (m ptr)) m in
    if m ptr == 0 then some acc else rest

digit_of-char : (d : ℕ) → d < 16 → digit_of (digit_char d) ≡ d
unfolding digit_char
digit_of-char d h = ground arith

char_full : (d : ℕ) → (digit_char d == 0) ≡ false
unfolding digit_char
char_full d = ground arith

-- The tests of one round of the reader.
parse-round :
    (fuel base ptr acc : ℕ) (m : Bytes) (ends : Bool)
    → (m ptr == 0) ≡ ends
    → parse (suc fuel) base ptr acc m
      ≡ (if ends then some acc else parse fuel base (ptr + 1) (acc * base + digit_of (m ptr)) m)
unfolding parse
parse-round fuel base ptr acc m ends e =
    ap
      (λ (b : Bool).
        if b then some acc else parse fuel base (ptr + 1) (acc * base + digit_of (m ptr)) m)
      e

-- A digit more is read.
step_value :
    (value base r c : ℕ)
    → 2 ≤ base
    → base ≤ 16
    → c ≡ digit_char (value / base ^ r % base)
    → value / base ^ suc r * base + digit_of c ≡ value / base ^ r
step_value value base r c two small e =
    ap (λ d. value / base ^ suc r * base + d)
      (ap digit_of e
        ∙ digit_of-char (value / base ^ r % base) (below base (value / base ^ r) two small))
    ∙ ap (λ q. q * base + value / base ^ r % base) (sym (higher value base r))
    ∙ div-add-mod' (value / base ^ r) base
  where
    below : (b v : ℕ) → 2 ≤ b → b ≤ 16 → v % b < 16
    below b v two small = omega (arith, mod-lt v {m = b} (omega arith))

    higher : (v b r : ℕ) → v / b ^ r / b ≡ v / b ^ suc r
    higher v b r = div-div-eq-div-mul v (b ^ r) b ∙ ap (λ t. v / t) (sym (pow-suc b r))

-- Reading on from the last `r` digits of a text, whose other digits have been read.
parse-digits :
    (value base str len : ℕ) (m w : Bytes)
    → 2 ≤ base
    → base ≤ 16
    → IsWritten value base str len m w
    → (r fuel ptr : ℕ) → r ≤ len
    → r ≤ fuel
    → ptr + r ≡ str + len
    → parse (suc fuel) base ptr (value / base ^ r) w ≡ some value
parse-digits value base str len m w two small i zero fuel ptr inside enough e =
    parse-round fuel base ptr (value / base ^ 0) w true
      (ap (λ c. c == 0) (ap w (omega (arith, e)) ∙ i.ended))
    ∙ ap (λ n. some n) (ap (λ t. value / t) (pow-zero base) ∙ div-one value)
parse-digits value base str len m w two small i (suc r) zero ptr inside enough e =
    absurd (omega arith)
parse-digits value base str len m w two small i (suc r) (suc fuel) ptr inside enough e =
    let here = i.digit r ptr (omega arith) (omega arith) in
    parse-round (suc fuel) base ptr (value / base ^ suc r) w false
      (ap (λ c. c == 0) here ∙ char_full (value / base ^ r % base))
    ∙ ap (λ n. parse (suc fuel) base (ptr + 1) n w) (step_value value base r (w ptr) two small here)
    ∙ parse-digits value base str len m w two small i r fuel (ptr + 1) (omega arith) (omega arith)
        (omega arith)

parse-IsWritten :
    (value base str len : ℕ) (m w : Bytes)
    → 2 ≤ base
    → base ≤ 16
    → len ≤ 64
    → value < base ^ len
    → IsWritten value base str len m w
    → parse 65 base str 0 w ≡ some value
parse-IsWritten value base str len m w two small short fits i =
    ap (λ n. parse 65 base str n w) (sym (div-eq_of_lt fits))
    ∙ parse-digits value base str len m w two small i len 64 str (omega arith) short refl

-- The digits of a number, 0 included.
one_digit : (base str : ℕ) (m : Bytes) → 2 ≤ base → AreDigits 0 base str m (update m str b'0') 1
unfolding digit_char
one_digit base str m two =
    subst (λ c. AreDigits 0 base str m (update m str c) 1) (ap digit_char (zero-mod base))
      (AreDigits-cons 0 base str 0 m (update m str (digit_char (0 % base))) two (record {
        digit = λ k h. absurd (omega arith);
        before = λ a h. refl;
        complete = rw (zero-div base, pow-zero base) (omega arith);
      }))

-- What itoa leaves, where the digits are known.
finish-reads :
    (value base str len : ℕ) (m w : Bytes)
    → 2 ≤ base
    → base ≤ 16
    → len ≤ 64
    → 0 < len
    → AreDigits value base str m w len
    → (parse 65 base str 0 (finish str (str + len) w) ≡ some value)
      × ((a : ℕ) → a < str → finish str (str + len) w a ≡ m a)
finish-reads value base str len m w two small short some_digits d =
    let i = finish-IsWritten value base str len m w some_digits d in
    (
      parse-IsWritten value base str len m (finish str (str + len) w) two small short d.complete i,
      i.before,
    )

-- The text, when the loop of digits has ended.
abbrev written : (str : ℕ) → Option (ℕ × Bytes) → Option Bytes
written str o = elim o [ none ↦ none | some (end, w) ↦ some (finish str end w) ]

-- The tests of itoa.
itoa-branch :
    (value str base : ℕ) (m : Bytes) (nothing : Bool)
    → 2 ≤ base
    → base ≤ 16
    → (value == 0) ≡ nothing
    → itoa value str base m ≡ (
        if nothing
        then some (finish str (str + 1) (update m str b'0'))
        else written str (digits_loop 64 value base str m))
unfolding itoa
itoa-branch value str base m nothing two small e =
    ap (λ (b : Bool). if b then some (update m str 0) else number (value == 0))
      (allowed base two small)
    ∙ ap number e
  where
    number : Bool → Option Bytes
    number b =
        if b
        then some (finish str (str + 1) (update m str b'0'))
        else written str (digits_loop 64 value base str m)

    allowed : (b : ℕ) → 2 ≤ b → b ≤ 16 → (ltb b 2 || ltb 16 b) ≡ false
    allowed b two small = ground arith

digits_needed : (value base len : ℕ) → (value == 0) ≡ false → value < base ^ len → 0 < len
digits_needed value base zero e fits = absurd (omega (arith, pow-zero base, nonzero value e))
  where
    nonzero : (v : ℕ) → (v == 0) ≡ false → 0 < v
    nonzero v e = ground arith
digits_needed value base (suc len) e fits = omega arith

-- Of a value below 2 ^ 64, in a base from 2 to 16, itoa ends and leaves a text of at most 64 digits
-- and a NUL, from which a reader of that base gets the value; the bytes before `str` are as they
-- were.
pub itoa-parse :
    (value str base : ℕ) (m : Bytes)
    → 2 ≤ base
    → base ≤ 16
    → value < 2 ^ 64
    → (w : Bytes) × (itoa value str base m ≡ some w)
      × (parse 65 base str 0 w ≡ some value)
      × ((a : ℕ) → a < str → w a ≡ m a)
itoa-parse value str base m two small fits = elim (Bool-cases (value == 0)) [
  | inl nothing ↦
      let is_zero : value ≡ 0 = ground arith in
      let r =
        finish-reads 0 base str 1 m (update m str b'0') two small (omega arith) (omega arith)
          (one_digit base str m two) in
      (
        finish str (str + 1) (update m str b'0'),
        itoa-branch value str base m true two small nothing,
        r.0 ∙ ap (λ n. some n) (sym is_zero),
        r.1,
      )
  | inr more ↦
      let (len, w, e, short, d) = digits_loop-AreDigits 64 value base str m two fits in
      let r =
        finish-reads value base str len m w two small short
          (digits_needed value base len more d.complete) d in
      (
        finish str (str + len) w,
        itoa-branch value str base m false two small more ∙ ap (written str) e,
        r.0,
        r.1,
      )
]
