-- ===== src/Printf/Numbers.antt =====
-- The numbers that kernel/src/libc/stdio/printf.c prints, read back.
use mathlib.Core.List.{append-nil}
use mathlib.Core.Path.{subst}
use deer.Base.{
  ℕ, zero, suc, ◌+◌, ◌-◌, ◌*◌, ◌%◌, ◌^◌, ◌<◌, ◌≤◌, ◌≡◌, refl, sym, ap, ◌∙◌, arith, Bool, true, inl,
  inr, Bool-cases, leb, ◌==◌, if◌then◌else◌, Option, none, some, List, [], ◌∷◌, ◌++◌, u64,
}
use deer.Memory.{Bytes}
use deer.Itoa.Text.{digit_of, parse, itoa-parse}
use deer.Printf.{
  Text, Arg, word, Printed, chars, read_text, number_text, putnumber, with_word, convert, converted,
  step, prepend, go_on, run, printf,
}

-- The number whose digits in the base `base` a text is, behind those of `acc`.
pub value_of : (base acc : ℕ) → Text → ℕ
value_of base acc [] = acc
value_of base acc (c ∷ t) = value_of base (acc * base + digit_of c) t

-- What a reader of the memory finds, a reader of the text finds.
parse-value_of :
    (fuel base p acc v : ℕ) (m : Bytes)
    → parse fuel base p acc m ≡ some v
    → value_of base acc (read_text fuel p m) ≡ v
unfolding parse value_of read_text
parse-value_of zero base p acc v m e = absurd (no_value e)
  where
    no_value : {n : ℕ} → none ≡ some n → ⊥
    no_value e = cc
parse-value_of (suc fuel) base p acc v m e = elim (Bool-cases (m p == 0)) [
  | inl done ↦
      ap (λ (b : Bool). value_of base acc (if b then [] else m p ∷ read_text fuel (p + 1) m)) done
      ∙ same_value (sym (choose done) ∙ e)
  | inr more ↦
      ap (λ (b : Bool). value_of base acc (if b then [] else m p ∷ read_text fuel (p + 1) m)) more
      ∙ parse-value_of fuel base (p + 1) (acc * base + digit_of (m p)) v m (sym (choose more) ∙ e)
]
  where
    rest : Option ℕ
    rest = parse fuel base (p + 1) (acc * base + digit_of (m p)) m

    choose :
        {b : Bool}
        → (m p == 0) ≡ b
        → (if m p == 0 then some acc else rest) ≡ (if b then some acc else rest)
    choose q = ap (λ (b : Bool). if b then some acc else rest) q

    same_value : {a b : ℕ} → some a ≡ some b → a ≡ b
    same_value q = cc

number_text-value_of :
    (num base : ℕ)
    → 2 ≤ base
    → base ≤ 16
    → num < 2 ^ 64
    → value_of base 0 (number_text num base) ≡ num
unfolding number_text
number_text-value_of num base two small fits =
    let (m, e, reads, _) = itoa-parse num 0 base (λ a. 0) two small fits in
    subst
      (λ (o : Option Bytes).
        value_of base 0 (elim o [ none ↦ [] | some w ↦ read_text 65 0 w ]) ≡ num)
      (sym e) (parse-value_of 65 base 0 0 num m reads)

-- With l, %u and with a prefix %x and %o print digits of the argument, in the bases 10, 16 and 8; %d
-- prints those of the argument, taken as a number of 64 bits with a sign, behind a minus if it is
-- negative. Without l, %u prints digits of its low 32 bits. Each counts 1.
pub printf-value_of :
    (w : ℕ) (args : List Arg)
    → w < 2 ^ 64
    → (d x o s n : Text) × (printf (chars "%lu") (word w ∷ args) ≡ some (d, 1, args))
      × (value_of 10 0 d ≡ w)
      × (printf (chars "%#lx") (word w ∷ args) ≡ some (b'0' ∷ b'x' ∷ x, 1, args))
      × (value_of 16 0 x ≡ w)
      × (printf (chars "%#lo") (word w ∷ args) ≡ some (b'0' ∷ o, 1, args))
      × (value_of 8 0 o ≡ w)
      × (printf (chars "%ld") (word w ∷ args)
          ≡ some (if leb (2 ^ 63) w then b'-' ∷ s else s, 1, args))
      × (value_of 10 0 s ≡ (if leb (2 ^ 63) w then 2 ^ 64 - w else w))
      × (printf (chars "%u") (word w ∷ args) ≡ some (n, 1, args))
      × (value_of 10 0 n ≡ w % 2 ^ 32)
unfolding printf run go_on step convert converted with_word chars prepend putnumber
printf-value_of w args fits = (
  number_text w 10,
  number_text w 16,
  number_text w 8,
  number_text magnitude 10,
  number_text (w % 2 ^ 32) 10,
  printed (number_text w 10),
  number_text-value_of w 10 (omega arith) (omega arith) fits,
  printed (b'0' ∷ b'x' ∷ number_text w 16),
  number_text-value_of w 16 (omega arith) (omega arith) fits,
  printed (b'0' ∷ number_text w 8),
  number_text-value_of w 8 (omega arith) (omega arith) fits,
  printed _ ∙ ap (λ t. some (t, 1, args)) signed,
  number_text-value_of magnitude 10 (omega arith) (omega arith) small,
  printed (number_text (w % 2 ^ 32) 10),
  number_text-value_of (w % 2 ^ 32) 10 (omega arith) (omega arith) (omega arith),
)
  where
    magnitude : ℕ
    magnitude = if leb (2 ^ 63) w then 2 ^ 64 - w else w

    printed : (t : Text) → ◌≡◌ {A = Printed} (some (t ++ [], 1, args)) (some (t, 1, args))
    printed t = ap (λ x. some (x, 1, args)) (append-nil t)

    small : magnitude < 2 ^ 64
    small = ground arith

    narrow : leb (2 ^ 63) w ≡ true → u64 (2 ^ 64 - w) ≡ 2 ^ 64 - w
    narrow e = ground arith

    signed :
        (if leb (2 ^ 63) w then b'-' ∷ number_text (u64 (2 ^ 64 - w)) 10 else number_text w 10)
        ≡ (if leb (2 ^ 63) w then b'-' ∷ number_text magnitude 10 else number_text magnitude 10)
    signed = elim (Bool-cases (leb (2 ^ 63) w)) [
      | inl neg ↦ rw neg (ap (λ n. b'-' ∷ number_text n 10) (narrow neg))
      | inr pos ↦ rw pos refl
    ]
