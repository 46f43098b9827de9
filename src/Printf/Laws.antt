-- ===== src/Printf/Laws.antt =====
-- How the formatting of kernel/src/libc/stdio/printf.c goes from one part of a format to the next,
-- and what its conversions print.
use deer.Base.{
  ℕ, ◌+◌, ◌-◌, ◌^◌, ◌≡◌, refl, sym, ap, ◌∙◌, arith, Bool, true, false, Option, none, some, List, [],
  ◌∷◌, ◌++◌, leb, inl, inr, ◌⊎◌, if◌then◌else◌, u32, u64,
}
use deer.Printf.{
  Arg, word, Text, Printed, Mode, plain, flags, step, prepend, run, go_on, printf, convert,
  converted, putnumber, with_word, number_text, chars, sized,
}

assoc : (a b c : Text) → (a ++ b) ++ c ≡ a ++ (b ++ c)
assoc [] b c = refl
assoc (x ∷ a) b c = ap (λ t. x ∷ t) (assoc a b c)

prepend_none : (p : Printed) → p ≡ prepend [] 0 p
unfolding prepend
prepend_none none = refl
prepend_none (some (out, n, args)) = ap (λ k. some (out, k, args)) (omega arith)

prepend_twice :
    (out out' : Text) (n n' : ℕ) (p : Printed)
    → prepend out n (prepend out' n' p) ≡ prepend (out ++ out') (n + n') p
unfolding prepend
prepend_twice out out' n n' none = refl
prepend_twice out out' n n' (some (rest, k, args)) =
    ap (λ t. some (t, n + (n' + k), args)) (sym (assoc out out' rest))
    ∙ ap (λ t. some ((out ++ out') ++ rest, t, args)) (omega arith)

-- A first part of the format, and then the format `g`.
then_printf : Text → Printed → Printed
then_printf g none = none
then_printf g (some (out, n, args)) = prepend out n (run g plain args)

prepend-then_printf :
    (g out : Text) (n : ℕ) (p : Printed)
    → prepend out n (then_printf g p) ≡ then_printf g (prepend out n p)
unfolding prepend then_printf
prepend-then_printf g out n none = refl
prepend-then_printf g out n (some (out', n', args)) = prepend_twice out out' n n' (run g plain args)

abbrev Continues : (f g : Text) (mode : Mode) (args : List Arg) → Type 0
Continues f g mode args =
    (run f mode args ≡ none) ⊎ (run (f ++ g) mode args ≡ then_printf g (run f mode args))

go_on-Continues :
    (f g : Text)
    → ((mode : Mode) (args : List Arg) → Continues f g mode args)
    → (s : Option (Mode × Text × ℕ × List Arg))
    → (go_on (run f) s ≡ none) ⊎ (go_on (run (f ++ g)) s ≡ then_printf g (go_on (run f) s))
unfolding go_on
go_on-Continues f g ih none = inl refl
go_on-Continues f g ih (some (mode, out, n, args)) = elim (ih mode args) [
  | inl e ↦ inl (ap (prepend out n) e)
  | inr e ↦ inr (ap (prepend out n) e ∙ prepend-then_printf g out n (run f mode args))
]

run-Continues : (f g : Text) (mode : Mode) (args : List Arg) → Continues f g mode args
unfolding run then_printf
run-Continues [] g plain args = inr (prepend_none (run g plain args))
run-Continues [] g (flags l a) args = inl refl
run-Continues (c ∷ f) g mode args = go_on-Continues f g (run-Continues f g) (step mode c args)

undefined : (p : Text × ℕ × List Arg) → none ≡ some p → ⊥
undefined p e = cc

-- Where a first format prints `out`, counts `n` and leaves the arguments `rest`, the format that
-- goes on with `g` prints `out` and then what `g` prints for `rest`, and counts both; where `g` has
-- undefined behaviour for `rest`, so has the whole.
pub printf-append :
    (f g : Text) (args : List Arg) (out : Text) (n : ℕ) (rest : List Arg)
    → printf f args ≡ some (out, n, rest)
    → printf (f ++ g) args ≡ prepend out n (printf g rest)
unfolding printf then_printf
printf-append f g args out n rest e = elim (run-Continues f g plain args) [
  | inl bad ↦ absurd (undefined (out, n, rest) (sym bad ∙ e))
  | inr good ↦ good ∙ ap (then_printf g) e
]

-- A number of 32 bits, widened to 64, is never negative.
putnumber-sized : (w : ℕ) → putnumber (sized false w) 10 true ≡ putnumber (sized false w) 10 false
unfolding putnumber
putnumber-sized w =
    ap
      (λ (b : Bool).
        if b then b'-' ∷ number_text (u64 (2 ^ 64 - u32 w)) 10 else number_text (u32 w) 10)
      (narrow w)
  where
    narrow : (w : ℕ) → leb (2 ^ 63) (u32 w) ≡ false
    narrow w = ground arith

-- Without `l`, `%d` prints every argument, the negative ones included, as `%u` does.
pub printf-unsigned :
    (w : ℕ) (args : List Arg)
    → printf (chars "%d") (word w ∷ args) ≡ printf (chars "%u") (word w ∷ args)
unfolding printf run go_on step convert converted with_word chars prepend
printf-unsigned w args = ap (λ t. some (t ++ [], 1, args)) (putnumber-sized w)
