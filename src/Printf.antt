-- ===== src/Printf.antt =====
-- kernel/src/libc/stdio/printf.c, the formatting: which characters a call hands to `putchar`, in
-- order, and what it returns. A format is the list of its characters without the NUL. `none` is
-- behaviour that C leaves undefined: an argument that is missing or of another kind, or a format
-- that is read behind its NUL.
pub mod Laws
pub mod Numbers
mod Examples
use Prim.Native.Char.{code}
use Prim.Native.String.{String}
use deer.Base.{
  ℕ, zero, suc, ◌+◌, ◌-◌, ◌*◌, ◌/◌, ◌%◌, ◌^◌, Bool, true, false, ◌&&◌, ◌||◌, Option, none, some,
  List, [], ◌∷◌, ◌++◌, leb, ◌==◌, if◌then◌else◌, u8, u32, u64,
}
use deer.Memory.{Bytes}
use deer.Itoa.{itoa}

abbrev pub Text : Type 0
Text = List ℕ

-- The characters of a literal, all of them ASCII.
unfoldable pub chars : String → Text
chars String.[] = []
chars (String.◌∷◌ c s) = code c ∷ chars s

-- An argument: a register of 64 bits, or a pointer to text, `none` for NULL.
pub data Arg : Type 0 where
  word : ℕ → Arg
  text : Option Text → Arg

-- The characters before the NUL, at most `fuel`.
unfoldable pub read_text : (fuel p : ℕ) → Bytes → Text
read_text zero p m = []
read_text (suc fuel) p m =
    let rest = read_text fuel (p + 1) m in if m p == 0 then [] else m p ∷ rest

-- What `itoa` writes into the buffer of 65 bytes.
unfoldable pub number_text : (num base : ℕ) → Text
unfolding read_text
number_text num base = elim (itoa num 0 base (λ _. 0)) [ none ↦ [] | some m ↦ read_text 65 0 m ]

unfoldable pub putnumber : (num base : ℕ) (is_signed : Bool) → Text
unfolding number_text
putnumber num base is_signed =
    if is_signed && leb (2 ^ 63) num
    then b'-' ∷ number_text (u64 (2 ^ 64 - num)) base
    else number_text num base

-- Characters, what they add to `chars_written`, and the arguments that are left.
abbrev pub Printed : Type 0
Printed = Option (Text × ℕ × List Arg)

unfoldable pub with_word : List Arg → (ℕ → Text) → Printed
with_word (word w ∷ args) f = some (f w, 1, args)
with_word (text t ∷ args) f = none
with_word [] f = none

abbrev pub text_or_null : Option Text → Text
text_or_null t = elim t [ none ↦ chars "(null)" | some s ↦ s ]

unfoldable pub with_text : List Arg → Printed
with_text (text t ∷ args) = some (text_or_null t, 1, args)
with_text (word w ∷ args) = none
with_text [] = none

-- `is_long ? num : (uint32_t)num`
abbrev pub sized : (is_long : Bool) → ℕ → ℕ
sized is_long w = if is_long then w else u32 w

-- A number behind the prefix that `is_alt` asks for.
abbrev pub based : (is_long is_alt : Bool) (prefix : Text) (base : ℕ) → List Arg → Printed
based is_long is_alt prefix base args =
    with_word args (λ w. (if is_alt then prefix else []) ++ putnumber (sized is_long w) base false)

-- `switch (*format)` behind the flags.
unfoldable pub convert : (is_long is_alt : Bool) (c : ℕ) → List Arg → Printed
unfolding putnumber with_word with_text chars
convert is_long is_alt c args =
    if c == b'd' || c == b'i'
    then with_word args (λ w. putnumber (sized is_long w) 10 true)
    else (if c == b'u'
        then with_word args (λ w. putnumber (sized is_long w) 10 false)
        else (if c == b'x'
            then based is_long is_alt (chars "0x") 16 args
            else (if c == b'o'
                then based is_long is_alt (chars "0") 8 args
                else (if c == b'p'
                    then with_word args (λ w. chars "0x" ++ putnumber w 16 false)
                    else (if c == b'c'
                        then with_word args (λ w. u8 w ∷ [])
                        else (if c == b's'
                            then with_text args
                            else (if c == b'%'
                                then some (b'%' ∷ [], 1, args)
                                else some (b'%' ∷ c ∷ [], 2, args))))))))

-- Where the scan of the format stands: between conversions, or behind a `%` and its flags so far.
pub data Mode : Type 0 where
  plain : Mode
  flags : (is_long is_alt : Bool) → Mode

-- The mode after a conversion.
unfoldable pub converted : Printed → Option (Mode × Text × ℕ × List Arg)
converted none = none
converted (some (out, n, args)) = some (plain, out, n, args)

-- One character of the format: the next mode, and what it prints.
unfoldable pub step : Mode → (c : ℕ) → List Arg → Option (Mode × Text × ℕ × List Arg)
unfolding convert converted
step plain c args =
    if c == b'%' then some (flags false false, [], 0, args) else some (plain, c ∷ [], 1, args)
step (flags is_long is_alt) c args =
    if c == b'l'
    then some (flags true is_alt, [], 0, args)
    else (if c == b'#'
        then some (flags is_long true, [], 0, args)
        else converted (convert is_long is_alt c args))

unfoldable pub prepend : Text → ℕ → Printed → Printed
prepend out n none = none
prepend out n (some (rest, k, args)) = some (out ++ rest, n + k, args)

-- A step, and then what comes `after`.
unfoldable pub go_on :
    (after : Mode → List Arg → Printed) → Option (Mode × Text × ℕ × List Arg) → Printed
unfolding prepend
go_on after none = none
go_on after (some (mode, out, n, args)) = prepend out n (after mode args)

-- `while (*format)`. A format that ends behind a `%` and its flags is read behind its NUL.
unfoldable pub run : Text → Mode → List Arg → Printed
unfolding step go_on
run [] plain args = some ([], 0, args)
run [] (flags is_long is_alt) args = none
run (c ∷ format) mode args = go_on (run format) (step mode c args)

unfoldable pub printf : Text → List Arg → Printed
unfolding run
printf format args = run format plain args

-- `printf("%s\n", str)`
pub puts : Option Text → Printed
unfolding printf
puts str = printf (chars "%s\n") (text str ∷ [])

-- `itoa` and `printf("%s", buffer)`
pub printf_uint64 : ℕ → Printed
unfolding printf
printf_uint64 value = printf (chars "%s") (text (some (number_text value 10)) ∷ [])
