-- ===== src/Printf/Examples.antt =====
-- Formats at concrete arguments.
use deer.Base.{arith, ◌-◌, ◌^◌, ◌≡◌, refl, none, some, [], ◌∷◌, ◌++◌}
use deer.Itoa.{itoa, digits_loop, digit_char, finish, swap_loop}
use deer.Printf.{
  Text, word, text, printf, run, go_on, step, convert, converted, with_word, with_text, putnumber,
  number_text, read_text, chars, prepend, puts, printf_uint64,
}
use deer.Printf.Numbers.{value_of, printf-value_of}

page :
    printf (chars "at %#lx: %s") (word 0x1F40 ∷ text none ∷ [])
    ≡ some (chars "at 0x1f40: (null)", 7, [])
unfolding printf run go_on step convert converted with_word with_text putnumber number_text
    read_text chars prepend itoa digits_loop digit_char finish swap_loop
page = refl

negative_long : printf (chars "%ld") (word (2 ^ 64 - 7) ∷ []) ≡ some (chars "-7", 1, [])
unfolding printf run go_on step convert converted with_word with_text putnumber number_text
    read_text chars prepend itoa digits_loop digit_char finish swap_loop
negative_long = refl

negative : printf (chars "%d") (word (2 ^ 32 - 7) ∷ []) ≡ some (chars "4294967289", 1, [])
unfolding printf run go_on step convert converted with_word with_text putnumber number_text
    read_text chars prepend itoa digits_loop digit_char finish swap_loop
negative = refl

unfinished : printf (chars "100%") [] ≡ none
unfolding printf run go_on step chars prepend
unfinished = refl

line : puts (some (chars "ok")) ≡ some (chars "ok" ++ (10 ∷ []), 2, [])
unfolding puts printf run go_on step convert converted with_text chars prepend
line = refl

largest : printf_uint64 (2 ^ 64 - 1) ≡ some (chars "18446744073709551615", 1, [])
unfolding printf_uint64 printf run go_on step convert converted with_text number_text read_text
    chars prepend itoa digits_loop digit_char finish swap_loop
largest = refl

printf-value_of_example :
    (d x o s n : Text) × (printf (chars "%lu") (word (2 ^ 64 - 7) ∷ []) ≡ some (d, 1, []))
    × (value_of 10 0 d ≡ 2 ^ 64 - 7)
    × (printf (chars "%#lx") (word (2 ^ 64 - 7) ∷ []) ≡ some (b'0' ∷ b'x' ∷ x, 1, []))
    × (value_of 16 0 x ≡ 2 ^ 64 - 7)
    × (printf (chars "%#lo") (word (2 ^ 64 - 7) ∷ []) ≡ some (b'0' ∷ o, 1, []))
    × (value_of 8 0 o ≡ 2 ^ 64 - 7)
    × (printf (chars "%ld") (word (2 ^ 64 - 7) ∷ []) ≡ some (b'-' ∷ s, 1, []))
    × (value_of 10 0 s ≡ 7)
    × (printf (chars "%u") (word (2 ^ 64 - 7) ∷ []) ≡ some (n, 1, []))
    × (value_of 10 0 n ≡ 2 ^ 32 - 7)
printf-value_of_example = printf-value_of (2 ^ 64 - 7) [] (omega arith)
