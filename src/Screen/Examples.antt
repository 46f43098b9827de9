-- ===== src/Screen/Examples.antt =====
-- Output on a picture of 64 columns and 48 rows, with a font without a dot.
use deer.Base.{ℕ, ◌+◌, ◌≡◌, refl, true, [], ◌∷◌, ◌⊎◌, Option, none, some}
use deer.Memory.{Bytes}
use deer.Framebuffer.{Fb}
use deer.Trace.{outb}
use deer.Itoa.{itoa, digits_loop, digit_char, finish, swap_loop}
use deer.Printf.{
  word, printf, run, go_on, step, convert, converted, with_word, putnumber, number_text, read_text,
  chars, prepend,
}
use deer.Serial.{Serial, serial_init, send, serial_putc}
use deer.Screen.{
  Screen, screen_start, printf_set_cursor, printf_set_color, printf_set_bg_color, printf_get_cursor,
  printf_set_framebuffer, printf_init_with_framebuffer, printf_clear, putchar, putstring, printf_on,
  printf_auto_init, with_fb, show, transmit, scroll_screen, line_feed, tabulate, backspace,
  wrap_line, make_room, draw_here,
}
use deer.Screen.Bounds.{Keeps, putstring-Keeps}
use deer.Screen.Cursor.{margin-IsColumn, putstring-backspace}

abbrev picture : Fb
picture = record { width = 64; height = 48; pitch = 256 }

abbrev blank : Bytes
blank a = 0

abbrev port : Serial
port = record { is_initialized = true; trace = [] }

abbrev shown : Screen
shown = record (screen_start (λ a. 0) port) { current_fb = some picture; printf_initialized = true }

-- A line feed reaches the port behind two carriage returns.
returns :
    (putchar blank none 10 shown).serial.trace ≡ outb 0x3F8 10 ∷ outb 0x3F8 13 ∷ outb 0x3F8 13 ∷ []
unfolding putchar printf_auto_init with_fb show transmit serial_putc send serial_init line_feed
returns = refl

tabs : printf_get_cursor (putstring blank none (chars "a\t\u{8}") shown) ≡ (24, 5)
unfolding putstring printf_get_cursor chars putchar printf_auto_init with_fb show transmit line_feed
    tabulate backspace wrap_line make_room draw_here scroll_screen
tabs = refl

wraps : printf_get_cursor (putstring blank none (chars "abcdefgh") shown) ≡ (13, 21)
unfolding putstring printf_get_cursor chars putchar printf_auto_init with_fb show transmit line_feed
    tabulate backspace wrap_line make_room draw_here scroll_screen
wraps = refl

-- After five line feeds a character is placed below the picture: there is one scroll, not four.
sinks : printf_get_cursor (putstring blank none (chars "\n\n\n\n\na") shown) ≡ (13, 69)
unfolding putstring printf_get_cursor chars putchar printf_auto_init with_fb show transmit line_feed
    tabulate backspace wrap_line make_room draw_here scroll_screen
sinks = refl

clears : printf_get_cursor (printf_clear blank none (printf_set_cursor 20 30 shown)) ≡ (5, 5)
unfolding printf_clear printf_set_cursor printf_get_cursor printf_auto_init with_fb
clears = refl

colors : (printf_set_bg_color 7 (printf_set_color 9 shown)).text_color ≡ 9
unfolding printf_set_color printf_set_bg_color
colors = refl

by_hand :
    (printf_set_framebuffer picture 0x1000 (screen_start (λ a. 0) port)).current_fb ≡ some picture
unfolding printf_set_framebuffer
by_hand = refl

at_start :
    (printf_init_with_framebuffer picture (screen_start (λ a. 0) port)).printf_initialized ≡ true
unfolding printf_init_with_framebuffer
at_start = refl

-- What a call of `printf` returns, and where it leaves the cursor.
abbrev outcome : Option (ℕ × Screen) → Option (ℕ × ℕ × ℕ)
outcome o = elim o [ none ↦ none | some (n, s) ↦ some (n, s.cursor_x, s.cursor_y) ]

counts : outcome (printf_on blank none (chars "%x\n") (word 0xBEEF ∷ []) shown) ≡ some (2, 5, 21)
unfolding printf_on printf run go_on step convert converted with_word putnumber number_text
    read_text chars prepend itoa digits_loop digit_char finish swap_loop putstring putchar
    printf_auto_init with_fb show transmit line_feed tabulate backspace wrap_line make_room
    draw_here scroll_screen
counts = refl

putstring-Keeps_example :
    Keeps picture shown (putstring blank none (b'o' ∷ b'k' ∷ 8 ∷ 9 ∷ 10 ∷ []) shown)
putstring-Keeps_example =
    putstring-Keeps blank none picture (b'o' ∷ b'k' ∷ 8 ∷ 9 ∷ 10 ∷ []) shown refl refl

putstring-backspace_example :
    let t = putstring blank none (b'o' ∷ b'k' ∷ 9 ∷ []) shown in
    ((putchar blank none 8 t).cursor_x ≡ t.cursor_x)
    ⊎ ((putchar blank none 8 t).cursor_x + 8 ≡ t.cursor_x)
putstring-backspace_example =
    putstring-backspace blank none picture (b'o' ∷ b'k' ∷ 9 ∷ []) shown refl refl margin-IsColumn
