-- ===== src/Screen.antt =====
-- kernel/src/libc/stdio/printf.c, the output: the cursor, the colours and the framebuffer that the
-- file keeps, and what each character does to the picture and to the serial port. The font and the
-- bootloader's first framebuffer are parameters; without one, or without a response, it is `none`.
pub mod Cursor
pub mod Bounds
mod Examples
use Prim.Native.String.{String}
use deer.Base.{
  ℕ, zero, suc, ◌+◌, ◌-◌, ◌*◌, ◌/◌, ◌%◌, ◌^◌, ◌&&◌, ◌||◌, leb, ltb, ◌==◌, if◌then◌else◌, u32, u64,
  bit_and, List, [], ◌∷◌, ◌++◌, Bool, true, false, Option, none, some, update, map,
}
use deer.Memory.{Bytes}
use deer.Framebuffer.{Fb, Pixels, fb_draw_pixel, fb_fill_rect, fb_clear}
use deer.Framebuffer.Glyphs.{fb_draw_char}
use deer.Serial.{Serial, serial_putc, serial_puts}
use deer.Printf.{Arg, Text, Printed, chars, printf, number_text}

pub record Screen : Type 0 where
  pub current_fb : Option Fb
  pub cursor_x : ℕ
  pub cursor_y : ℕ
  pub text_color : ℕ
  pub bg_color : ℕ
  pub printf_initialized : Bool
  pub pixels : Pixels
  pub serial : Serial

-- The static variables before the first call.
abbrev pub screen_start : Pixels → Serial → Screen
screen_start pixels serial = record {
  current_fb = none;
  cursor_x = 5;
  cursor_y = 5;
  text_color = 0xFFFFFF;
  bg_color = 0;
  printf_initialized = false;
  pixels = pixels;
  serial = serial;
}

pub printf_set_cursor : (x y : ℕ) → Screen → Screen
printf_set_cursor x y s = record s { cursor_x = x; cursor_y = y }

pub printf_set_color : (color : ℕ) → Screen → Screen
printf_set_color color s = record s { text_color = color }

pub printf_set_bg_color : (color : ℕ) → Screen → Screen
printf_set_bg_color color s = record s { bg_color = color }

pub printf_get_cursor : Screen → ℕ × ℕ
printf_get_cursor s = (s.cursor_x, s.cursor_y)

-- `serial_puts` from this file; a line of the log ends with a line feed.
abbrev pub logged : Text → Screen → Screen
logged str s = record s { serial = serial_puts str s.serial }

-- The framebuffer is at the address `fb_address`.
pub printf_set_framebuffer : Fb → (fb_address : ℕ) → Screen → Screen
printf_set_framebuffer fb fb_address s =
    logged
      (chars "[PRINTF] Framebuffer set manually at 0x" ++ number_text fb_address 16 ++ chars "\n")
      (record s { current_fb = some fb; printf_initialized = true })

pub printf_init_with_framebuffer : Fb → Screen → Screen
printf_init_with_framebuffer fb s =
    logged (chars "[PRINTF] Initialized with framebuffer\n")
      (record s { current_fb = some fb; printf_initialized = true })

-- `for (x = 0; x < screen_width; x++)`: the pixels of row `y` go 16 rows up.
pub copy_row : Fb → (y left x : ℕ) → Pixels → Pixels
copy_row fb y zero x m = m
copy_row fb y (suc left) x m =
    let pitch = u32 (fb.pitch / 4) in
    copy_row fb y left (x + 1) (update m (u32 ((y - 16) * pitch + x)) (m (u32 (y * pitch + x))))

-- `for (y = scroll_height; y < screen_height; y++)`
pub copy_rows : Fb → (left y : ℕ) → Pixels → Pixels
unfolding copy_row
copy_rows fb zero y m = m
copy_rows fb (suc left) y m = copy_rows fb left (y + 1) (copy_row fb y (u32 fb.width) 0 m)

pub blank_row : Fb → (y color left x : ℕ) → Pixels → Pixels
blank_row fb y color zero x m = m
blank_row fb y color (suc left) x m =
    blank_row fb y color left (x + 1) (fb_draw_pixel fb x y color m)

pub blank_rows : Fb → (color left y : ℕ) → Pixels → Pixels
unfolding blank_row
blank_rows fb color zero y m = m
blank_rows fb color (suc left) y m =
    blank_rows fb color left (y + 1) (blank_row fb y color (u32 fb.width) 0 m)

-- The picture goes up by 16 rows, and `screen_height - 16`, where the blank rows start, wraps.
pub scrolled : Fb → (color : ℕ) → Pixels → Pixels
unfolding copy_rows blank_rows
scrolled fb color m =
    let height = u32 fb.height in
    let start = u32 (height + 2 ^ 32 - 16) in
    blank_rows fb color (height - start) start (copy_rows fb (height - 16) 16 m)

pub scroll_screen : Fb → Screen → Screen
unfolding scrolled
scroll_screen fb s = record s {
  pixels = scrolled fb s.bg_color s.pixels;
  cursor_y = u32 (s.cursor_y + 2 ^ 32 - 16);
}

pub line_feed : Screen → Screen
line_feed s = record s { cursor_x = 5; cursor_y = u32 (s.cursor_y + 16) }

pub carriage_return : Screen → Screen
carriage_return s = record s { cursor_x = 5 }

-- `& ~31` on 32 bits.
pub tabulate : Screen → Screen
tabulate s = record s { cursor_x = bit_and (u32 (s.cursor_x + 32)) (2 ^ 32 - 32) }

pub backspace : Fb → Screen → Screen
backspace fb s =
    let x = u32 (s.cursor_x + 2 ^ 32 - 8) in
    if ltb 5 s.cursor_x
    then record s { cursor_x = x; pixels = fb_fill_rect fb x s.cursor_y 8 16 s.bg_color s.pixels }
    else s

-- The tests of the cursor that come before a character is drawn.
pub wrap_line : Fb → Screen → Screen
unfolding line_feed
wrap_line fb s = if leb fb.width (u32 (s.cursor_x + 8)) then line_feed s else s

pub make_room : Fb → Screen → Screen
unfolding scroll_screen
make_room fb s = if leb fb.height (u32 (s.cursor_y + 16)) then scroll_screen fb s else s

pub draw_here : (font : Bytes) → Fb → (c : ℕ) → Screen → Screen
draw_here font fb c s = record s {
  pixels = fb_draw_char font fb c s.cursor_x s.cursor_y s.text_color s.pixels;
  cursor_x = u32 (s.cursor_x + 8);
}

-- `switch (c)`
pub show : (font : Bytes) → Fb → (c : ℕ) → Screen → Screen
unfolding line_feed carriage_return tabulate backspace wrap_line make_room draw_here
show font fb c s =
    if c == 10
    then line_feed s
    else (if c == 13
        then carriage_return s
        else (if c == 9
            then tabulate s
            else (if c == 8
                then backspace fb s
                else draw_here font fb c (make_room fb (wrap_line fb s)))))

-- `if (!current_fb) return;`
pub with_fb : (Fb → Screen → Screen) → Option Fb → Screen → Screen
with_fb f none s = s
with_fb f (some fb) s = f fb s

-- Before a line feed this file sends a `\r`, and the driver another.
pub transmit : (c : ℕ) → Screen → Screen
transmit c s = record s {
  serial = serial_putc c (if c == 10 then serial_putc 13 s.serial else s.serial);
}

module _ (font : Bytes) (boot_fb : Option Fb) where
  -- What the first call does, unless a framebuffer was set before it.
  pub first_call : Screen → Screen
  first_call s =
      record (elim boot_fb [
        | none ↦ logged (chars "[PRINTF] WARNING: No framebuffer available, using serial only\n") s
        | some fb ↦
            logged (chars "[PRINTF] Auto-initialized with framebuffer\n")
              (record s { current_fb = some fb })
      ]) { printf_initialized = true }

  pub printf_auto_init : Screen → Screen
  unfolding first_call
  printf_auto_init s = if s.printf_initialized then s else first_call s

  pub printf_clear : Screen → Screen
  unfolding printf_auto_init with_fb
  printf_clear s =
      let t = printf_auto_init s in
      with_fb
        (λ fb u. record u { pixels = fb_clear fb u.bg_color u.pixels; cursor_x = 5; cursor_y = 5 })
        t.current_fb t

  pub putchar : (c : ℕ) → Screen → Screen
  unfolding printf_auto_init with_fb show transmit
  putchar c s =
      let t = printf_auto_init s in with_fb (λ fb u. show font fb c u) t.current_fb (transmit c t)

  pub putstring : (str : Text) → Screen → Screen
  unfolding putchar
  putstring [] s = s
  putstring (c ∷ str) s = putstring str (putchar c s)

  -- `printf` as a whole: its result, and the screen behind the characters it prints.
  pub printf_on : (format : Text) (args : List Arg) → Screen → Option (ℕ × Screen)
  unfolding putstring printf_auto_init
  printf_on format args s = elim (printf format args) [
    | none ↦ none
    | some (out, n, rest) ↦ some (n, putstring out (printf_auto_init s))
  ]
