-- ===== src/Screen/Bounds.antt =====
-- Which words of the picture's memory the output of kernel/src/libc/stdio/printf.c can change.
use mathlib.Core.Path.{subst}
use deer.Base.{
  ℕ, zero, suc, ◌+◌, ◌-◌, ◌^◌, ◌<◌, ◌≤◌, ◌≡◌, refl, sym, ap, ◌∙◌, arith, Bool, true, false, inl,
  inr, Bool-cases, leb, ltb, ◌==◌, if◌then◌else◌, u32, [], ◌∷◌, update, update_other, Option, some,
}
use deer.Memory.{Bytes}
use deer.Framebuffer.{Fb, Pixels, fb_draw_pixel, pixel_index}
use deer.Framebuffer.Bounds.{Outside, draw_pixel-Outside, fill_rect-Outside}
use deer.Framebuffer.Glyphs.Bounds.{draw_char-Outside}
use deer.Printf.{Text}
use deer.Screen.{
  Screen, copy_row, copy_rows, blank_row, blank_rows, scrolled, scroll_screen, line_feed,
  carriage_return, tabulate, backspace, wrap_line, make_room, draw_here, show, with_fb,
  printf_auto_init, putchar, putstring, transmit, first_call,
}

copy_row-Outside :
    (fb : Fb) (y left x a : ℕ) (m : Pixels)
    → 16 ≤ y
    → y < fb.height
    → x + left ≤ fb.width
    → Outside fb a
    → copy_row fb y left x m a ≡ m a
unfolding copy_row pixel_index
copy_row-Outside fb y zero x a m low high fits out = refl
copy_row-Outside fb y (suc left) x a m low high fits out =
    copy_row-Outside fb y left (x + 1) a
      (update m (pixel_index fb x (y - 16)) (m (pixel_index fb x y))) low high (omega arith) out
    ∙ update_other m (pixel_index fb x (y - 16)) a (m (pixel_index fb x y))
        (out x (y - 16) (omega arith) (omega arith))

copy_rows-Outside :
    (fb : Fb) (left y a : ℕ) (m : Pixels)
    → 16 ≤ y
    → y + left ≤ fb.height
    → Outside fb a
    → copy_rows fb left y m a ≡ m a
unfolding copy_rows
copy_rows-Outside fb zero y a m low fits out = refl
copy_rows-Outside fb (suc left) y a m low fits out =
    copy_rows-Outside fb left (y + 1) a (copy_row fb y (u32 fb.width) 0 m) (omega arith)
      (omega arith) out
    ∙ copy_row-Outside fb y (u32 fb.width) 0 a m low (omega arith) (omega arith) out

blank_row-Outside :
    (fb : Fb) (y color left x a : ℕ) (m : Pixels)
    → Outside fb a
    → blank_row fb y color left x m a ≡ m a
unfolding blank_row
blank_row-Outside fb y color zero x a m out = refl
blank_row-Outside fb y color (suc left) x a m out =
    blank_row-Outside fb y color left (x + 1) a (fb_draw_pixel fb x y color m) out
    ∙ draw_pixel-Outside fb x y color a m out

blank_rows-Outside :
    (fb : Fb) (color left y a : ℕ) (m : Pixels)
    → Outside fb a
    → blank_rows fb color left y m a ≡ m a
unfolding blank_rows
blank_rows-Outside fb color zero y a m out = refl
blank_rows-Outside fb color (suc left) y a m out =
    blank_rows-Outside fb color left (y + 1) a (blank_row fb y color (u32 fb.width) 0 m) out
    ∙ blank_row-Outside fb y color (u32 fb.width) 0 a m out

copy_rows-none : (fb : Fb) (a : ℕ) (m : Pixels) → copy_rows fb 0 16 m a ≡ m a
unfolding copy_rows
copy_rows-none fb a m = refl

-- A picture of fewer than 16 rows has none to copy.
scrolled-Outside : (fb : Fb) (color a : ℕ) (m : Pixels) → Outside fb a → scrolled fb color m a ≡ m a
unfolding scrolled
scrolled-Outside fb color a m out =
    blank_rows-Outside fb color (height - start) start a (copy_rows fb (height - 16) 16 m) out
    ∙ elim (Bool-cases (leb 16 height)) [
      | inl tall ↦ copy_rows-Outside fb (height - 16) 16 a m (omega arith) (ground arith) out
      | inr short ↦
          ap (λ n. copy_rows fb n 16 m a) {x = height - 16} {y = 0} (ground arith)
          ∙ copy_rows-none fb a m
    ]
  where
    height : ℕ
    height = u32 fb.height

    start : ℕ
    start = u32 (height + 2 ^ 32 - 16)

-- The same framebuffer is in use, and the words that are not of its pixels are as they were.
pub record Keeps (fb : Fb) (s s' : Screen) : Type 0 where
  pub current_fb : s'.current_fb ≡ s.current_fb
  pub printf_initialized : s'.printf_initialized ≡ s.printf_initialized
  pub outside : (a : ℕ) → Outside fb a → s'.pixels a ≡ s.pixels a

keeps : (fb : Fb) (s : Screen) → Keeps fb s s
keeps fb s = record { current_fb = refl; printf_initialized = refl; outside = λ a out. refl }

Keeps-trans : (fb : Fb) (s t u : Screen) → Keeps fb s t → Keeps fb t u → Keeps fb s u
Keeps-trans fb s t u h k = record {
  current_fb = k.current_fb ∙ h.current_fb;
  printf_initialized = k.printf_initialized ∙ h.printf_initialized;
  outside = λ a out. k.outside a out ∙ h.outside a out;
}

Keeps-if :
    (fb : Fb) (s t u : Screen) (b : Bool)
    → Keeps fb s t
    → Keeps fb s u
    → Keeps fb s (if b then t else u)
Keeps-if fb s t u true h k = h
Keeps-if fb s t u false h k = k

backspace-Keeps : (fb : Fb) (s : Screen) → Keeps fb s (backspace fb s)
unfolding backspace
backspace-Keeps fb s =
    Keeps-if fb s _ s (ltb 5 s.cursor_x)
      record {
        current_fb = refl;
        printf_initialized = refl;
        outside = λ a out.
            fill_rect-Outside fb (u32 (s.cursor_x + 2 ^ 32 - 8)) s.cursor_y 8 16 s.bg_color a
              s.pixels out;
      }
      (keeps fb s)

draw_here-Keeps : (font : Bytes) (fb : Fb) (c : ℕ) (s : Screen) → Keeps fb s (draw_here font fb c s)
unfolding draw_here
draw_here-Keeps font fb c s = record {
  current_fb = refl;
  printf_initialized = refl;
  outside = λ a out. draw_char-Outside font fb c s.cursor_x s.cursor_y s.text_color a s.pixels out;
}

wrap_line-Keeps : (fb : Fb) (s : Screen) → Keeps fb s (wrap_line fb s)
unfolding wrap_line line_feed
wrap_line-Keeps fb s =
    Keeps-if fb s _ s (leb fb.width (u32 (s.cursor_x + 8)))
      record { current_fb = refl; printf_initialized = refl; outside = λ a out. refl } (keeps fb s)

make_room-Keeps : (fb : Fb) (s : Screen) → Keeps fb s (make_room fb s)
unfolding make_room scroll_screen
make_room-Keeps fb s =
    Keeps-if fb s _ s (leb fb.height (u32 (s.cursor_y + 16)))
      record {
        current_fb = refl;
        printf_initialized = refl;
        outside = λ a out. scrolled-Outside fb s.bg_color a s.pixels out;
      }
      (keeps fb s)

show-Keeps : (font : Bytes) (fb : Fb) (c : ℕ) (s : Screen) → Keeps fb s (show font fb c s)
unfolding show line_feed carriage_return tabulate
show-Keeps font fb c s = Keeps-if fb s _ _ (c == 10) same (
    Keeps-if fb s _ _ (c == 13) same (
      Keeps-if fb s _ _ (c == 9) same (
        Keeps-if fb s _ _ (c == 8) (backspace-Keeps fb s) (
          Keeps-trans fb s (make_room fb (wrap_line fb s)) _
            (Keeps-trans fb s (wrap_line fb s) _ (wrap_line-Keeps fb s)
              (make_room-Keeps fb (wrap_line fb s)))
            (draw_here-Keeps font fb c (make_room fb (wrap_line fb s)))))))
  where
    same : {x y : ℕ} → Keeps fb s (record s { cursor_x = x; cursor_y = y })
    same = record { current_fb = refl; printf_initialized = refl; outside = λ a out. refl }

transmit-Keeps : (fb : Fb) (c : ℕ) (s : Screen) → Keeps fb s (transmit c s)
unfolding transmit
transmit-Keeps fb c s = record {
  current_fb = refl;
  printf_initialized = refl;
  outside = λ a out. refl;
}

module _ (font : Bytes) (boot_fb : Option Fb) (fb : Fb) where
  -- Once a framebuffer is set, `putchar` shows the character in it.
  pub putchar-ready :
      (c : ℕ) (s : Screen)
      → s.printf_initialized ≡ true
      → s.current_fb ≡ some fb
      → putchar font boot_fb c s ≡ show font fb c (transmit c s)
  unfolding putchar printf_auto_init with_fb
  putchar-ready c s ready there =
      ap (λ (t : Screen). with_fb (λ fb' u. show font fb' c u) t.current_fb (transmit c t))
        (ap (λ (b : Bool). if b then s else first_call font boot_fb s) ready)
      ∙ ap (λ o. with_fb (λ fb' u. show font fb' c u) o (transmit c s)) there

  pub putchar-Keeps :
      (c : ℕ) (s : Screen)
      → s.printf_initialized ≡ true
      → s.current_fb ≡ some fb
      → Keeps fb s (putchar font boot_fb c s)
  putchar-Keeps c s ready there = subst (Keeps fb s) (sym (putchar-ready c s ready there)) (
      Keeps-trans fb s (transmit c s) _ (transmit-Keeps fb c s)
        (show-Keeps font fb c (transmit c s)))

  -- Once a framebuffer is set, output of any text, whatever it holds, keeps that framebuffer and
  -- changes no word but those of pixels inside the picture, scrolling included.
  pub putstring-Keeps :
      (str : Text) (s : Screen)
      → s.printf_initialized ≡ true
      → s.current_fb ≡ some fb
      → Keeps fb s (putstring font boot_fb str s)
  unfolding putstring
  putstring-Keeps [] s ready there = keeps fb s
  putstring-Keeps (c ∷ str) s ready there = Keeps-trans fb s (putchar font boot_fb c s) _ first (
      putstring-Keeps str (putchar font boot_fb c s) (first.printf_initialized ∙ ready)
        (first.current_fb ∙ there))
    where
      first : Keeps fb s (putchar font boot_fb c s)
      first = putchar-Keeps c s ready there
