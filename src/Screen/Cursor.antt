-- ===== src/Screen/Cursor.antt =====
-- Where the cursor of kernel/src/libc/stdio/printf.c can stand.
use mathlib.Core.Path.{subst}
use deer.Base.{
  ℕ, ◌+◌, ◌-◌, ◌*◌, ◌/◌, ◌%◌, ◌^◌, ◌<◌, ◌≡◌, ◌⊎◌, refl, sym, ap, ◌∙◌, arith, Bool, true, false, inl,
  inr, Bool-cases, leb, ltb, ltb→lt, ◌==◌, if◌then◌else◌, u32, [], ◌∷◌, bit_and, Option, some,
}
use deer.Bits.{and-high, and-ones}
use deer.Memory.{Bytes}
use deer.Framebuffer.{Fb, fb_fill_rect}
use deer.Printf.{Text}
use deer.Screen.{
  Screen, scroll_screen, line_feed, carriage_return, tabulate, backspace, wrap_line, make_room,
  draw_here, show, putchar, putstring, transmit,
}
use deer.Screen.Bounds.{putchar-ready, putchar-Keeps, Keeps, putstring-Keeps}

-- A multiple of the width of a character, as a tab leaves it, or that many characters behind the
-- margin of 5.
pub record IsColumn (x : ℕ) : Type 0 where
  pub small : x < 2 ^ 32
  pub place : (x % 8 ≡ 0) ⊎ (x % 8 ≡ 5)

pub margin-IsColumn : IsColumn 5
margin-IsColumn = record { small = omega arith; place = inr refl }

-- A step to the right, which may wrap at 2 ^ 32, and a step to the left.
right-IsColumn : (x : ℕ) → IsColumn x → IsColumn (u32 (x + 8))
right-IsColumn x h = record { small = omega arith; place = ground (arith, h.place) }

left-IsColumn : (x : ℕ) → 5 < x → IsColumn x → IsColumn (u32 (x + 2 ^ 32 - 8))
left-IsColumn x far h = record { small = omega arith; place = ground (arith, h.place, h.small) }

left_exact : (x : ℕ) → 5 < x → IsColumn x → u32 (x + 2 ^ 32 - 8) + 8 ≡ x
left_exact x far h = ground (arith, h.place, h.small)

tab-IsColumn : (x : ℕ) → IsColumn (bit_and x (2 ^ 32 - 32))
tab-IsColumn x =
    subst IsColumn (sym (and-high 5 x (2 ^ 27 - 1) ∙ ap (λ t. t * 32) (and-ones 27 (x / 32))))
      record { small = omega arith; place = inl (omega arith) }

if-IsColumn :
    (b : Bool) (t u : Screen)
    → IsColumn t.cursor_x
    → IsColumn u.cursor_x
    → IsColumn (Screen.cursor_x (if b then t else u))
if-IsColumn true t u h k = h
if-IsColumn false t u h k = k

-- The same, where each way may use the outcome of the test.
if_far :
    (b : Bool) (t u : Screen)
    → (b ≡ true → IsColumn t.cursor_x)
    → (b ≡ false → IsColumn u.cursor_x)
    → IsColumn (Screen.cursor_x (if b then t else u))
if_far true t u h k = h refl
if_far false t u h k = k refl

wrap_line-IsColumn :
    (fb : Fb) (s : Screen) → IsColumn s.cursor_x → IsColumn (wrap_line fb s).cursor_x
unfolding wrap_line line_feed
wrap_line-IsColumn fb s h =
    if-IsColumn (leb fb.width (u32 (s.cursor_x + 8))) (line_feed s) s margin-IsColumn h

make_room-IsColumn :
    (fb : Fb) (s : Screen) → IsColumn s.cursor_x → IsColumn (make_room fb s).cursor_x
unfolding make_room scroll_screen
make_room-IsColumn fb s h =
    if-IsColumn (leb fb.height (u32 (s.cursor_y + 16))) (scroll_screen fb s) s h h

backspace-IsColumn :
    (fb : Fb) (s : Screen) → IsColumn s.cursor_x → IsColumn (backspace fb s).cursor_x
unfolding backspace
backspace-IsColumn fb s h =
    if_far (ltb 5 s.cursor_x) _ s (λ e. left-IsColumn s.cursor_x (ltb→lt 5 s.cursor_x e) h) (λ e. h)

show-IsColumn :
    (font : Bytes) (fb : Fb) (c : ℕ) (s : Screen)
    → IsColumn s.cursor_x
    → IsColumn (show font fb c s).cursor_x
unfolding show draw_here line_feed carriage_return tabulate
show-IsColumn font fb c s h = if-IsColumn (c == 10) _ _ margin-IsColumn (
    if-IsColumn (c == 13) _ _ margin-IsColumn (
      if-IsColumn (c == 9) _ _ (tab-IsColumn (u32 (s.cursor_x + 32))) (
        if-IsColumn (c == 8) _ _ (backspace-IsColumn fb s h) (
          right-IsColumn (make_room fb (wrap_line fb s)).cursor_x
            (make_room-IsColumn fb (wrap_line fb s) (wrap_line-IsColumn fb s h))))))

backspace-steps :
    (fb : Fb) (s : Screen)
    → IsColumn s.cursor_x
    → ((backspace fb s).cursor_x ≡ s.cursor_x) ⊎ ((backspace fb s).cursor_x + 8 ≡ s.cursor_x)
unfolding backspace
backspace-steps fb s h = elim (Bool-cases (ltb 5 s.cursor_x)) [
  | inl far ↦ inr (
      ap (λ (b : Bool). Screen.cursor_x (if b then moved else s) + 8) far
      ∙ left_exact s.cursor_x (ltb→lt 5 s.cursor_x far) h)
  | inr near ↦ inl (ap (λ (b : Bool). Screen.cursor_x (if b then moved else s)) near)
]
  where
    moved : Screen
    moved = record s {
      cursor_x = u32 (s.cursor_x + 2 ^ 32 - 8);
      pixels = fb_fill_rect fb (u32 (s.cursor_x + 2 ^ 32 - 8)) s.cursor_y 8 16 s.bg_color s.pixels;
    }

module _ (font : Bytes) (boot_fb : Option Fb) (fb : Fb) where
  -- Once a framebuffer is set and the cursor is in a column, output of any text leaves it in one.
  pub putstring-IsColumn :
      (str : Text) (s : Screen)
      → s.printf_initialized ≡ true
      → s.current_fb ≡ some fb
      → IsColumn s.cursor_x
      → IsColumn (putstring font boot_fb str s).cursor_x
  unfolding putstring transmit
  putstring-IsColumn [] s ready there h = h
  putstring-IsColumn (c ∷ str) s ready there h =
      putstring-IsColumn str (putchar font boot_fb c s) (first.printf_initialized ∙ ready)
        (first.current_fb ∙ there)
        (subst (λ (t : Screen). IsColumn t.cursor_x)
          (sym (putchar-ready font boot_fb fb c s ready there))
          (show-IsColumn font fb c (transmit c s) h))
    where
      first : Keeps fb s (putchar font boot_fb c s)
      first = putchar-Keeps font boot_fb fb c s ready there

  -- Once a framebuffer is set and the cursor is in a column, a backspace after any text moves it
  -- by 8 to the left or not at all: it never wraps below 0, whatever line feeds, tabs, backspaces
  -- and wrapped lines came before it.
  pub putstring-backspace :
      (str : Text) (s : Screen)
      → s.printf_initialized ≡ true
      → s.current_fb ≡ some fb
      → IsColumn s.cursor_x
      → let t = putstring font boot_fb str s in
        ((putchar font boot_fb 8 t).cursor_x ≡ t.cursor_x)
        ⊎ ((putchar font boot_fb 8 t).cursor_x + 8 ≡ t.cursor_x)
  unfolding show transmit
  putstring-backspace str s ready there h =
      subst (λ (u : Screen). (u.cursor_x ≡ t.cursor_x) ⊎ (u.cursor_x + 8 ≡ t.cursor_x))
        (sym (
          putchar-ready font boot_fb fb 8 t (whole.printf_initialized ∙ ready)
            (whole.current_fb ∙ there)))
        (backspace-steps fb (transmit 8 t) (putstring-IsColumn str s ready there h))
    where
      t : Screen
      t = putstring font boot_fb str s

      whole : Keeps fb s t
      whole = putstring-Keeps font boot_fb fb str s ready there
