-- ===== src/Framebuffer/Glyphs/Bounds.antt =====
-- Which words the drawing of text in kernel/src/graphics/fb.c can change.
use deer.Base.{
  ℕ, zero, suc, ◌+◌, ◌*◌, ◌/◌, ◌^◌, ◌≡◌, refl, ◌∙◌, Bool, true, false, ◌==◌, if◌then◌else◌, u32,
  bit_and, List, [], ◌∷◌,
}
use deer.Memory.{Bytes}
use deer.Framebuffer.{Fb, Pixels, fb_draw_pixel}
use deer.Framebuffer.Bounds.{Outside, draw_pixel-Outside}
use deer.Framebuffer.Glyphs.{
  glyph_index, char_size, draw_columns, draw_rows, fb_draw_char, draw_text, fb_draw_string,
  psf_validate,
}

-- Either way of a test.
if_word : (b : Bool) (m n : Pixels) (a v : ℕ) → m a ≡ v → n a ≡ v → (if b then m else n) a ≡ v
if_word true m n a v p q = p
if_word false m n a v p q = q

draw_columns-Outside :
    (fb : Fb) (byte x py color left col a : ℕ) (m : Pixels)
    → Outside fb a
    → draw_columns fb byte x py color left col m a ≡ m a
unfolding draw_columns
draw_columns-Outside fb byte x py color zero col a m out = refl
draw_columns-Outside fb byte x py color (suc left) col a m out =
    draw_columns-Outside fb byte x py color left (col + 1) a
      (if bit_and byte (0x80 / 2 ^ col) == 0
        then m
        else fb_draw_pixel fb (u32 (x + col)) py color m)
      out
    ∙ if_word (bit_and byte (0x80 / 2 ^ col) == 0) m (fb_draw_pixel fb (u32 (x + col)) py color m) a
        (m a) refl (draw_pixel-Outside fb (u32 (x + col)) py color a m out)

draw_rows-Outside :
    (font : Bytes) (fb : Fb) (glyph x y color left row a : ℕ) (m : Pixels)
    → Outside fb a
    → draw_rows font fb glyph x y color left row m a ≡ m a
unfolding draw_rows
draw_rows-Outside font fb glyph x y color zero row a m out = refl
draw_rows-Outside font fb glyph x y color (suc left) row a m out =
    draw_rows-Outside font fb glyph x y color left (row + 1) a
      (draw_columns fb (font (glyph + row)) x (u32 (y + row)) color 8 0 m) out
    ∙ draw_columns-Outside fb (font (glyph + row)) x (u32 (y + row)) color 8 0 a m out

pub draw_char-Outside :
    (font : Bytes) (fb : Fb) (c x y color a : ℕ) (m : Pixels)
    → Outside fb a
    → fb_draw_char font fb c x y color m a ≡ m a
unfolding fb_draw_char
draw_char-Outside font fb c x y color a m out =
    draw_rows-Outside font fb (32 + u32 (glyph_index c * char_size font)) x y color 16 0 a m out

draw_text-Outside :
    (font : Bytes) (fb : Fb) (str : List ℕ) (orig_x x y color a : ℕ) (m : Pixels)
    → Outside fb a
    → draw_text font fb str orig_x x y color m a ≡ m a
unfolding draw_text
draw_text-Outside font fb [] orig_x x y color a m out = refl
draw_text-Outside font fb (c ∷ str) orig_x x y color a m out =
    if_word (c == 10) (draw_text font fb str orig_x orig_x (u32 (y + 16)) color m)
      (draw_text font fb str orig_x (u32 (x + 8)) y color (fb_draw_char font fb c x y color m)) a
      (m a) (draw_text-Outside font fb str orig_x orig_x (u32 (y + 16)) color a m out)
      (draw_text-Outside font fb str orig_x (u32 (x + 8)) y color a
          (fb_draw_char font fb c x y color m) out
        ∙ draw_char-Outside font fb c x y color a m out)

-- Whatever the font, the text and where it starts, it changes no word but those of pixels inside
-- the picture.
pub draw_string-Outside :
    (font : Bytes) (fb : Fb) (str : List ℕ) (x y color a : ℕ) (m : Pixels)
    → Outside fb a
    → fb_draw_string font fb str x y color m a ≡ m a
unfolding fb_draw_string
draw_string-Outside font fb str x y color a m out =
    if_word (psf_validate font == 0) m (draw_text font fb str x x y color m) a (m a) refl
      (draw_text-Outside font fb str x x y color a m out)
