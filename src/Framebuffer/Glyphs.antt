-- ===== src/Framebuffer/Glyphs.antt =====
-- kernel/src/graphics/fb.c: characters and text. The font is a file that the build links in: `font`
-- is the byte at each offset of it.
pub mod Bounds
use deer.Base.{
  ℕ, zero, suc, ◌+◌, ◌-◌, ◌*◌, ◌/◌, ◌%◌, ◌^◌, ◌&&◌, ◌||◌, leb, ltb, ◌==◌, if◌then◌else◌, u32, u8,
  bit_and, List, [], ◌∷◌, Bool,
}
use deer.Memory.{Bytes}
use deer.Framebuffer.{Fb, Pixels, fb_draw_pixel}

-- 2 and 1 are the versions of the format, and 0 is no font.
pub psf_validate : (font : Bytes) → ℕ
psf_validate font =
    if font 0 == 0x72 && font 1 == 0xb5 && font 2 == 0x4a && font 3 == 0x86
    then 2
    else (if font 0 == 0x36 && font 1 == 0x04 then 1 else 0)

-- `*(uint32_t*)(raw + 20)`
pub char_size : (font : Bytes) → ℕ
char_size font = font 20 + font 21 * 2 ^ 8 + font 22 * 2 ^ 16 + font 23 * 2 ^ 24

-- A character that the font has no glyph for is drawn as `?`.
pub glyph_index : (c : ℕ) → ℕ
glyph_index c =
    let index = if ltb (u8 c) 128 then u8 c else b'?' in if leb 512 index then b'?' else index

-- `for (col = 0; col < 8; col++)`, at column `col` with `left` rounds to go.
pub draw_columns : Fb → (byte x py color left col : ℕ) → Pixels → Pixels
draw_columns fb byte x py color zero col m = m
draw_columns fb byte x py color (suc left) col m =
    draw_columns fb byte x py color left (col + 1) (
      if bit_and byte (0x80 / 2 ^ col) == 0 then m else fb_draw_pixel fb (u32 (x + col)) py color m)

-- `for (row = 0; row < 16; row++)`, where the glyph starts at `glyph` in the font.
pub draw_rows : (font : Bytes) → Fb → (glyph x y color left row : ℕ) → Pixels → Pixels
unfolding draw_columns
draw_rows font fb glyph x y color zero row m = m
draw_rows font fb glyph x y color (suc left) row m =
    draw_rows font fb glyph x y color left (row + 1)
      (draw_columns fb (font (glyph + row)) x (u32 (y + row)) color 8 0 m)

-- The glyphs start behind a header of 32 bytes.
pub fb_draw_char : (font : Bytes) → Fb → (c x y color : ℕ) → Pixels → Pixels
unfolding draw_rows char_size glyph_index
fb_draw_char font fb c x y color m =
    draw_rows font fb (32 + u32 (glyph_index c * char_size font)) x y color 16 0 m

-- `while (*str)`, where a line starts at `orig_x`.
pub draw_text : (font : Bytes) → Fb → (str : List ℕ) (orig_x x y color : ℕ) → Pixels → Pixels
unfolding fb_draw_char
draw_text font fb [] orig_x x y color m = m
draw_text font fb (c ∷ str) orig_x x y color m =
    if c == 10
    then draw_text font fb str orig_x orig_x (u32 (y + 16)) color m
    else draw_text font fb str orig_x (u32 (x + 8)) y color (fb_draw_char font fb c x y color m)

pub fb_draw_string : (font : Bytes) → Fb → (str : List ℕ) (x y color : ℕ) → Pixels → Pixels
unfolding psf_validate draw_text
fb_draw_string font fb str x y color m =
    if psf_validate font == 0 then m else draw_text font fb str x x y color m
