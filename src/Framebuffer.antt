-- ===== src/Framebuffer.antt =====
-- kernel/src/graphics/fb.c: pixels and rectangles in a framebuffer. The memory holds a word of 32
-- bits at each index from `fb->address` on; the fields of the framebuffer come from the bootloader.
pub mod Bounds
pub mod Glyphs
mod Examples
use deer.Base.{
  ℕ, zero, suc, ◌+◌, ◌-◌, ◌*◌, ◌/◌, ◌%◌, ◌^◌, ◌||◌, leb, ltb, if◌then◌else◌, u32, u64, update,
}

-- The fields of `struct limine_framebuffer` that the code reads.
pub record Fb : Type 0 where
  pub width : ℕ
  pub height : ℕ
  pub pitch : ℕ

abbrev pub Pixels : Type 0
Pixels = ℕ → ℕ

-- `fb_ptr[y * pitch + x]`, an index of 32 bits.
unfoldable pub pixel_index : Fb → (x y : ℕ) → ℕ
pixel_index fb x y = u32 (y * u32 (fb.pitch / 4) + x)

pub fb_draw_pixel : Fb → (x y color : ℕ) → Pixels → Pixels
unfolding pixel_index
fb_draw_pixel fb x y color m =
    if leb fb.width x || leb fb.height y then m else update m (pixel_index fb x y) color

-- `for (px = x; px < x + w; px++)`, at column `px` with `left` rounds to go.
pub fill_row : Fb → (py color left px : ℕ) → Pixels → Pixels
fill_row fb py color zero px m = m
fill_row fb py color (suc left) px m =
    fill_row fb py color left (px + 1) (fb_draw_pixel fb px py color m)

-- `for (py = y; py < y + h; py++)`
pub fill_rows : Fb → (x w color left py : ℕ) → Pixels → Pixels
unfolding fill_row
fill_rows fb x w color zero py m = m
fill_rows fb x w color (suc left) py m =
    fill_rows fb x w color left (py + 1) (fill_row fb py color (u32 (x + w) - x) x m)

-- The ends `x + w` and `y + h` wrap, and a loop whose end has wrapped does nothing.
pub fb_fill_rect : Fb → (x y w h color : ℕ) → Pixels → Pixels
unfolding fill_rows
fb_fill_rect fb x y w h color m = fill_rows fb x w color (u32 (y + h) - y) y m

pub clear_loop : (color left i : ℕ) → Pixels → Pixels
clear_loop color zero i m = m
clear_loop color (suc left) i m = clear_loop color left (i + 1) (update m i color)

-- `fb->width * fb->height` words from the start on, whatever the pitch.
pub fb_clear : Fb → (color : ℕ) → Pixels → Pixels
unfolding clear_loop
fb_clear fb color m = clear_loop color (u64 (fb.width * fb.height)) 0 m
