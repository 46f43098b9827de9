-- ===== src/Framebuffer/Examples.antt =====
-- A framebuffer of four columns and three rows, each row five words long.
use deer.Base.{◌≡◌, refl, arith}
use deer.Framebuffer.{fill_rows, fill_row, Fb, Pixels, pixel_index, fb_draw_pixel, fb_fill_rect}
use deer.Framebuffer.Bounds.{Outside}

abbrev screen : Fb
screen = record { width = 4; height = 3; pitch = 20 }

abbrev black : Pixels
black a = 0

drawn : fb_fill_rect screen 2 1 4 1 7 black 7 ≡ 7
unfolding fb_fill_rect fill_rows fill_row fb_draw_pixel pixel_index
drawn = refl

far_away : Outside screen 100
unfolding pixel_index
far_away x y p q e = omega arith
