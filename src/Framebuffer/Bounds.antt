-- ===== src/Framebuffer/Bounds.antt =====
-- Which words the drawing routines of kernel/src/graphics/fb.c can change.
use mathlib.Core.Path.{subst}
use deer.Base.{
  ℕ, zero, suc, ◌+◌, ◌-◌, ◌*◌, ◌/◌, ◌^◌, ◌<◌, ◌≤◌, ◌≡◌, ◌≢◌, refl, ap, ◌∙◌, arith, Bool, false,
  ◌&&◌, ◌||◌, inl, inr, Bool-cases, leb, ltb, if◌then◌else◌, update, update_other, u32, u64,
}
use deer.Framebuffer.{
  Fb, Pixels, pixel_index, fb_draw_pixel, fill_row, fill_rows, fb_fill_rect, clear_loop, fb_clear,
}

-- No pixel inside the picture is at `a`.
abbrev pub Outside : Fb → ℕ → Type 0
Outside fb a = (x y : ℕ) → x < fb.width → y < fb.height → a ≢ pixel_index fb x y

pub draw_pixel-Outside :
    (fb : Fb) (x y color a : ℕ) (m : Pixels) → Outside fb a → fb_draw_pixel fb x y color m a ≡ m a
unfolding fb_draw_pixel
draw_pixel-Outside fb x y color a m out = elim (Bool-cases (leb fb.width x || leb fb.height y)) [
  | inl skip ↦ ap (λ (b : Bool). (if b then m else update m (pixel_index fb x y) color) a) skip
  | inr draw ↦
      ap (λ (b : Bool). (if b then m else update m (pixel_index fb x y) color) a) draw
      ∙ update_other m (pixel_index fb x y) a color
          (out x y (inside fb.width fb.height x y draw).0 (inside fb.width fb.height x y draw).1)
]
  where
    inside : (w h p q : ℕ) → (leb w p || leb h q) ≡ false → (p < w) × (q < h)
    inside w h p q e = (ground arith, ground arith)

fill_row-Outside :
    (fb : Fb) (py color left px a : ℕ) (m : Pixels)
    → Outside fb a
    → fill_row fb py color left px m a ≡ m a
unfolding fill_row
fill_row-Outside fb py color zero px a m out = refl
fill_row-Outside fb py color (suc left) px a m out =
    fill_row-Outside fb py color left (px + 1) a (fb_draw_pixel fb px py color m) out
    ∙ draw_pixel-Outside fb px py color a m out

fill_rows-Outside :
    (fb : Fb) (x w color left py a : ℕ) (m : Pixels)
    → Outside fb a
    → fill_rows fb x w color left py m a ≡ m a
unfolding fill_rows
fill_rows-Outside fb x w color zero py a m out = refl
fill_rows-Outside fb x w color (suc left) py a m out =
    fill_rows-Outside fb x w color left (py + 1) a (fill_row fb py color (u32 (x + w) - x) x m) out
    ∙ fill_row-Outside fb py color (u32 (x + w) - x) x a m out

-- Whatever its corner and size, a rectangle changes no word but those of pixels inside the picture.
pub fill_rect-Outside :
    (fb : Fb) (x y w h color a : ℕ) (m : Pixels)
    → Outside fb a
    → fb_fill_rect fb x y w h color m a ≡ m a
unfolding fb_fill_rect
fill_rect-Outside fb x y w h color a m out =
    fill_rows-Outside fb x w color (u32 (y + h) - y) y a m out

clear_loop-at :
    (color left i a : ℕ) (m : Pixels)
    → clear_loop color left i m a ≡ (if leb i a && ltb a (i + left) then color else m a)
unfolding clear_loop
clear_loop-at color zero i a m = ground arith
clear_loop-at color (suc left) i a m =
    clear_loop-at color left (i + 1) a (update m i color) ∙ ground arith

-- Clearing colours exactly the first `width * height` words, modulo 2 ^ 64.
pub fb_clear-at :
    (fb : Fb) (color a : ℕ) (m : Pixels)
    → fb_clear fb color m a ≡ (if ltb a (u64 (fb.width * fb.height)) then color else m a)
unfolding fb_clear
fb_clear-at fb color a m = ground (arith, clear_loop-at color (u64 (fb.width * fb.height)) 0 a m)

-- The arithmetic of the last pixel of `n + 1` rows of `w` pixels, `pad` words apart.
row_words : (w n pad : ℕ) → n * (w + pad) ≡ w * n + n * pad
row_words w n pad = grind arith

some_padding : (n pad : ℕ) → 0 < n → 0 < pad → 0 < n * pad
some_padding n pad p q = grind arith

total_words : (n s : ℕ) → (n + 1) * s ≡ n * s + s
total_words n s = grind arith

area : (w n : ℕ) → w * (n + 1) ≡ w * n + w
area w n = grind arith

beyond :
    (w pad rows body gaps whole : ℕ)
    → 0 < w
    → rows ≡ body + gaps
    → 0 < gaps
    → rows + (w + pad) < 2 ^ 32
    → whole ≡ body + w
    → ltb (u32 (rows + (w - 1))) (u64 whole) ≡ false
beyond w pad rows body gaps whole p e q small e' = ground arith

missed :
    (w n pad pitch : ℕ)
    → 0 < w
    → 0 < n
    → 0 < pad
    → pitch ≡ 4 * (w + pad)
    → (n + 1) * (w + pad) < 2 ^ 32
    → ltb (u32 (n * u32 (pitch / 4) + (w - 1))) (u64 (w * (n + 1))) ≡ false
missed w n pad pitch p q r e small =
    ap (λ t. ltb (u32 (n * t + (w - 1))) (u64 (w * (n + 1)))) narrow
    ∙ beyond w pad (n * (w + pad)) (w * n) (n * pad) (w * (n + 1)) p (row_words w n pad)
        (some_padding n pad q r) (omega (arith, total_words n (w + pad))) (area w n)
  where
    narrow : u32 (pitch / 4) ≡ w + pad
    narrow = omega (arith, total_words n (w + pad))

-- In a picture of at least one column, two rows and fewer than 2 ^ 32 words, whose rows are longer
-- than they are wide by one word or more, clearing leaves the last pixel as it was.
pub fb_clear-misses :
    (fb : Fb) (color pad : ℕ) (m : Pixels)
    → 0 < fb.width
    → 2 ≤ fb.height
    → 0 < pad
    → fb.pitch ≡ 4 * (fb.width + pad)
    → fb.height * (fb.width + pad) < 2 ^ 32
    → fb_clear fb color m (pixel_index fb (fb.width - 1) (fb.height - 1))
      ≡ m (pixel_index fb (fb.width - 1) (fb.height - 1))
unfolding pixel_index
fb_clear-misses fb color pad m wide tall padded e small =
    fb_clear-at fb color last m
    ∙ ap (λ (b : Bool). if b then color else m last)
        (ap (λ t. ltb last (u64 (fb.width * t))) up
          ∙ missed fb.width (fb.height - 1) pad fb.pitch wide (omega arith) padded e
              (subst (λ t. t * (fb.width + pad) < 2 ^ 32) up small))
  where
    last : ℕ
    last = pixel_index fb (fb.width - 1) (fb.height - 1)

    up : fb.height ≡ fb.height - 1 + 1
    up = omega arith
