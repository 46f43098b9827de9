-- ===== src/Pic/Masks.antt =====
-- What `pic_mask_irq` and `pic_unmask_irq` of kernel/src/drivers/pic.c do to the mask registers.
use mathlib.Core.Path.{subst₂}
use deer.Base.{
  ℕ, zero, suc, ◌+◌, ◌-◌, ◌*◌, ◌/◌, ◌%◌, ◌^◌, ◌<◌, ◌≡◌, refl, ap, ◌∙◌, bit_and, bit_or, arith, true,
  ◌∷◌, ◌==◌, if◌then◌else◌, u8, ◌<<<◌, agrees, agrees-eq,
}
use Prim.Native.Nat.{min, max}
use deer.Bits.{bit, bit-or, bit-and}
use deer.Trace.{outb, Trace}
use deer.Pic.{pic_port, pic_line, pic_mask_irq, pic_unmask_irq}

-- The low bits survive the truncation to a byte.
bit-u8 : (j v : ℕ) → j < 8 → bit (u8 v) j ≡ bit v j
bit-u8 zero v h = omega arith
bit-u8 (suc zero) v h = omega arith
bit-u8 (suc (suc zero)) v h = omega arith
bit-u8 (suc (suc (suc zero))) v h = omega arith
bit-u8 (suc (suc (suc (suc zero)))) v h = omega arith
bit-u8 (suc (suc (suc (suc (suc zero))))) v h = omega arith
bit-u8 (suc (suc (suc (suc (suc (suc zero)))))) v h = omega arith
bit-u8 (suc (suc (suc (suc (suc (suc (suc zero))))))) v h = omega arith
bit-u8 (suc (suc (suc (suc (suc (suc (suc (suc j)))))))) v h = absurd (omega arith)

-- Bit `j` of `1 << o` and of `~(1 << o)`, as number `8 * o + j`.
set_bits :
    agrees (λ x. bit (1 <<< (x / 8)) (x % 8)) (λ x. if x % 8 == x / 8 then 1 else 0) 64 ≡ true
unfolding agrees
set_bits = refl

clear_bits :
    agrees
      (λ x. bit (2 ^ 32 - 1 - (1 <<< (x / 8))) (x % 8))
      (λ x. if x % 8 == x / 8 then 0 else 1)
      64
    ≡ true
unfolding agrees
clear_bits = refl

module _ (o j : ℕ) (p : o < 8) (q : j < 8) where
  bit-set : bit (1 <<< o) j ≡ (if j == o then 1 else 0)
  bit-set =
      subst₂ (λ a b. bit (1 <<< a) b ≡ (if b == a then 1 else 0)) (omega arith) (omega arith)
        (agrees-eq (λ x. bit (1 <<< (x / 8)) (x % 8)) (λ x. if x % 8 == x / 8 then 1 else 0)
          (8 * o + j) 64 (omega arith) set_bits)

  bit-clear : bit (2 ^ 32 - 1 - (1 <<< o)) j ≡ (if j == o then 0 else 1)
  bit-clear =
      subst₂ (λ a b. bit (2 ^ 32 - 1 - (1 <<< a)) b ≡ (if b == a then 0 else 1)) (omega arith)
        (omega arith)
        (agrees-eq (λ x. bit (2 ^ 32 - 1 - (1 <<< (x / 8))) (x % 8))
          (λ x. if x % 8 == x / 8 then 0 else 1) (8 * o + j) 64 (omega arith) clear_bits)

line-lt : (irq : ℕ) → irq < 16 → pic_line irq < 8
unfolding pic_line
line-lt irq h = ground arith

max-choice : (x j l : ℕ) → x < 2 → max x (if j == l then 1 else 0) ≡ (if j == l then 1 else x)
max-choice x j l h = ground arith

min-choice : (x j l : ℕ) → x < 2 → min x (if j == l then 0 else 1) ≡ (if j == l then 0 else x)
min-choice x j l h = ground arith

-- The data port of the controller that has the line, and the number of the line there: the first
-- eight lines are those of the controller at 0x20, the others those of the one at 0xA0.
abbrev pub mask_port : (irq : ℕ) → ℕ
mask_port irq = if irq / 8 == 0 then 0x21 else 0xA1

port-eq : (irq : ℕ) → pic_port irq ≡ mask_port irq
unfolding pic_port
port-eq irq = ground arith

line-eq : (irq : ℕ) → irq < 16 → pic_line irq ≡ irq % 8
unfolding pic_line
line-eq irq h = ground arith

masks :
    (inb : ℕ → Trace → ℕ) (irq j : ℕ) (t : Trace)
    → irq < 16
    → j < 8
    → (v w : ℕ) × (pic_mask_irq inb irq t ≡ outb (pic_port irq) v ∷ t)
      × (bit v j ≡ (if j == pic_line irq then 1 else bit (inb (pic_port irq) t) j))
      × (pic_unmask_irq inb irq t ≡ outb (pic_port irq) w ∷ t)
      × (bit w j ≡ (if j == pic_line irq then 0 else bit (inb (pic_port irq) t) j))
unfolding pic_mask_irq pic_unmask_irq
masks inb irq j t p q = (
  _,
  _,
  refl,
  bit-u8 j (bit_or old (1 <<< line)) q
      ∙ bit-or j old (1 <<< line)
      ∙ ap (max (bit old j)) (bit-set line j small q)
      ∙ max-choice (bit old j) j line (omega arith),
  refl,
  bit-u8 j (bit_and old (2 ^ 32 - 1 - (1 <<< line))) q
      ∙ bit-and j old (2 ^ 32 - 1 - (1 <<< line))
      ∙ ap (min (bit old j)) (bit-clear line j small q)
      ∙ min-choice (bit old j) j line (omega arith),
)
  where
    old : ℕ
    old = inb (pic_port irq) t

    line : ℕ
    line = pic_line irq

    small : line < 8
    small = line-lt irq p

-- Masking one of the sixteen lines writes to the data port of the controller that has it the mask
-- that it had, with the bit of that line set and every other as it was; unmasking clears that bit
-- instead.
pub mask_irq-bits :
    (inb : ℕ → Trace → ℕ) (irq j : ℕ) (t : Trace)
    → irq < 16
    → j < 8
    → (v w : ℕ) × (pic_mask_irq inb irq t ≡ outb (mask_port irq) v ∷ t)
      × (bit v j ≡ (if j == irq % 8 then 1 else bit (inb (mask_port irq) t) j))
      × (pic_unmask_irq inb irq t ≡ outb (mask_port irq) w ∷ t)
      × (bit w j ≡ (if j == irq % 8 then 0 else bit (inb (mask_port irq) t) j))
mask_irq-bits inb irq j t p q =
    subst₂
      (λ port line.
        (v w : ℕ) × (pic_mask_irq inb irq t ≡ outb port v ∷ t)
        × (bit v j ≡ (if j == line then 1 else bit (inb port t) j))
        × (pic_unmask_irq inb irq t ≡ outb port w ∷ t)
        × (bit w j ≡ (if j == line then 0 else bit (inb port t) j)))
      (port-eq irq) (line-eq irq p) (masks inb irq j t p q)
