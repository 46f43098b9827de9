-- ===== src/Pic/Examples.antt =====
-- The interrupt controllers at a concrete line.
use deer.Base.{ℕ, ◌%◌, ◌≡◌, ◌==◌, if◌then◌else◌, refl, arith, [], ◌∷◌}
use deer.Bits.{bit}
use deer.Trace.{outb, Trace}
use deer.Pic.{pic_send_eoi, pic_mask_irq, pic_unmask_irq}
use deer.Pic.Masks.{mask_port, mask_irq-bits}

abbrev answer : ℕ → Trace → ℕ
answer port t = 0x0F

slave_first : pic_send_eoi 9 [] ≡ outb 0x20 0x20 ∷ outb 0xA0 0x20 ∷ []
unfolding pic_send_eoi
slave_first = refl

mask_irq-bits_example :
    (v w : ℕ) × (pic_mask_irq answer 9 [] ≡ outb (mask_port 9) v ∷ [])
    × (bit v 1 ≡ (if 1 == 9 % 8 then 1 else bit (answer (mask_port 9) []) 1))
    × (pic_unmask_irq answer 9 [] ≡ outb (mask_port 9) w ∷ [])
    × (bit w 1 ≡ (if 1 == 9 % 8 then 0 else bit (answer (mask_port 9) []) 1))
mask_irq-bits_example = mask_irq-bits answer 9 1 [] (omega arith) (omega arith)
