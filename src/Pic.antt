-- ===== src/Pic.antt =====
-- kernel/src/drivers/pic.c: the two 8259 interrupt controllers, as writes to their ports.
pub mod Masks
mod Examples
use deer.Base.{ℕ, ◌+◌, ◌-◌, ◌*◌, ◌^◌, bit_and, bit_or, ◌∷◌, ltb, leb, if◌then◌else◌, u8, ◌<<<◌}
use deer.Trace.{Event, outb, Trace}

abbrev pub pic1_command : ℕ
pic1_command = 0x20

abbrev pub pic1_data : ℕ
pic1_data = 0x21

abbrev pub pic2_command : ℕ
pic2_command = 0xA0

abbrev pub pic2_data : ℕ
pic2_data = 0xA1

abbrev pub pic_eoi : ℕ
pic_eoi = 0x20

abbrev pub pic1_offset : ℕ
pic1_offset = 0x20

abbrev pub pic2_offset : ℕ
pic2_offset = 0x28

-- `PIC_ICW1_INIT | PIC_ICW1_ICW4`
abbrev pub pic_icw1 : ℕ
pic_icw1 = bit_or 0x10 0x01

abbrev pub pic_icw4_8086 : ℕ
pic_icw4_8086 = 0x01

unfoldable pub pic_send_eoi : ℕ → Trace → Trace
pic_send_eoi irq t =
    outb pic1_command pic_eoi ∷ (if leb 8 irq then outb pic2_command pic_eoi ∷ t else t)

pub pic_disable : Trace → Trace
pic_disable t = outb pic2_data 0xFF ∷ outb pic1_data 0xFF ∷ t

-- The port of the controller that has the line, and the line's number there.
pub pic_port : ℕ → ℕ
pic_port irq = if ltb irq 8 then pic1_data else pic2_data

pub pic_line : ℕ → ℕ
pic_line irq = if ltb irq 8 then irq else irq - 8

module _ (inb : ℕ → Trace → ℕ) where
  pub pic_remap : Trace → Trace
  pic_remap t =
      let pic1_mask = inb pic1_data t in
      let pic2_mask = inb pic2_data t in
      outb pic2_data pic2_mask
      ∷ outb pic1_data pic1_mask
      ∷ outb pic2_data pic_icw4_8086
      ∷ outb pic1_data pic_icw4_8086
      ∷ outb pic2_data 0x02
      ∷ outb pic1_data 0x04
      ∷ outb pic2_data pic2_offset
      ∷ outb pic1_data pic1_offset
      ∷ outb pic2_command pic_icw1
      ∷ outb pic1_command pic_icw1
      ∷ t

  pub pic_mask_irq : ℕ → Trace → Trace
  unfolding pic_port pic_line
  pic_mask_irq irq t =
      outb (pic_port irq) (u8 (bit_or (inb (pic_port irq) t) (1 <<< pic_line irq))) ∷ t

  -- `~(1 << irq)` is an `int` of 32 bits.
  pub pic_unmask_irq : ℕ → Trace → Trace
  unfolding pic_port pic_line
  pic_unmask_irq irq t =
      outb (pic_port irq) (u8 (bit_and (inb (pic_port irq) t) (2 ^ 32 - 1 - (1 <<< pic_line irq))))
      ∷ t
