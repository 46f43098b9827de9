-- ===== src/Gdt/Fields.antt =====
-- The fields that `gdt_set_entry` of kernel/src/sys/gdt.c packs, read back as the processor does.
use deer.Base.{
  ℕ, ◌+◌, ◌*◌, ◌/◌, ◌%◌, ◌^◌, ◌<◌, ◌≡◌, ◌≢◌, ap, ◌∙◌, bit_and, bit_or, arith, update_self,
  update_other,
}
use deer.Bits.{and-ones, and-high, or-fields, or_comm}
use deer.Gdt.{GdtEntry, gdt_set_entry}

-- The segment that a descriptor describes, by the layout of the processor's manual.
pub record Segment : Type 0 where
  pub base : ℕ
  pub limit : ℕ
  pub access : ℕ
  pub flags : ℕ

abbrev pub segment : GdtEntry → Segment
segment e = record {
  base = e.base_low + e.base_middle * 2 ^ 16 + e.base_high * 2 ^ 24;
  limit = e.limit_low + e.granularity % 16 * 2 ^ 16;
  access = e.access;
  flags = e.granularity / 16;
}

high_nibble : (g : ℕ) → g < 256 → bit_and g 0xF0 ≡ g / 16 * 16
high_nibble g h = and-high 4 g 15 ∙ ap (λ t. t * 16) (and-ones 4 (g / 16) ∙ omega arith)

nibbles :
    (l g : ℕ)
    → l < 2 ^ 20
    → g < 256
    → bit_or (bit_and (l / 2 ^ 16) 0x0F) (bit_and g 0xF0) ≡ g / 16 * 16 + l / 2 ^ 16
nibbles l g small byte =
    ap (λ t. bit_or t (bit_and g 0xF0)) (and-ones 4 (l / 2 ^ 16) ∙ omega arith)
    ∙ ap (λ t. bit_or (l / 2 ^ 16) t) (high_nibble g byte)
    ∙ or_comm (l / 2 ^ 16) (g / 16 * 16)
    ∙ or-fields 4 (g / 16) (l / 2 ^ 16) (omega arith)

bases :
    (b : ℕ)
    → b < 2 ^ 32
    → bit_and b 0xFFFF + bit_and (b / 2 ^ 16) 0xFF * 2 ^ 16 + bit_and (b / 2 ^ 24) 0xFF * 2 ^ 24 ≡ b
bases b h = rw (and-ones 16 b, and-ones 8 (b / 2 ^ 16), and-ones 8 (b / 2 ^ 24)) (omega arith)

limits :
    (l g : ℕ)
    → l < 2 ^ 20
    → g < 256
    → bit_and l 0xFFFF + bit_or (bit_and (l / 2 ^ 16) 0x0F) (bit_and g 0xF0) % 16 * 2 ^ 16 ≡ l
limits l g p q = rw (and-ones 16 l, nibbles l g p q) (omega arith)

flags_of :
    (l g : ℕ)
    → l < 2 ^ 20
    → g < 256
    → bit_or (bit_and (l / 2 ^ 16) 0x0F) (bit_and g 0xF0) / 16 ≡ g / 16
flags_of l g p q = rw (nibbles l g p q) (omega arith)

abbrev described : (base limit access flags : ℕ) → Segment
described b l a f = record { base = b; limit = l; access = a; flags = f }

same_segment :
    {b b' l l' f f' : ℕ} (a : ℕ)
    → b ≡ b'
    → l ≡ l'
    → f ≡ f'
    → described b l a f ≡ described b' l' a f'
same_segment a p q r = λ i. record { base = p i; limit = q i; access = a; flags = r i }

-- A descriptor that `gdt_set_entry` has stored describes the segment that it was called with, for
-- a base of 32 bits, a limit of 20 and flags in the high half of a byte; and no other entry
-- changes.
pub set_entry-segment :
    (index base limit access granularity : ℕ) (gdt : ℕ → GdtEntry)
    → base < 2 ^ 32
    → limit < 2 ^ 20
    → granularity < 256
    → (segment (gdt_set_entry index base limit access granularity gdt index)
        ≡ record { base = base; limit = limit; access = access; flags = granularity / 16 })
      × ((j : ℕ) → j ≢ index → gdt_set_entry index base limit access granularity gdt j ≡ gdt j)
unfolding gdt_set_entry
set_entry-segment index base limit access granularity gdt p q r = (
  ap segment (update_self gdt index _)
      ∙ same_segment access (bases base p) (limits limit granularity q r)
          (flags_of limit granularity q r),
  λ j ne. update_other gdt index j _ ne,
)
