-- ===== src/Gdt/Examples.antt =====
-- Tests of the descriptor table, and a descriptor packed at concrete arguments.
use deer.Base.{ℕ, ◌≡◌, ◌≢◌, refl, arith, none}
use deer.Gdt.{GdtEntry, Gdt, gdt_set_entry, gdt_init, gdt_get_descriptor}
use deer.Gdt.Fields.{segment, set_entry-segment}

abbrev blank : ℕ → GdtEntry
blank n = record {
  limit_low = 0;
  base_low = 0;
  base_middle = 0;
  access = 0;
  granularity = 0;
  base_high = 0;
}

abbrev built : Gdt
built = gdt_init 4096 (record { entries = blank; limit = 0; base = 0 })

code_segment :
    segment (built.entries 1) ≡ record { base = 0; limit = 0xFFFFF; access = 0x9A; flags = 0xA }
unfolding gdt_init gdt_set_entry
code_segment = refl

data_segment :
    segment (built.entries 2) ≡ record { base = 0; limit = 0xFFFFF; access = 0x92; flags = 0x8 }
unfolding gdt_init gdt_set_entry
data_segment = refl

no_sixth : gdt_get_descriptor 5 built ≡ none
unfolding gdt_get_descriptor
no_sixth = refl

table_limit : built.limit ≡ 39
unfolding gdt_init
table_limit = refl

set_entry-segment_example :
    (segment (gdt_set_entry 3 0x12345678 0xABCDE 0xFA 0xCF blank 3)
      ≡ record { base = 0x12345678; limit = 0xABCDE; access = 0xFA; flags = 0xC })
    × ((j : ℕ) → j ≢ 3 → gdt_set_entry 3 0x12345678 0xABCDE 0xFA 0xCF blank j ≡ blank j)
set_entry-segment_example =
    set_entry-segment 3 0x12345678 0xABCDE 0xFA 0xCF blank (omega arith) (omega arith) (omega arith)
