-- ===== src/Gdt.antt =====
-- kernel/src/sys/gdt.c: how a segment descriptor is packed, and the table that `gdt_init` builds.
pub mod Fields
mod Examples
use deer.Base.{
  ℕ, ◌+◌, ◌-◌, ◌*◌, ◌/◌, ◌^◌, bit_and, bit_or, Option, none, some, ltb, if◌then◌else◌, update,
  ◌<<<◌, ◌>>>◌,
}

-- `struct gdt_entry`
pub record GdtEntry : Type 0 where
  pub limit_low : ℕ
  pub base_low : ℕ
  pub base_middle : ℕ
  pub access : ℕ
  pub granularity : ℕ
  pub base_high : ℕ

-- `gdt` and the two fields of `gdt_ptr`.
pub record Gdt : Type 0 where
  pub entries : ℕ → GdtEntry
  pub limit : ℕ
  pub base : ℕ

pub gdt_set_entry : (index base limit access granularity : ℕ) → (ℕ → GdtEntry) → ℕ → GdtEntry
gdt_set_entry index base limit access granularity gdt = update gdt index (record {
  base_low = bit_and base 0xFFFF;
  base_middle = bit_and (base >>> 16) 0xFF;
  base_high = bit_and (base >>> 24) 0xFF;
  limit_low = bit_and limit 0xFFFF;
  granularity = bit_or (bit_and (limit >>> 16) 0x0F) (bit_and granularity 0xF0);
  access = access;
})

-- `PRESENT | RING0 | SEGMENT | EXECUTABLE | READ_WRITE`
abbrev pub code_access : ℕ
code_access = bit_or (bit_or (bit_or (bit_or (1 <<< 7) (0 <<< 5)) (1 <<< 4)) (1 <<< 3)) (1 <<< 1)

-- `PRESENT | RING0 | SEGMENT | READ_WRITE`
abbrev pub data_access : ℕ
data_access = bit_or (bit_or (bit_or (1 <<< 7) (0 <<< 5)) (1 <<< 4)) (1 <<< 1)

abbrev pub granularity_4k : ℕ
granularity_4k = 1 <<< 7

abbrev pub granularity_long : ℕ
granularity_long = 1 <<< 5

-- `address` is where the linker puts `gdt`; a descriptor has 8 bytes.
pub gdt_init : (address : ℕ) → Gdt → Gdt
unfolding gdt_set_entry
gdt_init address g = record g {
  entries = gdt_set_entry 4 0 0 0 0 (
      gdt_set_entry 3 0 0 0 0 (
        gdt_set_entry 2 0 0xFFFFF data_access granularity_4k (
          gdt_set_entry 1 0 0xFFFFF code_access (bit_or granularity_4k granularity_long)
            (gdt_set_entry 0 0 0 0 0 g.entries))));
  limit = 8 * 5 - 1;
  base = address;
}

-- For an index that is not negative.
pub gdt_get_descriptor : (index : ℕ) → Gdt → Option GdtEntry
gdt_get_descriptor index g = if ltb index 5 then some (g.entries index) else none
