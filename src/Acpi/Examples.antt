-- ===== src/Acpi/Examples.antt =====
-- ACPI tables in a small memory: an RSDT at 2000 with one entry, the table APIC at 3000, and the
-- three signatures at 100, 200 and 300.
use deer.Base.{
  ℕ, ◌+◌, ◌≡◌, refl, arith, true, false, inl, List, [], ◌∷◌, ◌==◌, if◌then◌else◌, agrees, agrees-eq,
  some,
}
use deer.Memory.{Bytes}
use deer.Trace.{outb, outw}
use deer.Paging.{Paging, paging_is_mapped, is_mapped_at, paging_physical_to_virtual}
use deer.Paging.Sample.{empty}
use deer.Text.Compare.{strncmp}
use deer.Acpi.{
  Acpi, acpi_map_physical_to_virtual, table_loop, is_table, has_signature, sum_loop,
  acpi_checksum_valid, entry_bytes, rsdt_entry, acpi_find_table, acpi_init, acpi_shutdown,
  acpi_reboot,
}
use deer.Acpi.Checks.{Nonzero}
use deer.Acpi.Start.{IsSound, acpi_init-IsSound}

-- The byte at `a` of a list that stands at `p`, or else of `m`.
abbrev placed : (p : ℕ) → List ℕ → Bytes → Bytes
placed p [] m a = m a
placed p (c ∷ cs) m a = if a == p then c else placed (p + 1) cs m a

abbrev memory : Bytes
memory = placed 100 (b'A' ∷ b'P' ∷ b'I' ∷ b'C' ∷ []) (
    placed 200 (b'F' ∷ b'A' ∷ b'C' ∷ b'P' ∷ []) (
      placed 300 (b'R' ∷ b'S' ∷ b'D' ∷ b' ' ∷ b'P' ∷ b'T' ∷ b'R' ∷ b' ' ∷ []) (
        placed 6096 (b'R' ∷ b'S' ∷ b'D' ∷ b'T' ∷ 40 ∷ []) (
          placed 6132 (0xB8 ∷ 0x0B ∷ [])
            (placed 7096 (b'A' ∷ b'P' ∷ b'I' ∷ b'C' ∷ 9 ∷ 0 ∷ 0 ∷ 0 ∷ 218 ∷ []) (λ a. 0))))))

-- Page tables in which every entry is present.
abbrev mapped : Paging
mapped = record empty { hhdm = some 4096; words = λ a. 1 }

nonzero_bytes :
    (q n : ℕ)
    → agrees (λ k. if memory (q + k) == 0 then 1 else 0) (λ k. 0) n ≡ true
    → Nonzero q n memory
nonzero_bytes q n e k h z =
    differ (memory (q + k)) (agrees-eq (λ k. if memory (q + k) == 0 then 1 else 0) (λ k. 0) k n h e)
      z
  where
    differ : (v : ℕ) → if◌then◌else◌ {A = ℕ} (v == 0) 1 0 ≡ 0 → v ≡ 0 → ⊥
    differ v p q = ground arith

apic_full : Nonzero 100 4 memory
unfolding agrees
apic_full = nonzero_bytes 100 4 refl

facp_full : Nonzero 200 4 memory
unfolding agrees
facp_full = nonzero_bytes 200 4 refl

rsdp_full : Nonzero 300 8 memory
unfolding agrees
rsdp_full = nonzero_bytes 300 8 refl

abbrev nothing : Acpi
nothing = record {
  rsdp = 0;
  rsdt = 0;
  xsdt = 0;
  madt = 0;
  fadt = 0;
  use_xsdt = false;
  acpi_available = false;
}

abbrev rooted : Acpi
rooted = record nothing { rsdt = 6096; acpi_available = true }

finds : acpi_find_table memory 100 rooted mapped ≡ (7096, mapped)
unfolding acpi_find_table table_loop entry_bytes rsdt_entry acpi_map_physical_to_virtual is_table
    has_signature acpi_checksum_valid sum_loop strncmp paging_is_mapped is_mapped_at
    paging_physical_to_virtual
finds = refl

nothing-IsSound : IsSound memory 300 200 100 rsdp_full facp_full apic_full nothing
nothing-IsSound = record { madt = inl refl; fadt = inl refl; checked = λ e. absurd (ground arith) }

acpi_init-IsSound_example :
    IsSound memory 300 200 100 rsdp_full facp_full apic_full
      (acpi_init memory 300 200 100 (some 4096) (some 3500) nothing mapped).0
acpi_init-IsSound_example =
    acpi_init-IsSound memory 300 200 100 rsdp_full facp_full apic_full (some 4096) (some 3500)
      nothing mapped nothing-IsSound refl

-- The type of the sleep is cut out of the number of the port: for the port 0x604 it is 1.
sleep_type :
    acpi_shutdown
      (placed 1048 (0xB2 ∷ 0 ∷ 0 ∷ 0 ∷ 0xF0 ∷ []) (placed 1064 (0x04 ∷ 0x06 ∷ []) (λ a. 0)))
      (record nothing { fadt = 1000 })
      []
    ≡ outw 0x604 0x2001 ∷ outb 0xB2 0xF0 ∷ []
unfolding acpi_shutdown
sleep_type = refl

resets : acpi_reboot [] ≡ outb 0x64 0xFE ∷ []
unfolding acpi_reboot
resets = refl
