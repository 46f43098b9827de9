-- ===== src/Acpi/Start.antt =====
-- What `acpi_init` of kernel/src/sys/acpi.c leaves in `acpi_state`.
use mathlib.Core.Path.{subst}
use deer.Base.{
  ℕ, zero, suc, ◌+◌, ◌/◌, ◌%◌, ◌^◌, ◌≡◌, ◌⊎◌, refl, sym, ◌∙◌, arith, Bool, true, false, ◌&&◌, not,
  leb, inl, inr, ◌==◌, if◌then◌else◌, u32, Option, none, some,
}
use deer.Memory.{Bytes}
use deer.Apic.{u32_at, u64_at}
use deer.Paging.{Paging}
use deer.Acpi.{
  Acpi, acpi_map_physical_to_virtual, table_loop, is_table, has_signature, acpi_checksum_valid,
  entry_bytes, xsdt_entry, rsdt_entry, acpi_find_table, find_madt, find_fadt, set_available,
  find_tables, root_table, rsdp_length, check_rsdp, acpi_init,
}
use deer.Acpi.Checks.{
  Nonzero, Alike, total, same_text-Alike, checksum-total, IsTable, is_table-IsTable,
}

-- NULL, or a table with the signature.
abbrev pub Names : (signature table : ℕ) → Bytes → Type 0
Names signature table memory = (table ≡ 0) ⊎ IsTable signature table memory

-- The RSDP has its signature, and the bytes that its revision tells to add make a multiple of 256.
pub record IsRsdp (signature rsdp : ℕ) (memory : Bytes) : Type 0 where
  pub signed : Alike rsdp signature 8 memory
  pub sums : total (rsdp_length memory rsdp) rsdp memory % 2 ^ 8 ≡ 0

module _ (memory : Bytes) (signature : ℕ) (full : Nonzero signature 4 memory) where
  -- One round of the search, by the outcome of the mapping and of the rest.
  round-Names :
      (null found : Bool) (r rest : ℕ × Paging)
      → (found ≡ true → IsTable signature r.0 memory)
      → Names signature rest.0 memory
      → Names signature
          (if◌then◌else◌ {A = ℕ × Paging} null rest (if found then r else rest)).0
          memory
  round-Names true found r rest h later = later
  round-Names false true r rest h later = inr (h refl)
  round-Names false false r rest h later = later

  table_loop-Names :
      (entry : ℕ → ℕ) (left i : ℕ) (k : Paging)
      → Names signature (table_loop memory signature entry left i k).0 memory
  unfolding table_loop
  table_loop-Names entry zero i k = inl refl
  table_loop-Names entry (suc left) i k =
      let r = acpi_map_physical_to_virtual (entry i) k in
      round-Names (r.0 == 0) (is_table signature r.0 memory) r
        (table_loop memory signature entry left (i + 1) r.1)
        (is_table-IsTable signature r.0 memory full) (table_loop-Names entry left (i + 1) r.1)

  if-Names :
      (b : Bool) (r s : ℕ × Paging)
      → Names signature r.0 memory
      → Names signature s.0 memory
      → Names signature (if◌then◌else◌ {A = ℕ × Paging} b r s).0 memory
  if-Names true r s p q = p
  if-Names false r s p q = q

  find_table-Names :
      (a : Acpi) (k : Paging) → Names signature (acpi_find_table memory signature a k).0 memory
  unfolding acpi_find_table
  find_table-Names a k =
      if-Names (not a.acpi_available) (0, k) _ (inl refl)
        (if-Names (a.use_xsdt && not (a.xsdt == 0)) _ _
          (table_loop-Names (xsdt_entry memory a.xsdt) (entry_bytes memory a.xsdt / 8) 0 k)
          (if-Names (not (a.rsdt == 0)) _ (0, k)
            (table_loop-Names (rsdt_entry memory a.rsdt) (u32 (entry_bytes memory a.rsdt / 4)) 0 k)
            (inl refl)))

module _ (memory : Bytes) (rsdp_signature fadt_signature madt_signature : ℕ)
    (rsdp_full : Nonzero rsdp_signature 8 memory) (fadt_full : Nonzero fadt_signature 4 memory)
    (madt_full : Nonzero madt_signature 4 memory) where
  -- The tables that are named are tables, and ACPI is available only with a sound RSDP.
  pub record IsSound (a : Acpi) : Type 0 where
    pub madt : Names madt_signature a.madt memory
    pub fadt : Names fadt_signature a.fadt memory
    pub checked : a.acpi_available ≡ true → IsRsdp rsdp_signature a.rsdp memory

  find_madt-IsSound :
      (s : Acpi × Paging) → IsSound s.0 → IsSound (find_madt memory madt_signature s).0
  unfolding find_madt
  find_madt-IsSound (a, k) h = record {
    madt = find_table-Names memory madt_signature madt_full a k;
    fadt = h.fadt;
    checked = h.checked;
  }

  find_fadt-IsSound :
      (s : Acpi × Paging) → IsSound s.0 → IsSound (find_fadt memory fadt_signature s).0
  unfolding find_fadt
  find_fadt-IsSound (a, k) h = record {
    madt = h.madt;
    fadt = find_table-Names memory fadt_signature fadt_full a k;
    checked = h.checked;
  }

  -- The searches leave the RSDP alone.
  rsdp_kept :
      (s : Acpi × Paging)
      → (find_madt memory madt_signature (find_fadt memory fadt_signature s)).0.rsdp ≡ s.0.rsdp
  unfolding find_madt find_fadt
  rsdp_kept (a, k) = refl

  set_available-IsSound :
      (s : Acpi × Paging)
      → IsSound s.0
      → IsRsdp rsdp_signature s.0.rsdp memory
      → IsSound (set_available s).0
  unfolding set_available
  set_available-IsSound (a, k) h r = record { madt = h.madt; fadt = h.fadt; checked = λ e. r }

  find_tables-IsSound :
      (s : Acpi × Paging)
      → IsSound s.0
      → IsRsdp rsdp_signature s.0.rsdp memory
      → IsSound (find_tables memory fadt_signature madt_signature s).0
  unfolding find_tables
  find_tables-IsSound s h r =
      let f = find_fadt memory fadt_signature s in
      let m = find_madt memory madt_signature f in
      let t = set_available m in
      find_fadt-IsSound (find_madt memory madt_signature t) (
        find_madt-IsSound t (
          set_available-IsSound m (find_madt-IsSound f (find_fadt-IsSound s h))
            (subst (λ p. IsRsdp rsdp_signature p memory) (sym (rsdp_kept s)) r)))

  if-IsSound :
      (b : Bool) (s t : Acpi × Paging)
      → IsSound s.0
      → IsSound t.0
      → IsSound (if◌then◌else◌ {A = Acpi × Paging} b s t).0
  if-IsSound true s t p q = p
  if-IsSound false s t p q = q

  root_table-IsSound :
      (a : Acpi) (k : Paging)
      → IsSound a
      → IsRsdp rsdp_signature a.rsdp memory
      → IsSound (root_table memory fadt_signature madt_signature a k).0
  unfolding root_table
  root_table-IsSound a k h r =
      let x = acpi_map_physical_to_virtual (u64_at memory (a.rsdp + 24)) k in
      let t = acpi_map_physical_to_virtual (u32_at memory (a.rsdp + 16)) k in
      if-IsSound (leb 2 (memory (a.rsdp + 15)) && not (u64_at memory (a.rsdp + 24) == 0)) _ _
        (find_tables-IsSound
          (record a { xsdt = x.0; use_xsdt = if x.0 == 0 then a.use_xsdt else true }, x.1)
          (record { madt = h.madt; fadt = h.fadt; checked = h.checked }) r)
        (if-IsSound (t.0 == 0) _ _ (record { madt = h.madt; fadt = h.fadt; checked = h.checked })
          (find_tables-IsSound (record a { rsdt = t.0; use_xsdt = false }, t.1)
            (record { madt = h.madt; fadt = h.fadt; checked = h.checked }) r))

  -- The two tests of the RSDP.
  tested-IsSound :
      (signed sums : Bool) (s t : Acpi × Paging)
      → IsSound s.0
      → (signed ≡ true → sums ≡ true → IsSound t.0)
      → IsSound (if◌then◌else◌ {A = Acpi × Paging} (not signed) s (if not sums then s else t)).0
  tested-IsSound false sums s t h g = h
  tested-IsSound true false s t h g = h
  tested-IsSound true true s t h g = g refl refl

  check_rsdp-IsSound :
      (a : Acpi) (k : Paging)
      → IsSound a
      → IsSound (check_rsdp memory rsdp_signature fadt_signature madt_signature a k).0
  unfolding check_rsdp has_signature
  check_rsdp-IsSound a k h =
      tested-IsSound (has_signature a.rsdp rsdp_signature 8 memory)
        (acpi_checksum_valid a.rsdp (rsdp_length memory a.rsdp) memory) (a, k)
        (root_table memory fadt_signature madt_signature a k) h
        (λ p q. root_table-IsSound a k h (record {
          signed = same_text-Alike 8 a.rsdp rsdp_signature memory rsdp_full p;
          sums = zero_sum (sym (checksum-total (rsdp_length memory a.rsdp) a.rsdp memory) ∙ q);
        }))
    where
      zero_sum : {n : ℕ} → (n == 0) ≡ true → n ≡ 0
      zero_sum e = ground arith

  -- Whatever the bootloader and the firmware left, and however the mapping goes: if the state was
  -- sound and ACPI not available, it is sound after acpi_init. The tables that it names have their
  -- signatures and sums, and ACPI is available only if the RSDP has passed its tests.
  pub acpi_init-IsSound :
      (hhdm_response rsdp_response : Option ℕ) (a : Acpi) (k : Paging)
      → IsSound a
      → a.acpi_available ≡ false
      → IsSound
          (acpi_init memory rsdp_signature fadt_signature madt_signature hhdm_response rsdp_response
            a k).0
  unfolding acpi_init
  acpi_init-IsSound none rsdp_response a k h off = h
  acpi_init-IsSound (some offset) none a k h off = h
  acpi_init-IsSound (some offset) (some address) a k h off =
      let r = acpi_map_physical_to_virtual address k in
      if-IsSound (address == 0) (a, k) _ h
        (if-IsSound (r.0 == 0) (a, r.1) _ h
          (check_rsdp-IsSound (record a { rsdp = r.0 }) r.1
            (record {
              madt = h.madt;
              fadt = h.fadt;
              checked = λ e. absurd (differ a.acpi_available e off);
            })))
    where
      differ : (b : Bool) → b ≡ true → b ≡ false → ⊥
      differ b p q = ground arith
