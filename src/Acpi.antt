-- ===== src/Acpi.antt =====
-- kernel/src/sys/acpi.c: the tables that the firmware leaves in memory. `memory` is the byte at each
-- virtual address of them, which the kernel only reads; the page tables that map them are those of
-- Paging. Pointers are addresses, 0 is NULL, and messages are left out.
pub mod Checks
pub mod Search
pub mod Start
mod Examples
use deer.Base.{
  ℕ, zero, suc, ◌+◌, ◌-◌, ◌*◌, ◌/◌, ◌%◌, ◌^◌, bit_and, bit_or, Bool, true, false, ◌&&◌, ◌||◌, not,
  Option, none, some, List, [], ◌∷◌, ltb, leb, ◌==◌, if◌then◌else◌, u8, u16, u32, u64, sub64, ◌>>>◌,
  ◌<<<◌,
}
use deer.Memory.{Bytes}
use deer.Trace.{Trace, outb, outw}
use deer.Text.Compare.{strncmp}
use deer.Apic.{u32_at, u64_at, paging_no_execute}
use deer.Paging.{
  Paging, paging_present, paging_writable, frame_mask, paging_is_mapped, paging_map_page,
  paging_physical_to_virtual,
}

-- `acpi_state`, but for the fields that the code never stores into.
pub record Acpi : Type 0 where
  pub rsdp : ℕ
  pub rsdt : ℕ
  pub xsdt : ℕ
  pub madt : ℕ
  pub fadt : ℕ
  pub use_xsdt : Bool
  pub acpi_available : Bool

-- The virtual address, with its page mapped, or NULL.
pub acpi_map_physical_to_virtual : (physical_addr : ℕ) → Paging → ℕ × Paging
acpi_map_physical_to_virtual physical_addr k =
    let virtual_addr = paging_physical_to_virtual physical_addr k in
    let page_virtual = bit_and virtual_addr frame_mask in
    let r =
      paging_map_page page_virtual (bit_and physical_addr frame_mask)
        (bit_or (bit_or paging_present paging_writable) paging_no_execute) k in
    if physical_addr == 0
    then (0, k)
    else (if paging_is_mapped page_virtual k
        then (virtual_addr, k)
        else (if r.0 then (virtual_addr, r.1) else (0, r.1)))

-- `sum += bytes[i]`, from `bytes` on with `left` rounds to go.
pub sum_loop : (left bytes sum : ℕ) → Bytes → ℕ
sum_loop zero bytes sum m = sum
sum_loop (suc left) bytes sum m = sum_loop left (bytes + 1) (u8 (sum + m bytes)) m

pub acpi_checksum_valid : (data_start length : ℕ) → Bytes → Bool
unfolding sum_loop
acpi_checksum_valid data_start length m = sum_loop length data_start 0 m == 0

-- `strncmp(text, signature, n) == 0`
pub has_signature : (text signature n : ℕ) → Bytes → Bool
has_signature text signature n m = (strncmp text signature n m).0 == (strncmp text signature n m).1

-- The length of a table is behind its signature.
pub is_table : (signature table : ℕ) → Bytes → Bool
unfolding has_signature acpi_checksum_valid
is_table signature table m =
    has_signature table signature 4 m && acpi_checksum_valid table (u32_at m (table + 4)) m

pub set_available : Acpi × Paging → Acpi × Paging
set_available (a, k) = (record a { acpi_available = true }, k)

module _ (memory : Bytes) where
  -- `for (i = 0; i < entry_count; i++)`, at index `i` with `left` rounds to go.
  pub table_loop : (signature : ℕ) (entry : ℕ → ℕ) (left i : ℕ) → Paging → ℕ × Paging
  unfolding acpi_map_physical_to_virtual is_table
  table_loop signature entry zero i k = (0, k)
  table_loop signature entry (suc left) i k =
      let r = acpi_map_physical_to_virtual (entry i) k in
      let rest = table_loop signature entry left (i + 1) r.1 in
      if r.0 == 0 then rest else (if is_table signature r.0 memory then r else rest)

  -- `header.length - sizeof(struct acpi_sdt_header)`, on 64 bits.
  pub entry_bytes : (table : ℕ) → ℕ
  entry_bytes table = sub64 (u32_at memory (table + 4)) 36

  pub xsdt_entry : (xsdt i : ℕ) → ℕ
  xsdt_entry xsdt i = u64_at memory (xsdt + 36 + 8 * i)

  pub rsdt_entry : (rsdt i : ℕ) → ℕ
  rsdt_entry rsdt i = u32_at memory (rsdt + 36 + 4 * i)

  pub acpi_find_table : (signature : ℕ) → Acpi → Paging → ℕ × Paging
  unfolding table_loop entry_bytes xsdt_entry rsdt_entry
  acpi_find_table signature a k =
      if not a.acpi_available
      then (0, k)
      else (if a.use_xsdt && not (a.xsdt == 0)
          then table_loop signature (xsdt_entry a.xsdt) (entry_bytes a.xsdt / 8) 0 k
          else (if not (a.rsdt == 0)
              then table_loop signature (rsdt_entry a.rsdt) (u32 (entry_bytes a.rsdt / 4)) 0 k
              else (0, k)))

  pub find_madt : (madt_signature : ℕ) → Acpi × Paging → Acpi × Paging
  unfolding acpi_find_table
  find_madt madt_signature (a, k) =
      let r = acpi_find_table madt_signature a k in (record a { madt = r.0 }, r.1)

  pub find_fadt : (fadt_signature : ℕ) → Acpi × Paging → Acpi × Paging
  unfolding acpi_find_table
  find_fadt fadt_signature (a, k) =
      let r = acpi_find_table fadt_signature a k in (record a { fadt = r.0 }, r.1)

  -- The four searches of `acpi_init`; the first two come before `acpi_available` is set.
  pub find_tables : (fadt_signature madt_signature : ℕ) → Acpi × Paging → Acpi × Paging
  unfolding find_madt find_fadt set_available
  find_tables fadt_signature madt_signature s = find_fadt fadt_signature (
      find_madt madt_signature
        (set_available (find_madt madt_signature (find_fadt fadt_signature s))))

  -- The root table of the ACPI that `rsdp` describes: its revision is at 15, the addresses of the
  -- two root tables at 16 and 24.
  pub root_table : (fadt_signature madt_signature : ℕ) → Acpi → Paging → Acpi × Paging
  unfolding find_tables acpi_map_physical_to_virtual
  root_table fadt_signature madt_signature a k =
      let xsdt_address = u64_at memory (a.rsdp + 24) in
      let x = acpi_map_physical_to_virtual xsdt_address k in
      let r = acpi_map_physical_to_virtual (u32_at memory (a.rsdp + 16)) k in
      if leb 2 (memory (a.rsdp + 15)) && not (xsdt_address == 0)
      then find_tables fadt_signature madt_signature
          (record a { xsdt = x.0; use_xsdt = if x.0 == 0 then a.use_xsdt else true }, x.1)
      else (if r.0 == 0
          then (record a { rsdt = 0 }, r.1)
          else find_tables fadt_signature madt_signature
              (record a { rsdt = r.0; use_xsdt = false }, r.1))

  -- Twenty bytes in the first revision, and else the length that is at 20.
  pub rsdp_length : (rsdp : ℕ) → ℕ
  rsdp_length rsdp = if memory (rsdp + 15) == 0 then 20 else u32_at memory (rsdp + 20)

  -- What `acpi_init` does once the RSDP is mapped.
  pub check_rsdp :
      (rsdp_signature fadt_signature madt_signature : ℕ) → Acpi → Paging → Acpi × Paging
  unfolding root_table rsdp_length has_signature acpi_checksum_valid
  check_rsdp rsdp_signature fadt_signature madt_signature a k =
      if not (has_signature a.rsdp rsdp_signature 8 memory)
      then (a, k)
      else (if not (acpi_checksum_valid a.rsdp (rsdp_length a.rsdp) memory)
          then (a, k)
          else root_table fadt_signature madt_signature a k)

  -- The signatures are the addresses of the three string literals; the address of the RSDP is what
  -- the bootloader answers, `none` for no response.
  pub acpi_init :
      (rsdp_signature fadt_signature madt_signature : ℕ) (hhdm_response rsdp_response : Option ℕ)
      → Acpi
      → Paging
      → Acpi × Paging
  unfolding check_rsdp acpi_map_physical_to_virtual
  acpi_init rsdp_signature fadt_signature madt_signature none rsdp_response a k = (a, k)
  acpi_init rsdp_signature fadt_signature madt_signature (some offset) none a k = (a, k)
  acpi_init rsdp_signature fadt_signature madt_signature (some offset) (some address) a k =
      let r = acpi_map_physical_to_virtual address k in
      if address == 0
      then (a, k)
      else (if r.0 == 0
          then (a, r.1)
          else check_rsdp rsdp_signature fadt_signature madt_signature (record a { rsdp = r.0 })
              r.1)

  -- The command port is at 48 of the FADT, the byte that switches ACPI on at 52, and the port of
  -- the control register at 64, from which the type of the sleep is taken as well.
  pub acpi_shutdown : Acpi → Trace → Trace
  acpi_shutdown a t =
      let smi_cmd = u32_at memory (a.fadt + 48) in
      let acpi_enable = memory (a.fadt + 52) in
      let pm1a_cnt_blk = u32_at memory (a.fadt + 64) in
      if a.fadt == 0 || smi_cmd == 0 || acpi_enable == 0
      then t
      else outw (u16 pm1a_cnt_blk) (bit_or (bit_and (pm1a_cnt_blk >>> 10) 0x7) (1 <<< 13))
        ∷ outb (u16 smi_cmd) acpi_enable
        ∷ t

-- The command that resets the processor, once the keyboard controller is ready for it.
pub acpi_reboot : Trace → Trace
acpi_reboot t = outb 0x64 0xFE ∷ t
