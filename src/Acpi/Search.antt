-- ===== src/Acpi/Search.antt =====
-- The search of `acpi_find_table` in kernel/src/sys/acpi.c.
use deer.Base.{ℕ, ◌/◌, ◌<◌, ◌≤◌, ◌≡◌, ◌≢◌, ◌⊎◌, bit_and, true, ◌&&◌, not, ◌==◌, if◌then◌else◌, u32}
use deer.Memory.{Bytes}
use deer.Paging.{Paging, frame_mask, paging_is_mapped, paging_physical_to_virtual}
use deer.Acpi.{Acpi, entry_bytes, xsdt_entry, rsdt_entry}
use deer.Acpi.Checks.{IsTable}

-- The entry of a root table is empty, or its page is mapped.
abbrev pub IsMapped : Paging → (physical_addr : ℕ) → Type 0
IsMapped k p =
    (p ≡ 0) ⊎ (paging_is_mapped (bit_and (paging_physical_to_virtual p k) frame_mask) k ≡ true)

-- Where the kernel looks for a table.
abbrev pub address_of : Paging → (physical_addr : ℕ) → ℕ
address_of k p = if p == 0 then 0 else paging_physical_to_virtual p k

-- No table at an address.
abbrev pub Skipped : (signature address : ℕ) → Bytes → Type 0
Skipped signature address memory = (address ≡ 0) ⊎ ¬ IsTable signature address memory

-- The outcome of a linear search among the addresses from index `i` up to `n`.
pub Found : (signature : ℕ) (address : ℕ → ℕ) (i n found : ℕ) → Bytes → Type 0
Found signature address i n found memory =
    ((found ≡ 0) × ((j : ℕ) → i ≤ j → j < n → Skipped signature (address j) memory))
    ⊎ ((j : ℕ) × (i ≤ j)
        × (j < n)
        × (found ≡ address j)
        × (found ≢ 0)
        × IsTable signature found memory
        × ((l : ℕ) → i ≤ l → l < j → Skipped signature (address l) memory))

-- The entries of the root table that is in use, and their number.
unfoldable pub root_entry : Bytes → Acpi → ℕ → ℕ
root_entry memory a i =
    if a.use_xsdt && not (a.xsdt == 0)
    then xsdt_entry memory a.xsdt i
    else rsdt_entry memory a.rsdt i

unfoldable pub root_count : Bytes → Acpi → ℕ
root_count memory a =
    if a.use_xsdt && not (a.xsdt == 0)
    then entry_bytes memory a.xsdt / 8
    else (if not (a.rsdt == 0) then u32 (entry_bytes memory a.rsdt / 4) else 0)
