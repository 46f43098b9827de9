-- ===== src/Paging.antt =====
-- kernel/src/memory/paging.c: the four levels of page tables. `words` is the memory that the kernel
-- sees at the bootloader's direct map, a word of 64 bits at each address that is a multiple of 8;
-- cr3 and the log of `invlpg` belong to the processor. Messages are left out.
pub mod Tree
pub mod Grow
pub mod Store
pub mod Space
pub mod Walk
pub mod Maps
pub mod Reads
pub mod Unmap
pub mod Faults
pub mod Sample
mod Examples
use deer.Base.{
  ℕ, ◌+◌, ◌-◌, ◌*◌, ◌/◌, ◌^◌, bit_and, bit_or, Bool, true, false, ◌&&◌, not, Option, none, some,
  List, [], ◌∷◌, ltb, leb, ◌==◌, if◌then◌else◌, u64, sub64, ◌>>>◌, update,
}
use deer.Pmm.{Pmm, pmm_alloc_page, pmm_free_page}
use deer.Heap.{heap_start, heap_max_size}

-- `current_hhdm_response` with its offset, `none` for NULL, and what the code changes elsewhere.
pub record Paging : Type 0 where
  pub hhdm : Option ℕ
  pub pmm : Pmm
  pub words : ℕ → ℕ
  pub cr3 : ℕ
  pub invalidated : List ℕ

abbrev pub paging_present : ℕ
paging_present = 1

abbrev pub paging_writable : ℕ
paging_writable = 2

abbrev pub page_size_4k : ℕ
page_size_4k = 0x1000

-- `~0xFFF`, an int that is widened with its sign.
abbrev pub frame_mask : ℕ
frame_mask = 2 ^ 64 - 0x1000

unfoldable pub paging_init : (hhdm_response : Option ℕ) → Paging → Paging
paging_init hhdm_response k = record k { hhdm = hhdm_response }

pub paging_load_cr3 : ℕ → Paging → Paging
paging_load_cr3 cr3_value k = record k { cr3 = cr3_value }

pub paging_invalidate_tlb : ℕ → Paging → Paging
paging_invalidate_tlb virtual_addr k = record k { invalidated = virtual_addr ∷ k.invalidated }

-- `table->entries[index]`
abbrev pub entry_at : (words : ℕ → ℕ) (table index : ℕ) → ℕ
entry_at words table index = words (table + 8 * index)

abbrev pub is_present : ℕ → Bool
is_present entry = not (bit_and entry paging_present == 0)

-- `(page_table_t*)((entry & ~0xFFF) + offset)`
abbrev pub table_of : (offset entry : ℕ) → ℕ
table_of offset entry = u64 (bit_and entry frame_mask + offset)

-- `memset(page, 0, PAGE_SIZE_4K)`
abbrev pub clear_page : (page : ℕ) → (ℕ → ℕ) → ℕ → ℕ
clear_page page words a = if leb page a && ltb a (page + page_size_4k) then 0 else words a

-- A page from the allocator becomes an empty table, and `entry` of its address is stored in
-- `current->entries[index]`; 0 is NULL.
pub new_table : (entry : ℕ → ℕ) (offset current index : ℕ) → Paging → ℕ × Paging
new_table entry offset current index k =
    let r = pmm_alloc_page k.pmm in
    let phys = r.0 in
    let next = u64 (phys + offset) in
    if phys == 0 then (0, record k { pmm = r.1 }) else (
      next,
      record k {
        pmm = r.1;
        words = update (clear_page next k.words) (current + 8 * index) (entry phys);
      },
    )

-- `phys | PAGING_PRESENT | PAGING_WRITABLE`
abbrev pub table_entry : ℕ → ℕ
table_entry phys = bit_or (bit_or phys paging_present) paging_writable

pub get_next_table : (offset current index : ℕ) (create : Bool) → Paging → ℕ × Paging
unfolding new_table
get_next_table offset current index create k =
    if is_present (entry_at k.words current index)
    then (table_of offset (entry_at k.words current index), k)
    else (if not create then (0, k) else new_table table_entry offset current index k)

-- `(virtual_addr >> 39) & 0x1FF` and the lower indices.
abbrev pub pml4_index : ℕ → ℕ
pml4_index virtual_addr = bit_and (virtual_addr >>> 39) 0x1FF

abbrev pub pdp_index : ℕ → ℕ
pdp_index virtual_addr = bit_and (virtual_addr >>> 30) 0x1FF

abbrev pub pd_index : ℕ → ℕ
pd_index virtual_addr = bit_and (virtual_addr >>> 21) 0x1FF

abbrev pub pt_index : ℕ → ℕ
pt_index virtual_addr = bit_and (virtual_addr >>> 12) 0x1FF

-- `if (!table) return false`, and the table below otherwise.
pub then_next : (offset index : ℕ) (create : Bool) → ℕ × Paging → ℕ × Paging
unfolding get_next_table
then_next offset index create (table, k) =
    if table == 0 then (0, k) else get_next_table offset table index create k

-- The page table that is in charge of an address, from the root table at `pml4`.
pub page_table : (offset pml4 virtual_addr : ℕ) (create : Bool) → Paging → ℕ × Paging
unfolding then_next get_next_table
page_table offset pml4 virtual_addr create k = then_next offset (pd_index virtual_addr) create (
    then_next offset (pdp_index virtual_addr) create
      (get_next_table offset pml4 (pml4_index virtual_addr) create k))

-- The end of `paging_map_page`.
pub store_entry : (virtual_addr entry : ℕ) → ℕ × Paging → Bool × Paging
unfolding paging_invalidate_tlb
store_entry virtual_addr entry (pt, k) = if pt == 0 then (false, k) else (
  true,
  paging_invalidate_tlb virtual_addr
      (record k { words = update k.words (pt + 8 * pt_index virtual_addr) entry }),
)

-- `paging_map_page`, by the response of the bootloader.
pub map_at : (virtual_addr physical_addr flags : ℕ) → Paging → Option ℕ → Bool × Paging
unfolding store_entry page_table
map_at virtual_addr physical_addr flags k none = (false, k)
map_at virtual_addr physical_addr flags k (some offset) =
    store_entry virtual_addr (bit_or (bit_or physical_addr flags) paging_present)
      (page_table offset (u64 (k.cr3 + offset)) virtual_addr true k)

pub paging_map_page : (virtual_addr physical_addr flags : ℕ) → Paging → Bool × Paging
unfolding map_at
paging_map_page virtual_addr physical_addr flags k =
    map_at virtual_addr physical_addr flags k k.hhdm

-- The end of `paging_unmap_page`.
pub clear_entry : (virtual_addr : ℕ) → ℕ × Paging → Bool × Paging
unfolding paging_invalidate_tlb
clear_entry virtual_addr (pt, k) =
    let entry = entry_at k.words pt (pt_index virtual_addr) in
    if pt == 0
    then (false, k)
    else (if is_present entry
        then (
          true,
          paging_invalidate_tlb virtual_addr (record k {
            pmm = pmm_free_page (bit_and entry frame_mask) k.pmm;
            words = update k.words (pt + 8 * pt_index virtual_addr) 0;
          }),
        )
        else (false, k))

pub unmap_at : (virtual_addr : ℕ) → Paging → Option ℕ → Bool × Paging
unfolding clear_entry page_table
unmap_at virtual_addr k none = (false, k)
unmap_at virtual_addr k (some offset) =
    clear_entry virtual_addr (page_table offset (u64 (k.cr3 + offset)) virtual_addr false k)

pub paging_unmap_page : (virtual_addr : ℕ) → Paging → Bool × Paging
unfolding unmap_at
paging_unmap_page virtual_addr k = unmap_at virtual_addr k k.hhdm

-- One level of `paging_is_mapped` and `paging_get_physical_address`: no entry, no table, or `next`.
abbrev pub read_level {ℓ} : {A : Type ℓ} (offset table index : ℕ) → Paging → A → (ℕ → A) → A
read_level offset table index k absent next =
    let below = (get_next_table offset table index false k).0 in
    if not (is_present (entry_at k.words table index))
    then absent
    else (if below == 0 then absent else next below)

unfoldable pub is_mapped_at : (virtual_addr : ℕ) → Paging → Option ℕ → Bool
unfolding get_next_table
is_mapped_at virtual_addr k none = false
is_mapped_at virtual_addr k (some offset) =
    read_level offset (u64 (k.cr3 + offset)) (pml4_index virtual_addr) k false (λ pdp.
      read_level offset pdp (pdp_index virtual_addr) k false (λ pd.
        read_level offset pd (pd_index virtual_addr) k false
          (λ pt. is_present (entry_at k.words pt (pt_index virtual_addr)))))

unfoldable pub paging_is_mapped : (virtual_addr : ℕ) → Paging → Bool
unfolding is_mapped_at
paging_is_mapped virtual_addr k = is_mapped_at virtual_addr k k.hhdm

pub physical_at : (virtual_addr : ℕ) → Paging → Option ℕ → ℕ
unfolding get_next_table
physical_at virtual_addr k none = 0
physical_at virtual_addr k (some offset) =
    if leb offset virtual_addr
    then virtual_addr - offset
    else read_level offset (u64 (k.cr3 + offset)) (pml4_index virtual_addr) k 0 (λ pdp.
      read_level offset pdp (pdp_index virtual_addr) k 0 (λ pd.
        read_level offset pd (pd_index virtual_addr) k 0 (λ pt.
          if not (is_present (entry_at k.words pt (pt_index virtual_addr)))
          then 0
          else bit_and (entry_at k.words pt (pt_index virtual_addr)) frame_mask)))

pub paging_get_physical_address : (virtual_addr : ℕ) → Paging → ℕ
unfolding physical_at
paging_get_physical_address virtual_addr k = physical_at virtual_addr k k.hhdm

unfoldable pub paging_physical_to_virtual : (physical_addr : ℕ) → Paging → ℕ
paging_physical_to_virtual physical_addr k = elim k.hhdm [
  | none ↦ physical_addr
  | some offset ↦ u64 (physical_addr + offset)
]

pub paging_virtual_to_physical : (virtual_addr : ℕ) → Paging → ℕ
paging_virtual_to_physical virtual_addr k = paging_get_physical_address virtual_addr k

-- `memset((void*)page, 0, PAGE_SIZE_4K)` through the mapping: the processor finds the frame by the
-- entry of the page, and the words of that frame stand at the direct map.
pub zero_mapped : (page : ℕ) → Paging → Option ℕ → Paging
unfolding page_table
zero_mapped page k none = k
zero_mapped page k (some offset) =
    let pt = (page_table offset (u64 (k.cr3 + offset)) page false k).0 in
    record k { words = clear_page (table_of offset (entry_at k.words pt (pt_index page))) k.words }

-- The fault handler once a frame is there: it maps and clears the page, or halts.
pub fault_map : (page_base phys : ℕ) → Paging → Option Paging
unfolding paging_map_page zero_mapped
fault_map page_base phys k =
    let r = paging_map_page page_base phys (bit_or paging_present paging_writable) k in
    if phys == 0 then none else (if r.0 then some (zero_mapped page_base r.1 r.1.hhdm) else none)

-- `none` when the handler prints the fault and halts. `fault_address` is cr2.
pub handle_page_fault : (error_code fault_address : ℕ) → Paging → Option Paging
unfolding fault_map
handle_page_fault error_code fault_address k =
    let r = pmm_alloc_page k.pmm in
    if bit_and error_code 1 == 0
      && (leb heap_start fault_address && ltb fault_address (heap_start + heap_max_size))
    then fault_map (bit_and fault_address frame_mask) r.0 (record k { pmm = r.1 })
    else none
