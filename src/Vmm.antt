-- ===== src/Vmm.antt =====
-- kernel/src/memory/vmm.c: address spaces of their own. A `vmm_space_t` is a record at the address
-- that `kmalloc` gives for it, 0 is NULL, and `none` means that the heap's search ran out of fuel.
pub mod Maps
pub mod Create
mod Examples
use deer.Base.{
  ℕ, zero, suc, ◌+◌, ◌-◌, ◌*◌, ◌/◌, ◌^◌, bit_and, bit_or, Bool, true, false, not, Option, none,
  some, ◌==◌, if◌then◌else◌, u64, sub64, update,
}
use deer.Pmm.{Pmm, pmm_alloc_page, pmm_free_page}
use deer.Heap.{Heap, kmalloc, kfree}
use deer.Paging.{
  Paging, paging_present, paging_writable, frame_mask, entry_at, is_present, table_of, clear_page,
  new_table, paging_load_cr3, pml4_index, pdp_index, pd_index, pt_index,
}

abbrev pub paging_user : ℕ
paging_user = 4

-- `vmm_space_t`
pub record Space : Type 0 where
  pub pml4 : ℕ
  pub hhdm_offset : ℕ

-- The static variables, and the state that the calls change.
pub record Vmm : Type 0 where
  pub kernel_space : Space
  pub hhdm_offset : ℕ
  pub paging : Paging
  pub heap : Heap
  pub spaces : ℕ → Space

unfoldable pub vmm_init : (hhdm_response : Option ℕ) → Vmm → Vmm
vmm_init none k = k
vmm_init (some offset) k = record k {
  hhdm_offset = offset;
  kernel_space = record { pml4 = u64 (k.paging.cr3 + offset); hhdm_offset = offset };
}

-- `phys | PAGING_PRESENT | PAGING_WRITABLE | (flags & PAGING_USER ? PAGING_USER : 0)`
pub user_entry : (flags phys : ℕ) → ℕ
user_entry flags phys =
    bit_or (bit_or (bit_or phys paging_present) paging_writable)
      (if not (bit_and flags paging_user == 0) then paging_user else 0)

-- One level of `vmm_map_page`; `none` when there is no page for a new table.
pub vmm_next : (flags offset current index : ℕ) → Paging → Option ℕ × Paging
unfolding user_entry
vmm_next flags offset current index k =
    let r = new_table (user_entry flags) offset current index k in
    if not (is_present (entry_at k.words current index))
    then (if (pmm_alloc_page k.pmm).0 == 0 then (none, r.1) else (some r.0, r.1))
    else (some (table_of offset (entry_at k.words current index)), k)

pub vmm_then : (flags offset index : ℕ) → Option ℕ × Paging → Option ℕ × Paging
unfolding vmm_next
vmm_then flags offset index (none, k) = (none, k)
vmm_then flags offset index (some table, k) = vmm_next flags offset table index k

pub vmm_store : (virtual_addr entry : ℕ) → Option ℕ × Paging → Bool × Paging
vmm_store virtual_addr entry (none, k) = (false, k)
vmm_store virtual_addr entry (some pt, k) =
    (true, record k { words = update k.words (pt + 8 * pt_index virtual_addr) entry })

-- `vmm_map_page` on the root table of a space.
pub vmm_map_root : (offset pml4 virtual_addr physical_addr flags : ℕ) → Paging → Bool × Paging
unfolding vmm_store vmm_then vmm_next
vmm_map_root offset pml4 virtual_addr physical_addr flags k =
    vmm_store virtual_addr (bit_or (bit_or physical_addr flags) paging_present) (
      vmm_then flags offset (pd_index virtual_addr) (
        vmm_then flags offset (pdp_index virtual_addr)
          (vmm_next flags offset pml4 (pml4_index virtual_addr) k)))

pub vmm_map_page : (space virtual_addr physical_addr flags : ℕ) → Vmm → Bool × Vmm
unfolding vmm_map_root
vmm_map_page space virtual_addr physical_addr flags k =
    let r =
      vmm_map_root k.hhdm_offset (k.spaces space).pml4 virtual_addr physical_addr flags k.paging in
    if space == 0 then (false, k) else (r.0, record k { paging = r.1 })

-- `for (i = 256; i < 512; i++)`, from `i` on with `left` rounds to go.
pub copy_entries : (left i to from : ℕ) → (ℕ → ℕ) → ℕ → ℕ
copy_entries zero i to from words = words
copy_entries (suc left) i to from words =
    copy_entries left (i + 1) to from (update words (to + 8 * i) (entry_at words from i))

pub vmm_map_kernel : (space : ℕ) → Vmm → Vmm
unfolding copy_entries
vmm_map_kernel space k = record k {
  paging = record k.paging {
    words = copy_entries 256 256 (k.spaces space).pml4 k.kernel_space.pml4 k.paging.words;
  };
}

-- `vmm_create_space` once its root page is there, by what `kmalloc(sizeof(vmm_space_t))` gives.
pub create_with : (pml4_phys : ℕ) → Vmm → Option (ℕ × Heap) → Option (ℕ × Vmm)
unfolding vmm_map_kernel
create_with pml4_phys k none = none
create_with pml4_phys k (some (space, heap)) =
    let pml4 = u64 (pml4_phys + k.hhdm_offset) in
    let made = record k {
      heap = heap;
      spaces = update k.spaces space (record { pml4 = pml4; hhdm_offset = k.hhdm_offset });
      paging = record k.paging { words = clear_page pml4 k.paging.words };
    } in
    if space == 0
    then some (
      0,
      record k {
        heap = heap;
        paging = record k.paging { pmm = pmm_free_page pml4_phys k.paging.pmm };
      },
    )
    else some (space, vmm_map_kernel space made)

pub vmm_create_space : Vmm → Option (ℕ × Vmm)
unfolding create_with
vmm_create_space k =
    let r = pmm_alloc_page k.paging.pmm in
    let k' = record k { paging = record k.paging { pmm = r.1 } } in
    if r.0 == 0 then some (0, k') else create_with r.0 k' (kmalloc 16 k'.heap)

pub vmm_switch_space : (space : ℕ) → Vmm → Vmm
vmm_switch_space space k =
    if space == 0
    then k
    else record k { paging = paging_load_cr3 (sub64 (k.spaces space).pml4 k.hhdm_offset) k.paging }

-- The loops of `vmm_destroy_space` over a table at depth `depth` above the pages: from index `i` on
-- with `left` rounds to go, every frame that a present entry names is given back, those of the
-- table below it first.
pub free_below : (depth offset left i table : ℕ) → (ℕ → ℕ) → Pmm → Pmm
free_below depth offset zero i table words s = s
free_below zero offset (suc left) i table words s =
    free_below zero offset left (i + 1) table words (
      if is_present (entry_at words table i)
      then pmm_free_page (bit_and (entry_at words table i) frame_mask) s
      else s)
free_below (suc depth) offset (suc left) i table words s =
    free_below (suc depth) offset left (i + 1) table words (
      if is_present (entry_at words table i)
      then pmm_free_page (bit_and (entry_at words table i) frame_mask)
          (free_below depth offset 512 0 (table_of offset (entry_at words table i)) words s)
      else s)

pub vmm_destroy_space : (space : ℕ) → Vmm → Vmm
unfolding free_below
vmm_destroy_space space k =
    let pml4 = (k.spaces space).pml4 in
    if space == 0 then k else record k {
      paging = record k.paging {
        pmm =
            pmm_free_page (sub64 pml4 k.hhdm_offset)
              (free_below 3 k.hhdm_offset 256 0 pml4 k.paging.words k.paging.pmm);
      };
      heap = kfree space k.heap;
    }
