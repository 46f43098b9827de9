-- ===== src/Pmm.antt =====
-- kernel/src/memory/pmm.c: the physical page allocator, a bitmap over the pages below the highest
-- usable address. Serial messages are left out. The bitmap's bytes are a map from offset to byte,
-- since the pages that hold it are marked used and written by this file alone.
pub mod Bitmap
pub mod Search
pub mod Count
pub mod Loops
pub mod Free
pub mod Ledger
pub mod Safety
pub mod Sample
mod Examples
pub mod Alloc
pub mod Init
use deer.Base.{
  ℕ, zero, suc, ◌+◌, ◌-◌, ◌*◌, ◌/◌, ◌%◌, ◌^◌, bit_and, bit_or, Bool, true, false, ◌&&◌, ◌||◌, not,
  Option, none, some, List, [], ◌∷◌, ltb, leb, ◌==◌, if◌then◌else◌, u64, sub64, ◌<<<◌, update,
}

-- The fields of the bootloader's `struct limine_memmap_entry` that the code reads. `usable` is the
-- test `entry->type == LIMINE_MEMMAP_USABLE`.
pub record Entry : Type 0 where
  pub base : ℕ
  pub length : ℕ
  pub usable : Bool

-- The static variables. `bitmap` is an address, 0 for NULL, and `bytes` what stands there.
pub record Pmm : Type 0 where
  pub current_memmap : Option (List Entry)
  pub current_hhdm : Option ℕ
  pub bitmap : ℕ
  pub bytes : ℕ → ℕ
  pub bitmap_size : ℕ
  pub total_pages : ℕ
  pub used_pages : ℕ
  pub total_memory : ℕ

abbrev pub page_size : ℕ
page_size = 0x1000

-- `(uint64_t)-1`
abbrev pub not_found : ℕ
not_found = 2 ^ 64 - 1

-- The static initialisers.
abbrev pub pmm_zero : Pmm
pmm_zero = record {
  current_memmap = none;
  current_hhdm = none;
  bitmap = 0;
  bytes = λ _. 0;
  bitmap_size = 0;
  total_pages = 0;
  used_pages = 0;
  total_memory = 0;
}

unfoldable pub bitmap_set : ℕ → Pmm → Pmm
bitmap_set bit s =
    let byte = bit / 8 in
    let offset = bit % 8 in
    record s {
      bytes = update s.bytes byte (bit_or (s.bytes byte) (1 <<< offset));
      used_pages = u64 (s.used_pages + 1);
    }

-- `~(1 << offset)` is -1 - 2 ^ offset as an int; a byte under it is the byte under 255 - 2 ^ offset.
pub bitmap_clear : ℕ → Pmm → Pmm
bitmap_clear bit s =
    let byte = bit / 8 in
    let offset = bit % 8 in
    record s {
      bytes = update s.bytes byte (bit_and (s.bytes byte) (255 - (1 <<< offset)));
      used_pages = sub64 s.used_pages 1;
    }

unfoldable pub bitmap_test : ℕ → Pmm → Bool
bitmap_test bit s = not (bit_and (s.bytes (bit / 8)) (1 <<< (bit % 8)) == 0)

-- The loop over `j` in `find_free_pages`.
unfoldable pub page_usable : List Entry → ℕ → Bool
page_usable [] page_addr = false
page_usable (entry ∷ entries) page_addr =
    (entry.usable && (leb entry.base page_addr && ltb page_addr (u64 (entry.base + entry.length))))
    || page_usable entries page_addr

-- The entries of `current_memmap`. The code reads them only with a bitmap, hence with a memory map.
abbrev pub memmap_entries : Pmm → List Entry
memmap_entries s = elim s.current_memmap [ none ↦ [] | some entries ↦ entries ]

unfoldable pub page_free : Pmm → ℕ → Bool
page_free s i = not (bitmap_test i s) && page_usable (memmap_entries s) (u64 (i * page_size))

-- The loop over `i` in `find_free_pages`, with `left` rounds to go.
unfoldable pub find_loop : Pmm → (count left i consecutive start_page : ℕ) → ℕ
find_loop s count zero i consecutive start_page = not_found
find_loop s count (suc left) i consecutive start_page =
    let start = if consecutive == 0 then i else start_page in
    let extended = find_loop s count left (i + 1) (consecutive + 1) start in
    let restarted = find_loop s count left (i + 1) 0 start_page in
    if page_free s i then (if consecutive + 1 == count then start else extended) else restarted

unfoldable pub find_free_pages : ℕ → Pmm → ℕ
find_free_pages count s = find_loop s count (s.total_pages - 1) 1 0 0

-- The loop of `pmm_alloc_pages`, at index `i` with `left` rounds to go.
unfoldable pub set_loop : (start left i : ℕ) → Pmm → Pmm
set_loop start zero i s = s
set_loop start (suc left) i s = set_loop start left (i + 1) (bitmap_set (u64 (start + i)) s)

unfoldable pub pmm_alloc_pages : ℕ → Pmm → ℕ × Pmm
pmm_alloc_pages count s =
    if s.bitmap == 0
    then (0, s)
    else (let start = find_free_pages count s in
        if start == not_found then (0, s) else (u64 (start * page_size), set_loop start count 0 s))

unfoldable pub pmm_alloc_page : Pmm → ℕ × Pmm
pmm_alloc_page s = pmm_alloc_pages 1 s

-- The loop of `pmm_free_pages`.
pub clear_loop : (start left i : ℕ) → Pmm → Pmm
clear_loop start zero i s = s
clear_loop start (suc left) i s =
    let page = u64 (start + i) in
    clear_loop start left (i + 1) (if ltb page s.total_pages then bitmap_clear page s else s)

pub pmm_free_pages : (page count : ℕ) → Pmm → Pmm
pmm_free_pages page count s = if s.bitmap == 0 then s else clear_loop (page / page_size) count 0 s

pub pmm_free_page : ℕ → Pmm → Pmm
pmm_free_page page s = pmm_free_pages page 1 s

pub pmm_get_total_memory : Pmm → ℕ
pmm_get_total_memory s = u64 (s.total_pages * page_size)

pub pmm_get_free_memory : Pmm → ℕ
pmm_get_free_memory s = u64 (sub64 s.total_pages s.used_pages * page_size)

pub pmm_get_used_memory : Pmm → ℕ
pmm_get_used_memory s = u64 (s.used_pages * page_size)

-- The local variables of the first loop of `pmm_init`.
pub record Survey : Type 0 where
  pub memory : ℕ
  pub highest_addr : ℕ
  pub largest_base : ℕ
  pub largest_size : ℕ

pub survey_entry : Entry → Survey → Survey
survey_entry entry v =
    let end = u64 (entry.base + entry.length) in
    let larger = entry.usable && ltb v.largest_size entry.length in
    record {
      memory = u64 (v.memory + entry.length);
      highest_addr = if entry.usable && ltb v.highest_addr end then end else v.highest_addr;
      largest_base = if larger then entry.base else v.largest_base;
      largest_size = if larger then entry.length else v.largest_size;
    }

pub survey : List Entry → Survey → Survey
survey [] v = v
survey (entry ∷ entries) v = survey entries (survey_entry entry v)

-- `for (page = start; page < end; page++) if (page < total_pages) bitmap_set(page)`, with
-- `end - start` rounds to go.
pub mark_range : (left page : ℕ) → Pmm → Pmm
mark_range zero page s = s
mark_range (suc left) page s =
    mark_range left (page + 1) (if ltb page s.total_pages then bitmap_set page s else s)

pub mark_unusable : List Entry → Pmm → Pmm
mark_unusable [] s = s
mark_unusable (entry ∷ entries) s =
    let start = entry.base / page_size in
    let end = u64 (entry.base + entry.length + page_size - 1) / page_size in
    mark_unusable entries (if entry.usable then s else mark_range (end - start) start s)

-- From the survey on: the sizes, the cleared bitmap, and the pages marked used.
pub set_up_bitmap : List Entry → (offset : ℕ) → Survey → Pmm → Pmm
set_up_bitmap entries offset v s =
    let total = v.highest_addr / page_size in
    let size = u64 (total + 7) / 8 in
    let cleared : Pmm = record s {
      total_memory = v.memory;
      total_pages = total;
      bitmap_size = size;
      bitmap = u64 (v.largest_base + offset);
      bytes = λ b. if ltb b size then 0 else s.bytes b;
    } in
    let bitmap_start = v.largest_base / page_size in
    let bitmap_end = u64 (v.largest_base + size + page_size - 1) / page_size in
    mark_range (bitmap_end - bitmap_start) bitmap_start (mark_unusable entries cleared)

-- What follows the two assignments of `pmm_init`.
init_with : Option (List Entry) → Option ℕ → Pmm → Pmm
init_with none hhdm s = s
init_with (some entries) none s = s
init_with (some entries) (some offset) s =
    set_up_bitmap entries offset
      (survey entries
        (record { memory = s.total_memory; highest_addr = 0; largest_base = 0; largest_size = 0 }))
      s

pub pmm_init : Option (List Entry) → Option ℕ → Pmm → Pmm
unfolding init_with
pmm_init memmap hhdm s =
    init_with memmap hhdm (record s { current_memmap = memmap; current_hhdm = hhdm })
