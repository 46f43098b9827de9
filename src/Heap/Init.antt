-- ===== src/Heap/Init.antt =====
-- kernel/src/memory/heap.c: `heap_init` gives the heap its pages, through the allocator of pages and
-- the page tables, and sets up the first block.
pub mod Pages
mod Examples
use deer.Base.{ℕ, zero, suc, ◌+◌, ◌*◌, bit_or, Bool, true, false, ◌==◌, if◌then◌else◌}
use deer.Pmm.{pmm_alloc_page, pmm_free_page}
use deer.Paging.{Paging, page_size_4k, paging_present, paging_writable, paging_map_page}
use deer.Heap.{Heap, heap_start, set_up_heap}

-- `HEAP_INITIAL_SIZE / PAGE_SIZE_4K`
abbrev pub initial_pages : ℕ
initial_pages = 256

-- `for (i = 0; i < initial_pages; i++)`, at page `i` with `left` rounds to go: whether all of them
-- got their pages.
pub map_loop : (left i : ℕ) → Paging → Bool × Paging
map_loop zero i k = (true, k)
map_loop (suc left) i k =
    let r = pmm_alloc_page k.pmm in
    let m =
      paging_map_page (heap_start + i * page_size_4k) r.0 (bit_or paging_present paging_writable)
        (record k { pmm = r.1 }) in
    let rest = map_loop left (i + 1) m.1 in
    if r.0 == 0
    then (false, record k { pmm = r.1 })
    else (if m.0 then rest else (false, record m.1 { pmm = pmm_free_page r.0 m.1.pmm }))

-- The stores to `kernel_heap` come only behind the whole loop.
pub heap_init : Heap → Paging → Heap × Paging
unfolding map_loop
heap_init h k = let r = map_loop initial_pages 0 k in (if r.0 then set_up_heap h else h, r.1)
