-- ===== src/Paging/Examples.antt =====
-- Mapping, unmapping and faults in the address space of the test data.
use deer.Base.{◌+◌, ◌≡◌, ◌≢◌, refl, arith, bit_and, bit_or, true, false, some, u64}
use deer.Pmm.{
  pmm_alloc_page, pmm_alloc_pages, find_free_pages, find_loop, page_free, bitmap_test, page_usable,
  set_loop, bitmap_set,
}
use deer.Heap.{heap_start}
use deer.Paging.{
  Paging, frame_mask, new_table, get_next_table, then_next, page_table, store_entry, map_at,
  paging_map_page, paging_invalidate_tlb, paging_unmap_page, paging_is_mapped,
  paging_get_physical_address, handle_page_fault,
}
use deer.Paging.Sample.{offset, pages, empty, empty-IsSpace}
use deer.Paging.Space.{IsSpace}
use deer.Paging.Maps.{Mapped, map_page-Mapped}
use deer.Paging.Unmap.{Unmapped, unmap_page-Unmapped, map-unmap}
use deer.Paging.Faults.{IsResolved, page_fault-IsResolved}

maps : (paging_map_page 0x400000 0x9000 3 empty).0 ≡ true
unfolding paging_map_page map_at store_entry page_table then_next get_next_table new_table
    pmm_alloc_page pmm_alloc_pages find_free_pages find_loop page_free bitmap_test page_usable
    set_loop bitmap_set paging_invalidate_tlb
maps = refl

map_page-Mapped_example :
    Mapped offset
      (u64 (0 + offset))
      empty
      0x400000
      (bit_or (bit_or 0x9000 3) 1)
      (paging_map_page 0x400000 0x9000 3 empty)
map_page-Mapped_example = map_page-Mapped offset 0x400000 0x9000 3 empty refl empty-IsSpace

unmap_page-Unmapped_example :
    Unmapped offset (u64 (0 + offset)) empty 0x400000 (paging_unmap_page 0x400000 empty)
unmap_page-Unmapped_example =
    unmap_page-Unmapped offset 0x400000 empty refl (IsSpace.tree empty-IsSpace)

map-unmap_example :
    let k' = (paging_map_page 0x400000 0x9000 3 empty).1 in
    (paging_is_mapped 0x400000 k' ≡ true)
    × (paging_get_physical_address 0x400000 k' ≡ 0x9000)
    × ((paging_unmap_page 0x400000 k').0 ≡ true)
    × (paging_is_mapped 0x400000 (paging_unmap_page 0x400000 k').1 ≡ false)
map-unmap_example =
    map-unmap offset 0x400000 0x9000 3 empty refl empty-IsSpace (omega arith) refl (omega arith)
      (omega arith) maps

maps_heap : (paging_map_page heap_start 0x9000 3 empty).0 ≡ true
unfolding paging_map_page map_at store_entry page_table then_next get_next_table new_table
    pmm_alloc_page pmm_alloc_pages find_free_pages find_loop page_free bitmap_test page_usable
    set_loop bitmap_set paging_invalidate_tlb
maps_heap = refl

frame_there : (pmm_alloc_page pages).0 ≢ 0
unfolding pmm_alloc_page pmm_alloc_pages find_free_pages find_loop page_free bitmap_test page_usable
    set_loop bitmap_set
frame_there e = omega arith

maps_frame :
    (paging_map_page
      (bit_and (heap_start + 8) frame_mask)
      (pmm_alloc_page pages).0
      3
      (record empty { pmm = (pmm_alloc_page pages).1 })).0
    ≡ true
unfolding paging_map_page map_at store_entry page_table then_next get_next_table new_table
    pmm_alloc_page pmm_alloc_pages find_free_pages find_loop page_free bitmap_test page_usable
    set_loop bitmap_set paging_invalidate_tlb
maps_frame = refl

page_fault-IsResolved_example :
    (k' : Paging) × (handle_page_fault 2 (heap_start + 8) empty ≡ some k')
    × IsResolved offset (u64 (0 + offset)) (heap_start + 8) (pmm_alloc_page pages).0 empty k'
page_fault-IsResolved_example =
    page_fault-IsResolved offset 2 (heap_start + 8) empty refl empty-IsSpace refl (omega arith)
      (omega arith) frame_there maps_frame
