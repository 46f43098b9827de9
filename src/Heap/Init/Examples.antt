-- ===== src/Heap/Init/Examples.antt =====
-- `heap_init` at concrete arguments.
use deer.Base.{◌≡◌, refl, false}
use deer.Pmm.{pmm_alloc_page, pmm_alloc_pages}
use deer.Paging.Sample.{empty}
use deer.Heap.Init.{map_loop}

-- No page is left to give: the loop stops at once.
stops_at_once : (map_loop 256 0 (record empty { pmm = record empty.pmm { bitmap = 0 } })).0 ≡ false
unfolding map_loop pmm_alloc_page pmm_alloc_pages
stops_at_once = refl
