-- ===== src/Heap/Examples.antt =====
-- A heap of 1 KiB for the allocator of kernel/src/memory/heap.c: tests, and the theorems of the
-- other modules at its states.
use deer.Base.{
  ℕ, ◌+◌, ◌-◌, ◌^◌, ◌≡◌, ◌⊎◌, refl, true, false, arith, [], ◌∷◌, ◌++◌, Option, some, none,
}
use deer.Heap.{
  Heap, header_size, kmalloc, kfree, find_free_block, find_loop, round_size, split_block,
  take_block, merge_prev, merge_next, mark_free, link_prev,
}
use deer.Heap.Layout.{chunk}
use deer.Heap.Search.{NoneFits}
use deer.Heap.Shape.{IsHeap}
use deer.Heap.Release.{kfree-IsHeap, coalesce}
use deer.Heap.Sample.{small_heap, small_heap-IsHeap}
use deer.Heap.Calls.{IsLeast, IsServed, kmalloc-Served_or_refused, kfree-kmalloc}

-- The heap after a call of `kmalloc`, and the pointer; `small_heap` and 0 should it not end.
abbrev heap_of : Option (ℕ × Heap) → Heap
heap_of none = small_heap
heap_of (some r) = r.1

abbrev pointer_of : Option (ℕ × Heap) → ℕ
pointer_of none = 0
pointer_of (some r) = r.0

malloc_test :
    (pointer_of (kmalloc 100 small_heap) ≡ 4128)
    × ((heap_of (kmalloc 100 small_heap)).used_size ≡ 104)
    × ((heap_of (kmalloc 100 small_heap)).block_count ≡ 2)
    × (pointer_of (kmalloc 2000 small_heap) ≡ 0)
    × (pointer_of (kmalloc (2 ^ 64 - 3) small_heap) ≡ 4128)
unfolding kmalloc find_free_block find_loop round_size take_block split_block link_prev
malloc_test = (refl, refl, refl, refl, refl)

free_test : (kfree 4128 (heap_of (kmalloc 100 small_heap))).block_count ≡ 1
unfolding kmalloc find_free_block find_loop round_size take_block split_block link_prev kfree
    merge_prev merge_next mark_free
free_test = refl

kmalloc-Served_or_refused_example :
    (need : ℕ) × IsLeast 100 need
    × (((ptr : ℕ) × (w : Heap) × (kmalloc 100 small_heap ≡ some (ptr, w))
          × IsServed need small_heap (chunk 992 false ∷ []) ptr w)
        ⊎ ((kmalloc 100 small_heap ≡ some (0, small_heap)) × NoneFits need (chunk 992 false ∷ [])))
kmalloc-Served_or_refused_example =
    kmalloc-Served_or_refused 100 small_heap (chunk 992 false ∷ []) small_heap-IsHeap (omega arith)
      (omega arith)

kmalloc_100 : kmalloc 100 small_heap ≡ some (4128, heap_of (kmalloc 100 small_heap))
unfolding kmalloc find_free_block find_loop round_size take_block split_block link_prev
kmalloc_100 = refl

kfree-kmalloc_example :
    IsHeap (kfree 4128 (heap_of (kmalloc 100 small_heap))) (chunk 992 false ∷ [])
kfree-kmalloc_example =
    kfree-kmalloc 100 small_heap (heap_of (kmalloc 100 small_heap)) (chunk 992 false ∷ []) 4128
      small_heap-IsHeap (omega arith) kmalloc_100 (omega arith)

-- The same heap with its chunk in use.
abbrev full_heap : Heap
full_heap = record small_heap {
  used_size = 992;
  blocks = λ a. record { size = 992; used = true; next = 0; prev = 0 };
}

full_heap-IsHeap : IsHeap full_heap ([] ++ chunk 992 true ∷ [])
full_heap-IsHeap = record {
  layout = (refl, refl);
  some_chunk = omega arith;
  first = refl;
  positive = omega arith;
  aligned_start = refl;
  bounded = omega arith;
  total = refl;
  count = refl;
  used = refl;
  aligned = (refl, tt);
  coalesced = (refl, tt);
}

kfree-IsHeap_example :
    IsHeap (kfree (4096 + header_size) full_heap) (coalesce ([] ++ chunk 992 false ∷ []))
kfree-IsHeap_example = kfree-IsHeap full_heap [] 992 [] full_heap-IsHeap
