-- ===== src/Heap/Sample.antt =====
-- Test data for kernel/src/memory/heap.c: a heap of 1 KiB.
use deer.Base.{refl, false, arith, [], ◌∷◌}
use deer.Heap.{Heap}
use deer.Heap.Layout.{chunk}
use deer.Heap.Shape.{IsHeap}

-- One free chunk of 992 bytes behind a header at address 4096.
abbrev pub small_heap : Heap
small_heap = record {
  start = 4096;
  end = 5120;
  total_size = 1024;
  used_size = 0;
  block_count = 1;
  first_block = 4096;
  blocks = λ a. record { size = 992; used = false; next = 0; prev = 0 };
  bytes = λ a. a;
}

pub small_heap-IsHeap : IsHeap small_heap (chunk 992 false ∷ [])
small_heap-IsHeap = record {
  layout = (refl, refl);
  some_chunk = omega arith;
  first = refl;
  positive = omega arith;
  aligned_start = refl;
  bounded = omega arith;
  total = refl;
  count = refl;
  used = refl;
  aligned = (refl, tt);
  coalesced = (refl, tt);
}
