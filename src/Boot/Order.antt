-- ===== src/Boot/Order.antt =====
-- The order in which kernel/src/kernel.c sets up the memory.
use deer.Base.{ℕ, Option, List, [], ◌∷◌, false, ◌-◌}
use deer.Pmm.{Entry, pmm_init}
use deer.Heap.{heap_initial_size, header_size}
use deer.Heap.Layout.{chunk}
use deer.Heap.Shape.{IsHeap}
use deer.Heap.Init.Pages.{IsBacked}
use deer.Paging.{paging_init}
use deer.Paging.Space.{IsSpace}
use deer.Vmm.{Vmm}

-- What is ready for kmalloc and for new spaces: the tables of the kernel are a whole space, the heap
-- is one free chunk, and its pages have frames of their own.
pub record IsReady (before k : Vmm) : Type 0 where
  pub space : IsSpace k.hhdm_offset k.kernel_space.pml4 k.paging
  pub heap : IsHeap k.heap (chunk (heap_initial_size - header_size) false ∷ [])
  pub frames : ℕ → ℕ
  pub backed : IsBacked k.hhdm_offset k.kernel_space.pml4 256 0 frames before.paging k.paging

-- The state in front of heap_init.
abbrev pub prepared : Option (List Entry) → Option ℕ → Vmm → Vmm
prepared memmap hhdm k = record k {
  paging = paging_init hhdm (record k.paging { pmm = pmm_init memmap hhdm k.paging.pmm });
}
