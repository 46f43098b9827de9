-- ===== src/Vmm/Examples.antt =====
-- A space at the address 64 with an empty root table.
use deer.Base.{◌+◌, arith, bit_or, u64, false, [], ◌∷◌}
use deer.Heap.Layout.{chunk}
use deer.Heap.Sample.{small_heap, small_heap-IsHeap}
use deer.Paging.Sample.{offset, empty, empty-IsSpace}
use deer.Vmm.{Vmm, vmm_map_page, vmm_create_space}
use deer.Vmm.Maps.{MappedIn, vmm_map_page-MappedIn}
use deer.Vmm.Create.{Answers, vmm_create_space-Answers}

abbrev one_space : Vmm
one_space = record {
  kernel_space = record { pml4 = offset; hhdm_offset = offset };
  hhdm_offset = offset;
  paging = empty;
  heap = small_heap;
  spaces = λ a. record { pml4 = u64 (0 + offset); hhdm_offset = offset };
}

vmm_map_page-MappedIn_example :
    let r = vmm_map_page 64 0x400000 0x9000 7 one_space in
    MappedIn offset (u64 (0 + offset)) empty 0x400000 (bit_or (bit_or 0x9000 7) 1) (r.0, r.1.paging)
vmm_map_page-MappedIn_example =
    vmm_map_page-MappedIn 64 0x400000 0x9000 7 one_space (omega arith) empty-IsSpace

vmm_create_space-Answers_example : Answers one_space (vmm_create_space one_space)
vmm_create_space-Answers_example =
    vmm_create_space-Answers one_space empty-IsSpace (chunk 992 false ∷ []) small_heap-IsHeap
