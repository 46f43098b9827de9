-- ===== src/Heap.antt =====
-- kernel/src/memory/heap.c: a best-fit allocator over a doubly linked list of blocks. `blocks` is
-- the header that stands at an address, `bytes` the payload; a pointer is an address and NULL is 0.
-- Serial messages are left out. The search runs on fuel, one round more than there are blocks, and
-- `none` means that it ran out.
pub mod Layout
pub mod Search
pub mod Shape
pub mod Split
pub mod Merge
pub mod Release
pub mod Calls
pub mod Init
pub mod Sample
mod Examples
use deer.Base.{
  ℕ, zero, suc, ◌+◌, ◌-◌, ◌*◌, ◌^◌, bit_and, Bool, true, false, ◌&&◌, ◌||◌, not, Option, none, some,
  ltb, leb, ◌==◌, if◌then◌else◌, u64, sub64, update,
}
use deer.Memory.{Bytes, memset, memcpy}

pub record Block : Type 0 where
  pub size : ℕ
  pub used : Bool
  pub next : ℕ
  pub prev : ℕ

-- `kernel_heap`, and the memory of the heap.
pub record Heap : Type 0 where
  pub start : ℕ
  pub end : ℕ
  pub total_size : ℕ
  pub used_size : ℕ
  pub block_count : ℕ
  pub first_block : ℕ
  pub blocks : ℕ → Block
  pub bytes : Bytes

abbrev pub heap_start : ℕ
heap_start = 0xFFFF_FFFF_9000_0000

abbrev pub heap_initial_size : ℕ
heap_initial_size = 0x10_0000

abbrev pub heap_max_size : ℕ
heap_max_size = 0x400_0000

abbrev pub heap_alignment : ℕ
heap_alignment = 8

-- `sizeof(heap_block_t)`: 8 + 1, padded to 16, + 8 + 8.
abbrev pub header_size : ℕ
header_size = 32

-- What `heap_init` stores once every page is mapped.
pub set_up_heap : Heap → Heap
set_up_heap h = record h {
  start = heap_start;
  end = heap_start + heap_initial_size;
  total_size = heap_initial_size;
  used_size = 0;
  block_count = 1;
  first_block = heap_start;
  blocks =
      update h.blocks heap_start
        (record { size = heap_initial_size - header_size; used = false; next = 0; prev = 0 });
}

-- The loop of `find_free_block`.
pub find_loop : (blocks : ℕ → Block) (size fuel current best : ℕ) → Option ℕ
find_loop blocks size zero current best = none
find_loop blocks size (suc fuel) current best =
    let b = blocks current in
    let fits = not b.used && leb size b.size in
    let better = best == 0 || ltb b.size (blocks best).size in
    let rest = find_loop blocks size fuel b.next (if fits && better then current else best) in
    if current == 0 then some best else rest

pub find_free_block : ℕ → Heap → Option ℕ
find_free_block size h = find_loop h.blocks size (h.block_count + 1) h.first_block 0

-- `size = (size + 7) & ~7; if (size < sizeof(heap_block_t)) size = sizeof(heap_block_t);`
pub round_size : ℕ → ℕ
round_size size =
    let aligned = bit_and (u64 (size + heap_alignment - 1)) (2 ^ 64 - heap_alignment) in
    if ltb aligned header_size then header_size else aligned

-- `if (next) next->prev = prev;`
pub link_prev : (next prev : ℕ) → (ℕ → Block) → ℕ → Block
link_prev next prev m = if next == 0 then m else update m next (record (m next) { prev = prev })

-- The body of `if (block->size >= size + sizeof(heap_block_t) + HEAP_ALIGNMENT)`, store by store.
pub split_block : (block size : ℕ) → (ℕ → Block) → ℕ → Block
split_block block size m =
    let b = m block in
    let new_block = block + header_size + size in
    let m1 = update m new_block (record {
      size = sub64 (sub64 b.size size) header_size;
      used = false;
      next = b.next;
      prev = block;
    }) in
    let m2 = link_prev b.next new_block m1 in
    update m2 block (record (m2 block) { next = new_block; size = size })

-- `kmalloc` from the block that the search has found.
pub take_block : (block size : ℕ) → Heap → ℕ × Heap
take_block block size h =
    let wide = leb (u64 (size + header_size + heap_alignment)) (h.blocks block).size in
    let m = if wide then split_block block size h.blocks else h.blocks in
    (
      block + header_size,
      record h {
        blocks = update m block (record (m block) { used = true });
        block_count = if wide then h.block_count + 1 else h.block_count;
        used_size = u64 (h.used_size + (m block).size);
      },
    )

-- `kmalloc` from the search on, for a rounded size.
allocate : ℕ → Heap → Option (ℕ × Heap)
allocate size h = elim (find_free_block size h) [
  | none ↦ none
  | some block ↦ if block == 0 then some (0, h) else some (take_block block size h)
]

pub kmalloc : ℕ → Heap → Option (ℕ × Heap)
unfolding allocate
kmalloc size h = if size == 0 then some (0, h) else allocate (round_size size) h

-- `if (block->prev && !block->prev->used) { … }`, and the block to go on with.
pub merge_prev : ℕ → Heap → ℕ × Heap
merge_prev block h =
    let b = h.blocks block in
    let p = h.blocks b.prev in
    let m1 =
      update h.blocks b.prev
        (record p { size = u64 (p.size + (b.size + header_size)); next = b.next }) in
    let m2 = link_prev b.next b.prev m1 in
    if not (b.prev == 0) && not p.used
    then (b.prev, record h { blocks = m2; block_count = sub64 h.block_count 1 })
    else (block, h)

-- `if (block->next && !block->next->used) { … }`
pub merge_next : ℕ → Heap → Heap
merge_next block h =
    let b = h.blocks block in
    let n = h.blocks b.next in
    let m1 =
      update h.blocks block
        (record b { size = u64 (b.size + (n.size + header_size)); next = n.next }) in
    let m2 = link_prev n.next block m1 in
    if not (b.next == 0) && not n.used
    then record h { blocks = m2; block_count = sub64 h.block_count 1 }
    else h

-- `block->used = false; kernel_heap.used_size -= block->size;`
pub mark_free : ℕ → Heap → Heap
mark_free block h = record h {
  blocks = update h.blocks block (record (h.blocks block) { used = false });
  used_size = sub64 h.used_size (h.blocks block).size;
}

pub kfree : ℕ → Heap → Heap
kfree ptr h =
    let block = sub64 ptr header_size in
    if ptr == 0
    then h
    else (if not (h.blocks block).used
        then h
        else (let (merged, h') = merge_prev block (mark_free block h) in merge_next merged h'))

-- `kcalloc` once the product is computed.
allocate_cleared : ℕ → Heap → Option (ℕ × Heap)
allocate_cleared total h = elim (kmalloc total h) [
  | none ↦ none
  | some (ptr, h') ↦
      some (ptr, if ptr == 0 then h' else record h' { bytes = memset ptr 0 total h'.bytes })
]

pub kcalloc : (num size : ℕ) → Heap → Option (ℕ × Heap)
unfolding allocate_cleared
kcalloc num size h = allocate_cleared (u64 (num * size)) h

pub krealloc : (ptr size : ℕ) → Heap → Option (ℕ × Heap)
krealloc ptr size h =
    let block = h.blocks (sub64 ptr header_size) in
    if ptr == 0
    then kmalloc size h
    else (if size == 0
        then some (0, kfree ptr h)
        else (if leb size block.size then some (ptr, h) else elim (kmalloc size h) [
          | none ↦ none
          | some (new_ptr, h') ↦
              if new_ptr == 0
              then some (0, h')
              else (let copied =
                    memcpy new_ptr ptr (h'.blocks (sub64 ptr header_size)).size h'.bytes in
                  some (new_ptr, kfree ptr (record h' { bytes = copied })))
        ]))

pub heap_get_total_size : Heap → ℕ
heap_get_total_size h = h.total_size

pub heap_get_used_size : Heap → ℕ
heap_get_used_size h = h.used_size

pub heap_get_free_size : Heap → ℕ
heap_get_free_size h = sub64 h.total_size h.used_size
