-- ===== src/Heap/Init/Pages.antt =====
-- What `heap_init` of kernel/src/memory/heap.c does to the address space and to the heap.
use deer.Base.{ℕ, ◌+◌, ◌*◌, ◌<◌, ◌≤◌, ◌≡◌, ◌≢◌, ◌⊎◌, Bool, true, false, bit_or, ◌==◌, if◌then◌else◌}
use deer.Pmm.{Pmm, pmm_alloc_page}
use deer.Heap.{Heap, heap_start}
use deer.Paging.{Paging, paging_map_page}
use deer.Paging.Space.{IsSpace, Reserved}
use deer.Paging.Walk.{IsExhausted}
use deer.Paging.Maps.{mapping, page_number}

abbrev pub heap_page : ℕ → ℕ
heap_page i = heap_start + i * 0x1000

-- The entry of a page that the kernel may write.
abbrev pub heap_entry : (frame : ℕ) → ℕ
heap_entry frame = bit_or (bit_or (frame * 0x1000) 3) 1

-- The `left` pages of the heap from `i` on are mapped, each to a frame of its own that was not in
-- use before; every other mapping is as it was.
pub record IsBacked (offset root left i : ℕ) (frames : ℕ → ℕ) (k k' : Paging) : Type 0 where
  pub space : IsSpace offset root k'
  pub root_kept : k'.cr3 ≡ k.cr3
  pub mapped :
      (j : ℕ)
      → i ≤ j
      → j < i + left
      → mapping offset root k'.words (heap_page j) ≡ heap_entry (frames j)
  pub others :
      (w : ℕ)
      → ((j : ℕ) → i ≤ j → j < i + left → page_number w ≢ page_number (heap_page j))
      → mapping offset root k'.words w ≡ mapping offset root k.words w
  pub held : (j : ℕ) → i ≤ j → j < i + left → Reserved offset root k' (frames j)
  pub new : (j x : ℕ) → i ≤ j → j < i + left → Reserved offset root k x → frames j ≢ x
  pub distinct : (j l : ℕ) → i ≤ j → j < l → l < i + left → frames l ≢ frames j
  pub kept : (x : ℕ) → Reserved offset root k x → Reserved offset root k' x

abbrev with_first : (i x : ℕ) → (ℕ → ℕ) → ℕ → ℕ
with_first i x frames j = if j == i then x else frames j

-- The allocator had no page for the page of the heap at `i`, or it had one, and none for a table to
-- map it by.
abbrev pub Wanting : (i : ℕ) → Paging → Type 0
Wanting i l =
    let r = pmm_alloc_page l.pmm in
    let m = paging_map_page (heap_page i) r.0 3 (record l { pmm = r.1 }) in
    IsExhausted l.pmm ⊎ ((r.0 ≢ 0) × (m.0 ≡ false) × IsExhausted m.1.pmm)

-- The loop stopped after `count` of its `left` pages: these are mapped as in a loop that ends, the
-- next one was not to be had, and no mapping has changed since.
pub record IsStopped (offset root left i : ℕ) (k k' : Paging) : Type 0 where
  pub count : ℕ
  pub short : count < left
  pub state : Paging
  pub frames : ℕ → ℕ
  pub backed : IsBacked offset root count i frames k state
  pub wanting : Wanting (i + count) state
  pub same : (w : ℕ) → mapping offset root k'.words w ≡ mapping offset root state.words w

-- The loop got all of its pages, or it stopped for want of a page or of a table.
abbrev pub Backed : (offset root left i : ℕ) → Paging → Bool × Paging → Type 0
Backed offset root left i k (done, k') =
    ((done ≡ true) × (frames : ℕ → ℕ) × IsBacked offset root left i frames k k')
    ⊎ ((done ≡ false) × IsStopped offset root left i k k')
