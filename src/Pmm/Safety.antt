-- ===== src/Pmm/Safety.antt =====
-- What callers of kernel/src/memory/pmm.c get after `pmm_init`: memory that the map calls usable,
-- and never the allocator's own bitmap.
use deer.Base.{
  ℕ, ◌+◌, ◌*◌, ◌/◌, ◌<◌, ◌≡◌, ◌≢◌, ap, ◌∙◌, true, false, arith, u64, List, [], some, none,
}
use mathlib.Core.Path.{subst}
use deer.Pmm.{
  Pmm, Entry, page_free, page_usable, page_size, memmap_entries, pmm_alloc_pages, pmm_init,
}
use deer.Pmm.Loops.{within}
use deer.Pmm.Alloc.{IsValid, alloc-IsGranted, page_free-clear, Covered, page_usable-Covered}
use deer.Pmm.Init.{touched, surveyed, bitmap_start, bitmap_count, init-bits, init-memmap}
use deer.Pmm.Ledger.{Ledger, Reach, Reach-IsBalanced, holders}

page_free-usable :
    (t : Pmm) (i : ℕ)
    → page_free t i ≡ true
    → page_usable (memmap_entries t) (u64 (i * page_size)) ≡ true
unfolding page_free
page_free-usable t i h = ground arith

-- After a `pmm_init` whose counter is right, and whatever runs were taken and given back since,
-- every page of a run that `pmm_alloc_pages` hands out starts in a usable entry of the memory map,
-- is touched by no unusable entry, holds no part of the bitmap and is on loan to nobody.
pub alloc-usable :
    (es : List Entry) (offset : ℕ) (s t : Pmm) (l : Ledger)
    → IsValid (pmm_init (some es) (some offset) s)
    → (pmm_init (some es) (some offset) s).bitmap ≢ 0
    → Reach (pmm_init (some es) (some offset) s) t l
    → (count : ℕ) → (pmm_alloc_pages count t).0 ≢ 0
    → (k : ℕ) → k < count
    → let page = (pmm_alloc_pages count t).0 / page_size + k in
      Covered es (page * page_size)
      × (touched es page ≡ false)
      × (within (bitmap_start (surveyed es s)) (bitmap_count (surveyed es s)) page ≡ false)
      × (holders l page ≡ 0)
alloc-usable es offset s t l v ready r count nonzero k below =
    let b = Reach-IsBalanced v ready r in
    let g = alloc-IsGranted count t b.valid nonzero in
    let p = g.start + k in
    let at : (pmm_alloc_pages count t).0 / page_size + k ≡ p = omega (arith, g.address) in
    let free = g.run.run k below in
    let clear = page_free-clear t p free in
    let address : u64 (p * page_size) ≡ p * page_size = omega (arith, g.run.upper, b.valid.sized) in
    let entries : memmap_entries t ≡ es =
      ap (λ m. elim m [ none ↦ [] | some e ↦ e ]) (b.frame.memmap ∙ init-memmap es offset s) in
    let bits = init-bits es offset s p (omega (arith, g.run.upper, b.frame.total)) in
    rw at (
      page_usable-Covered es (p * page_size) (
          subst (λ a. page_usable es a ≡ true) address
            (subst (λ m. page_usable m (u64 (p * page_size)) ≡ true) entries
              (page_free-usable t p free))),
      ground (arith, bits, b.owners p),
      ground (arith, bits, b.owners p),
      ground (arith, b.owners p),
    )
