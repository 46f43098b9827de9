-- ===== src/Vmm/Create.antt =====
-- What an address space that `vmm_create_space` of kernel/src/memory/vmm.c makes holds at first.
use mathlib.Core.Path.{subst}
use deer.Base.{
  ℕ, zero, suc, ◌+◌, ◌*◌, ◌%◌, ◌<◌, ◌≤◌, ◌≡◌, ◌≢◌, ◌⊎◌, refl, sym, ap, ◌∙◌, arith, Bool, true,
  false, Option, some, List, [], Bool-cases, inl, inr, ◌==◌, if◌then◌else◌, u64, update,
  update_self, update_other,
}
use deer.Pmm.{Pmm, pmm_alloc_page, pmm_free_page, bitmap_test, page_free}
use deer.Pmm.Alloc.{IsGranted, alloc-IsGranted, page_free-clear}
use deer.Heap.{Heap, kmalloc}
use deer.Heap.Layout.{Chunk}
use deer.Heap.Shape.{IsHeap}
use deer.Heap.Calls.{kmalloc-rounded}
use deer.Paging.{entry_at, clear_page}
use deer.Paging.Tree.{IsTable}
use deer.Paging.Space.{IsSpace, clear_page-inside, clear_page-outside}
use deer.Paging.Walk.{root-IsTable}
use deer.Vmm.{Vmm, Space, copy_entries, vmm_map_kernel, create_with, vmm_create_space}

copy_entries-other :
    (left i to from a : ℕ) (words : ℕ → ℕ)
    → ((j : ℕ) → i ≤ j → j < i + left → a ≢ to + 8 * j)
    → copy_entries left i to from words a ≡ words a
unfolding copy_entries
copy_entries-other zero i to from a words far = refl
copy_entries-other (suc left) i to from a words far =
    copy_entries-other left (i + 1) to from a (update words (to + 8 * i) (entry_at words from i))
      (λ j p q. far j (omega arith) (omega arith))
    ∙ update_other words (to + 8 * i) a (entry_at words from i) (far i (omega arith) (omega arith))

copy_entries-copied :
    (left i to from j : ℕ) (words : ℕ → ℕ)
    → to % 4096 ≡ 0
    → from % 4096 ≡ 0
    → from ≢ to
    → i + left ≤ 512
    → i ≤ j
    → j < i + left
    → copy_entries left i to from words (to + 8 * j) ≡ words (from + 8 * j)
unfolding copy_entries
copy_entries-copied zero i to from j words p q ne fits low high = absurd (omega arith)
copy_entries-copied (suc left) i to from j words p q ne fits low high = elim (Bool-cases (j == i)) [
  | inl same ↦
      copy_entries-other left (i + 1) to from (to + 8 * j)
        (update words (to + 8 * i) (entry_at words from i)) (λ l a b e. ground arith)
      ∙ ap (λ x. update words (to + 8 * i) (words (from + 8 * i)) (to + 8 * x)) (ground arith)
      ∙ update_self words (to + 8 * i) (entry_at words from i)
      ∙ ap (λ x. words (from + 8 * x)) (ground arith)
  | inr other ↦
      copy_entries-copied left (i + 1) to from j (update words (to + 8 * i) (entry_at words from i))
        p q ne (omega arith) (ground arith) (omega arith)
      ∙ update_other words (to + 8 * i) (from + 8 * j) (entry_at words from i)
          (λ (e : from + 8 * j ≡ to + 8 * i). ne (omega arith))
]

-- The entries of the root table at `n` and of every other table, when the root table of the kernel
-- is at `from`.
record IsFilled (n from : ℕ) (words words' : ℕ → ℕ) : Type 0 where
  pub low : (i : ℕ) → i < 256 → words' (n + 8 * i) ≡ 0
  pub high : (i : ℕ) → 256 ≤ i → i < 512 → words' (n + 8 * i) ≡ words (from + 8 * i)
  pub others : (t j : ℕ) → t % 4096 ≡ 0 → t ≢ n → j < 512 → words' (t + 8 * j) ≡ words (t + 8 * j)

copy-IsFilled :
    (n from : ℕ) (words : ℕ → ℕ)
    → n % 4096 ≡ 0
    → from % 4096 ≡ 0
    → from ≢ n
    → IsFilled n from words (copy_entries 256 256 n from (clear_page n words))
copy-IsFilled n from words p q ne = record {
  low = λ i h.
      copy_entries-other 256 256 n from (n + 8 * i) (clear_page n words) (λ j a b e. omega arith)
      ∙ clear_page-inside n i words (omega arith);
  high = λ i a b.
      copy_entries-copied 256 256 n from i (clear_page n words) p q ne (omega arith) a b
      ∙ clear_page-outside n from i words p q b ne;
  others = λ t j a ne' b.
      copy_entries-other 256 256 n from (t + 8 * j) (clear_page n words)
        (λ l c d (e : t + 8 * j ≡ n + 8 * l). ne' (omega arith))
      ∙ clear_page-outside n t j words p a b ne';
}

-- The space at `space` has its root table in a page that was free and is now in use, the only one
-- that was taken; its lower half is empty and its upper half has the kernel's entries, and no table
-- of the kernel has changed.
pub record IsCreated (k k' : Vmm) (space : ℕ) : Type 0 where
  pub page : ℕ
  pub root : (k'.spaces space).pml4 ≡ page * 4096 + k.hhdm_offset
  pub free_before : bitmap_test page k.paging.pmm ≡ false
  pub taken : bitmap_test page k'.paging.pmm ≡ true
  pub no_other : (q : ℕ) → q ≢ page → bitmap_test q k'.paging.pmm ≡ bitmap_test q k.paging.pmm
  pub low : (i : ℕ) → i < 256 → entry_at k'.paging.words (k'.spaces space).pml4 i ≡ 0
  pub high :
      (i : ℕ)
      → 256 ≤ i
      → i < 512
      → entry_at k'.paging.words (k'.spaces space).pml4 i
        ≡ entry_at k.paging.words k.kernel_space.pml4 i
  pub kernel :
      (p : List ℕ) (t j : ℕ)
      → IsTable k.hhdm_offset k.kernel_space.pml4 k.paging.words p t
      → j < 512
      → entry_at k'.paging.words t j ≡ entry_at k.paging.words t j

-- `vmm_create_space` answers: NULL, when there is no page or `kmalloc` gives NULL, or a new space.
abbrev pub Answers : Vmm → Option (ℕ × Vmm) → Type 0
Answers k answer =
    (space : ℕ) × (k' : Vmm) × (answer ≡ some (space, k'))
    × (((space ≡ 0)
          × (((pmm_alloc_page k.paging.pmm).0 ≡ 0)
              ⊎ ((w : Heap) × (kmalloc 16 k.heap ≡ some (0, w)))))
        ⊎ IsCreated k k' space)

module _ (k : Vmm) (s : IsSpace k.hhdm_offset k.kernel_space.pml4 k.paging) where
  module _ (phys : ℕ) (m : Pmm) (g : IsGranted 1 k.paging.pmm phys m) where
    clear : bitmap_test g.start k.paging.pmm ≡ false
    clear =
        page_free-clear k.paging.pmm g.start
          (subst (λ x. page_free k.paging.pmm x ≡ true) (omega arith) (g.run.run 0 (omega arith)))

    narrow : u64 (phys + k.hhdm_offset) ≡ phys + k.hhdm_offset
    narrow = omega (arith, g.address, g.run.upper, s.room)

    fresh :
        (q : List ℕ) (t : ℕ)
        → IsTable k.hhdm_offset k.kernel_space.pml4 k.paging.words q t
        → t ≢ u64 (phys + k.hhdm_offset)
    fresh q t h same =
        let (x, place', used) = s.held q t h in
        let twice : x ≡ g.start = omega (arith, g.address, narrow) in cc (clear, used, twice)

    in_use : bitmap_test g.start m ≡ true
    in_use = ground (arith, g.bits g.start)

    unchanged : (q : ℕ) → q ≢ g.start → bitmap_test q m ≡ bitmap_test q k.paging.pmm
    unchanged q ne = ground (arith, g.bits q)

    filled-IsCreated :
        (k' : Vmm) (space : ℕ)
        → (k'.spaces space).pml4 ≡ u64 (phys + k.hhdm_offset)
        → k'.paging.pmm ≡ m
        → IsFilled (k'.spaces space).pml4 k.kernel_space.pml4 k.paging.words k'.paging.words
        → IsCreated k k' space
    filled-IsCreated k' space e same_pmm f = record {
      page = g.start;
      root = e ∙ narrow ∙ ap (λ a. a + k.hhdm_offset) g.address;
      free_before = clear;
      taken = ap (bitmap_test g.start) same_pmm ∙ in_use;
      no_other = λ q ne. ap (bitmap_test q) same_pmm ∙ unchanged q ne;
      low = λ i h. f.low i h;
      high = λ i a b. f.high i a b;
      kernel = λ p t j h index.
          f.others t j (s.tree.aligned p t h) (λ same. fresh p t h (same ∙ e)) index;
    }

    from_aligned : k.kernel_space.pml4 % 4096 ≡ 0
    from_aligned =
        s.tree.aligned [] k.kernel_space.pml4
          (root-IsTable k.hhdm_offset k.kernel_space.pml4 k.paging.words)

    filled :
        (n : ℕ)
        → n ≡ u64 (phys + k.hhdm_offset)
        → IsFilled n k.kernel_space.pml4 k.paging.words (
            copy_entries 256 256 n k.kernel_space.pml4
              (clear_page (u64 (phys + k.hhdm_offset)) k.paging.words))
    filled n e =
        subst
          (λ x.
            IsFilled n k.kernel_space.pml4 k.paging.words
              (copy_entries 256 256 n k.kernel_space.pml4 (clear_page x k.paging.words)))
          e
          (copy-IsFilled n k.kernel_space.pml4 k.paging.words
            (omega (arith, e, narrow, g.address, s.base)) from_aligned
            (λ same.
              fresh [] k.kernel_space.pml4
                (root-IsTable k.hhdm_offset k.kernel_space.pml4 k.paging.words) (same ∙ e)))

    -- `k` with the root page taken, and the space at `space` set up in it.
    taken : Vmm
    taken = record k { paging = record k.paging { pmm = m } }

    made : (space : ℕ) (heap : Heap) → Vmm
    unfolding taken
    made space heap = record taken {
      heap = heap;
      spaces =
          update k.spaces space
            (record { pml4 = u64 (phys + k.hhdm_offset); hhdm_offset = k.hhdm_offset });
      paging = record taken.paging {
        words = clear_page (u64 (phys + k.hhdm_offset)) k.paging.words;
      };
    }

    mapped-IsCreated :
        (space : ℕ) (heap : Heap) → IsCreated k (vmm_map_kernel space (made space heap)) space
    unfolding vmm_map_kernel made taken
    mapped-IsCreated space heap =
        let e = ap (λ (x : Space). x.pml4) (update_self k.spaces space _) in
        filled-IsCreated (vmm_map_kernel space (made space heap)) space e refl (filled _ e)

    undone : Heap → Vmm
    unfolding taken
    undone heap = record taken {
      heap = heap;
      paging = record taken.paging { pmm = pmm_free_page phys m };
    }

    create_with-Answers :
        (space : ℕ) (heap : Heap)
        → kmalloc 16 k.heap ≡ some (space, heap)
        → Answers k (create_with phys taken (some (space, heap)))
    unfolding create_with made taken undone
    create_with-Answers space heap e = elim (Bool-cases (space == 0)) [
      | inl null ↦ (
        0,
        undone heap,
        ap
            (λ (b : Bool).
              if b
              then some (0, undone heap)
              else some (space, vmm_map_kernel space (made space heap)))
            null,
        inl (refl, inr (heap, e ∙ ap (λ p. some (p, heap)) (ground arith))),
      )
      | inr there ↦ (
        space,
        vmm_map_kernel space (made space heap),
        ap
            (λ (b : Bool).
              if b
              then some (0, undone heap)
              else some (space, vmm_map_kernel space (made space heap)))
            there,
        inr (mapped-IsCreated space heap),
      )
    ]

    served-Answers :
        (cs : List Chunk)
        → IsHeap k.heap cs
        → Answers k (create_with phys taken (kmalloc 16 k.heap))
    served-Answers cs v = elim (kmalloc-rounded 16 k.heap cs v (omega arith)) [
      | inl (p, w, e, served) ↦
          subst (λ o. Answers k (create_with phys taken o)) (sym e) (create_with-Answers p w e)
      | inr (e, none_fits) ↦
          subst (λ o. Answers k (create_with phys taken o)) (sym e) (create_with-Answers 0 k.heap e)
    ]

  -- Where the kernel's tables form a whole space and the heap is a heap, vmm_create_space ends: it
  -- gives NULL, for want of a page or because kmalloc gives NULL, or it gives a space whose
  -- root table stands in a page that was free and is now in use, the only one that was taken. The
  -- lower half of that table is empty, its upper half has the kernel's entries, and no table of the
  -- kernel has changed.
  pub vmm_create_space-Answers :
      (cs : List Chunk) → IsHeap k.heap cs → Answers k (vmm_create_space k)
  unfolding vmm_create_space pmm_alloc_page taken
  vmm_create_space-Answers cs v = elim (Bool-cases ((pmm_alloc_page k.paging.pmm).0 == 0)) [
    | inl e ↦
        let left = record k {
          paging = record k.paging { pmm = (pmm_alloc_page k.paging.pmm).1 };
        } in
        (
          0,
          left,
          ap
              (λ (b : Bool).
                if b
                then some (0, left)
                else create_with (pmm_alloc_page k.paging.pmm).0 left (kmalloc 16 k.heap))
              e,
          inl (refl, inl (ground arith)),
        )
    | inr e ↦
        let r = pmm_alloc_page k.paging.pmm in
        let g = alloc-IsGranted 1 k.paging.pmm s.valid (ground arith) in
        subst (Answers k)
          (sym (
            ap
              (λ (b : Bool).
                if b
                then some (0, taken r.0 r.1 g)
                else create_with r.0 (taken r.0 r.1 g) (kmalloc 16 k.heap))
              e))
          (served-Answers r.0 r.1 g cs v)
  ]
