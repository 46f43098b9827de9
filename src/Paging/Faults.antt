-- ===== src/Paging/Faults.antt =====
-- `handle_page_fault` of kernel/src/memory/paging.c gives the heap a page on demand.
use mathlib.Core.Path.{subst}
use deer.Base.{
  ℕ, ◌+◌, ◌*◌, ◌/◌, ◌%◌, ◌^◌, ◌<◌, ◌≤◌, ◌≡◌, ◌≢◌, refl, sym, ap, ◌∙◌, arith, bit_and, bit_or, Bool,
  true, false, none, some, List, ◌==◌, ◌&&◌, if◌then◌else◌, Option-cases, inl, inr, u64, leb, ltb,
}
use deer.Bits.{and-ones}
use deer.Pmm.{Pmm, pmm_alloc_page, pmm_alloc_pages, bitmap_test, page_free}
use deer.Pmm.Alloc.{IsGranted, alloc-IsGranted, page_free-clear}
use deer.Heap.{heap_start, heap_max_size}
use deer.Paging.{
  Paging, entry_at, is_present, table_of, frame_mask, clear_page, page_table, pt_index,
  paging_map_page, zero_mapped, fault_map, handle_page_fault,
}
use deer.Paging.Tree.{table_at, entry_of, IsTable}
use deer.Paging.Space.{IsSpace, Reserved, masked, clear_page-inside, clear_page-outside}
use deer.Paging.Walk.{low_path, low_path-Indices, index_lt}
use deer.Paging.Store.{IsStored, stored-new, stored-IsTree}
use deer.Paging.Maps.{mapping, page_number, Remapped, map_page-Mapped, stored-Remapped}
use deer.Paging.Reads.{pointer, page_table-pointer}
use deer.Paging.Unmap.{map_entry-present, map_entry-frame, map_entry, Remapped-here}

-- A page that has just been granted is reserved in the address space.
pub granted-Reserved :
    (offset root phys : ℕ) (k : Paging) (m : Pmm)
    → IsSpace offset root k
    → (g : IsGranted 1 k.pmm phys m)
    → IsSpace offset root (record k { pmm = m })
      × Reserved offset root (record k { pmm = m }) g.start
granted-Reserved offset root phys k m s g = (
  record {
    tree = s.tree;
    valid = g.valid;
    base = s.base;
    room = omega (arith, g.frame.total, s.room);
    held = λ p t h. let (x, place, used) = s.held p t h in (x, place, still_used x used);
  },
  (
    ground (arith, g.bits g.start),
    λ p t h same.
        let (x, place, used) = s.held p t h in
        let twice : x ≡ g.start = omega arith in cc (clear, used, twice),
  ),
)
  where
    still_used : (x : ℕ) → bitmap_test x k.pmm ≡ true → bitmap_test x m ≡ true
    still_used x used = ground (arith, g.bits x)

    clear : bitmap_test g.start k.pmm ≡ false
    clear =
        page_free-clear k.pmm g.start
          (subst (λ x. page_free k.pmm x ≡ true) (omega arith) (g.run.run 0 (omega arith)))

-- Clearing a reserved page changes no mapping.
module _ (offset root v x e : ℕ) (k : Paging) (s : IsSpace offset root k)
    (r : Reserved offset root k x) (m : mapping offset root k.words v ≡ e)
    (present : is_present e ≡ true) where
  lowest : (pt : ℕ) × (table_at offset root k.words (low_path v) ≡ some pt)
  unfolding entry_of
  lowest = elim (Option-cases (table_at offset root k.words (low_path v))) [
    | inl missing ↦ absurd (
        false_true (ap is_present (sym (ap (entry_of k.words (pt_index v)) missing) ∙ m) ∙ present))
    | inr found ↦ found
  ]
    where
      false_true : false ≡ true → ⊥
      false_true q = cc

  cleared : ℕ → ℕ
  cleared = clear_page (x * 4096 + offset) k.words

  place : IsTable offset root k.words (low_path v) lowest.0
  place = record { short = omega arith; indices = low_path-Indices v; found = lowest.1 }

  entry_here : entry_at k.words lowest.0 (pt_index v) ≡ e
  unfolding entry_of
  entry_here = sym (ap (entry_of k.words (pt_index v)) lowest.1) ∙ m

  other_page :
      (q : List ℕ) (t j : ℕ)
      → IsTable offset root k.words q t
      → j < 512
      → cleared (t + 8 * j) ≡ k.words (t + 8 * j)
  unfolding cleared
  other_page q t j h b =
      clear_page-outside (x * 4096 + offset) t j k.words (omega (arith, s.base))
        (s.tree.aligned q t h) b (r.1 q t h)

  cleared-IsStored : IsStored offset root k.words cleared (low_path v) lowest.0 (pt_index v) e
  cleared-IsStored = record {
    place = place;
    low = refl;
    stored =
        other_page (low_path v) lowest.0 (pt_index v) place (index_lt (v / 2 ^ 12)) ∙ entry_here;
    kept = λ q t j h b other. other_page q t j h b;
  }

  cleared-Remapped : Remapped offset root k.words cleared v e
  cleared-Remapped =
      stored-Remapped offset root k.words cleared v lowest.0 e s.tree cleared-IsStored

  cleared-IsSpace : IsSpace offset root (record k { words = cleared })
  cleared-IsSpace = record {
    tree =
        stored-IsTree offset root k.words cleared (low_path v) lowest.0 (pt_index v) e s.tree
          cleared-IsStored;
    valid = s.valid;
    base = s.base;
    room = s.room;
    held = λ p t h. s.held p t (
        stored-new offset root k.words cleared (low_path v) lowest.0 (pt_index v) e s.tree
          cleared-IsStored p t h);
  }

  cleared-zero : (j : ℕ) → j < 512 → cleared (x * 4096 + offset + 8 * j) ≡ 0
  unfolding cleared
  cleared-zero j b = clear_page-inside (x * 4096 + offset) j k.words b

  zero_mapped-cleared :
      k.hhdm ≡ some offset
      → u64 (k.cr3 + offset) ≡ root
      → bit_and e frame_mask ≡ x * 4096
      → x * 4096 + offset < 2 ^ 64
      → zero_mapped v k k.hhdm ≡ record k { words = cleared }
  unfolding zero_mapped cleared pointer
  zero_mapped-cleared h c frame small =
      ap (zero_mapped v k) h
      ∙ ap (λ (t : ℕ). record k { words = clear_page t k.words })
          (ap (λ (pt : ℕ). table_of offset (entry_at k.words pt (pt_index v)))
              (ap (λ (z : ℕ). (page_table offset z v false k).0) c
                ∙ ap (λ (y : ℕ × Paging). y.0) (page_table-pointer offset k root v)
                ∙ ap pointer lowest.1)
            ∙ ap (table_of offset) entry_here
            ∙ ap (λ t. u64 (t + offset)) frame
            ∙ narrow (x * 4096 + offset) small)
    where
      narrow : (y : ℕ) → y < 2 ^ 64 → u64 y ≡ y
      narrow y l = omega arith

-- A fault that the handler resolves: the space is whole, one more page is mapped, and its frame is 0.
pub record IsResolved (offset root addr phys : ℕ) (k k' : Paging) : Type 0 where
  pub space : IsSpace offset root k'
  pub mapped : Remapped offset root k.words k'.words addr (bit_or (bit_or phys 3) 1)
  pub zeros : (j : ℕ) → j < 512 → k'.words (phys + offset + 8 * j) ≡ 0

twice :
    (offset root : ℕ) (words words' words'' : ℕ → ℕ) (v e : ℕ)
    → Remapped offset root words words' v e
    → Remapped offset root words' words'' v e
    → Remapped offset root words words'' v e
twice offset root words words' words'' v e a b w =
    b w
    ∙ ap (λ (x : ℕ). if page_number w == page_number v then e else x) (a w)
    ∙ again (page_number w == page_number v) e (mapping offset root words w)
  where
    again : (c : Bool) (x y : ℕ) → (if c then x else (if c then x else y)) ≡ (if c then x else y)
    again true x y = refl
    again false x y = refl

page_start : (addr : ℕ) → addr < 2 ^ 64 → page_number (bit_and addr frame_mask) ≡ page_number addr
page_start addr h = ap page_number (masked addr h) ∙ same addr
  where
    same : (a : ℕ) → a / 4096 * 4096 / 4096 % 2 ^ 36 ≡ a / 4096 % 2 ^ 36
    same a = omega arith

-- The handler from the granted frame on.
fault_map-IsResolved :
    (offset page phys : ℕ) (k : Paging) (m : Pmm) (g : IsGranted 1 k.pmm phys m)
    → k.hhdm ≡ some offset
    → IsSpace offset (u64 (k.cr3 + offset)) k
    → (paging_map_page page phys 3 (record k { pmm = m })).0 ≡ true
    → (k' : Paging) × (fault_map page phys (record k { pmm = m }) ≡ some k')
      × IsResolved offset (u64 (k.cr3 + offset)) page phys k k'
unfolding fault_map map_entry
fault_map-IsResolved offset page phys k m g h s done =
    let root = u64 (k.cr3 + offset) in
    let (s1, reserved) = granted-Reserved offset root phys k m s g in
    let r = paging_map_page page phys 3 (record k { pmm = m }) in
    let (s2, h2, c2, kept, result) =
      map_page-Mapped offset page phys 3 (record k { pmm = m }) h s1 in
    elim result [
      | inr failed ↦ absurd (true_false (sym done ∙ failed.0))
      | inl mapped ↦
          let e = bit_or (bit_or phys 3) 1 in
          let here = Remapped-here offset root k.words r.1.words page e mapped.1 in
          let frame =
            map_entry-frame phys 3 (omega (arith, g.address))
              (omega (arith, g.address, g.run.upper, s.room)) (omega arith) in
          let there = map_entry-present phys 3 in
          let again = kept g.start reserved in
          let small : g.start * 4096 + offset < 2 ^ 64 = omega (arith, g.run.upper, s.room) in
          (
            record r.1 { words = cleared offset root page g.start e r.1 s2 again here there },
            rw (nonzero, done)
                (ap some (
                  zero_mapped-cleared offset root page g.start e r.1 s2 again here there (h2 ∙ h)
                    (ap (λ c. u64 (c + offset)) c2) (frame ∙ g.address) small)),
            record {
              space = cleared-IsSpace offset root page g.start e r.1 s2 again here there;
              mapped =
                  twice offset root k.words r.1.words _ page e mapped.1
                    (cleared-Remapped offset root page g.start e r.1 s2 again here there);
              zeros = λ j b.
                  ap (cleared offset root page g.start e r.1 s2 again here there)
                    (ap (λ (t : ℕ). t + offset + 8 * j) g.address)
                  ∙ cleared-zero offset root page g.start e r.1 s2 again here there j b;
            },
          )
    ]
  where
    true_false : true ≡ false → ⊥
    true_false q = cc

    nonzero : (phys == 0) ≡ false
    nonzero = ground (arith, g.nonzero)

-- In a whole address space, on a fault on a page of the heap that is not present, if the allocator has
-- a page and `paging_map_page` then succeeds, the handler returns; the space is whole, the page of
-- the fault is mapped to that frame, which is all 0, and every other mapping is as it was.
pub page_fault-IsResolved :
    (offset error_code addr : ℕ) (k : Paging)
    → k.hhdm ≡ some offset
    → IsSpace offset (u64 (k.cr3 + offset)) k
    → error_code % 2 ≡ 0
    → heap_start ≤ addr
    → addr < heap_start + heap_max_size
    → let r = pmm_alloc_page k.pmm in
      r.0 ≢ 0
      → (paging_map_page (bit_and addr frame_mask) r.0 3 (record k { pmm = r.1 })).0 ≡ true
      → (k' : Paging) × (handle_page_fault error_code addr k ≡ some k')
        × IsResolved offset (u64 (k.cr3 + offset)) addr r.0 k k'
unfolding handle_page_fault pmm_alloc_page
page_fault-IsResolved offset error_code addr k h s absent from upto granted done =
    let (k', e, resolved) =
      fault_map-IsResolved offset (bit_and addr frame_mask) (pmm_alloc_pages 1 k.pmm).0 k
        (pmm_alloc_pages 1 k.pmm).1 (alloc-IsGranted 1 k.pmm s.valid granted) h s done in
    (
      k',
      ap
            (λ (b : Bool).
              if b
              then fault_map (bit_and addr frame_mask) (pmm_alloc_pages 1 k.pmm).0
                  (record k { pmm = (pmm_alloc_pages 1 k.pmm).1 })
              else none)
            tests
          ∙ e,
      record {
        space = resolved.space;
        mapped = λ w.
            resolved.mapped w
            ∙ ap
                (λ (n : ℕ).
                  if page_number w == n
                  then bit_or (bit_or (pmm_alloc_pages 1 k.pmm).0 3) 1
                  else mapping offset (u64 (k.cr3 + offset)) k.words w)
                (page_start addr (omega arith));
        zeros = resolved.zeros;
      },
    )
  where
    tests :
        (bit_and error_code 1 == 0
          && (leb heap_start addr && ltb addr (heap_start + heap_max_size)))
        ≡ true
    tests = ground (arith, and-ones 1 error_code)
