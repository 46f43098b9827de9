-- ===== src/Paging/Unmap.antt =====
-- `paging_unmap_page` of kernel/src/memory/paging.c, and what a reader sees after a mapping is made
-- and taken away.
use mathlib.Core.Path.{subst}
use deer.Base.{
  ℕ, ◌+◌, ◌-◌, ◌*◌, ◌/◌, ◌%◌, ◌^◌, ◌<◌, ◌≤◌, ◌≡◌, ◌≢◌, ◌⊎◌, refl, sym, ap, ◌∙◌, arith, bit_and,
  bit_or, Bool, true, false, Option, none, some, ◌∷◌, ◌==◌, if◌then◌else◌, Bool-cases, inl, inr,
  u64, leb,
}
use deer.Bits.{or-shift, or-lt, or-zero}
use deer.Bits.Digit.{or_digit}
use deer.Pmm.{pmm_free_page}
use deer.Paging.{
  Paging, entry_at, is_present, frame_mask, pt_index, clear_entry, unmap_at, paging_unmap_page,
  paging_map_page, paging_invalidate_tlb, paging_is_mapped, paging_get_physical_address,
}
use deer.Paging.Tree.{table_at, entry_of, IsTable, IsTree}
use deer.Paging.Space.{IsSpace, masked, present-odd}
use deer.Paging.Walk.{low_path, low_path-Indices}
use deer.Paging.Maps.{
  mapping, page_number, Remapped, Mapped, written, entry-Remapped, entry-IsTree, map_page-Mapped,
}
use deer.Paging.Reads.{
  pointer, page_table-pointer, low-nonzero, is_mapped-mapping, get_physical-mapping,
}

-- What `paging_unmap_page` gives: the mapping is gone and its frame given back, or nothing is done.
abbrev pub Unmapped : (offset root : ℕ) → Paging → (v : ℕ) → Bool × Paging → Type 0
Unmapped offset root k v (done, k') =
    ((is_present (mapping offset root k.words v) ≡ true)
      × (done ≡ true)
      × Remapped offset root k.words k'.words v 0
      × IsTree offset root k'.words
      × (k'.hhdm ≡ k.hhdm)
      × (k'.cr3 ≡ k.cr3)
      × (k'.pmm ≡ pmm_free_page (bit_and (mapping offset root k.words v) frame_mask) k.pmm)
      × (k'.invalidated ≡ v ∷ k.invalidated))
    ⊎ ((is_present (mapping offset root k.words v) ≡ false) × (done ≡ false) × (k' ≡ k))

clear_entry-Unmapped :
    (offset root v : ℕ) (k : Paging)
    → IsTree offset root k.words
    → (o : Option ℕ) → table_at offset root k.words (low_path v) ≡ o
    → Unmapped offset root k v (clear_entry v (pointer o, k))
unfolding clear_entry pointer entry_of paging_invalidate_tlb written
clear_entry-Unmapped offset root v k tree none e =
    inr (ap (λ (o : Option ℕ). is_present (entry_of k.words (pt_index v) o)) e, refl, refl)
clear_entry-Unmapped offset root v k tree (some pt) e =
    elim (Bool-cases (is_present (entry_at k.words pt (pt_index v)))) [
      | inr absent ↦ rw (low-nonzero offset k root v pt e, absent) (inr (here ∙ absent, refl, refl))
      | inl present ↦
          rw (low-nonzero offset k root v pt e, present)
            (inl (
              here ∙ present,
              refl,
              entry-Remapped offset root k.words v pt 0 tree place,
              entry-IsTree offset root k.words v pt 0 tree place,
              refl,
              refl,
              ap
                  (λ (o : Option ℕ).
                    pmm_free_page (bit_and (entry_of k.words (pt_index v) o) frame_mask) k.pmm)
                  (sym e),
              refl,
            ))
    ]
  where
    here :
        is_present (mapping offset root k.words v) ≡ is_present (entry_at k.words pt (pt_index v))
    here = ap (λ (o : Option ℕ). is_present (entry_of k.words (pt_index v) o)) e

    place : IsTable offset root k.words (low_path v) pt
    place = record { short = omega arith; indices = low_path-Indices v; found = e }

-- Where the tables form a tree, `paging_unmap_page` of an address whose entry is present removes the
-- mapping of its page and no other, gives the frame of the entry back, and has the processor forget the
-- address; of any other address it reports failure and does nothing.
pub unmap_page-Unmapped :
    (offset v : ℕ) (k : Paging)
    → k.hhdm ≡ some offset
    → IsTree offset (u64 (k.cr3 + offset)) k.words
    → Unmapped offset (u64 (k.cr3 + offset)) k v (paging_unmap_page v k)
unfolding paging_unmap_page unmap_at
unmap_page-Unmapped offset v k h tree =
    subst (λ (o : Option ℕ). Unmapped offset (u64 (k.cr3 + offset)) k v (unmap_at v k o)) (sym h)
      (subst (λ r. Unmapped offset (u64 (k.cr3 + offset)) k v (clear_entry v r))
        (sym (page_table-pointer offset k (u64 (k.cr3 + offset)) v))
        (clear_entry-Unmapped offset (u64 (k.cr3 + offset)) v k tree
          (table_at offset (u64 (k.cr3 + offset)) k.words (low_path v)) refl))

-- The entry that `paging_map_page` stores.
module _ (phys flags : ℕ) where
  unfoldable pub map_entry : ℕ
  map_entry = bit_or (bit_or phys flags) 1

  pub map_entry-present : is_present map_entry ≡ true
  unfolding map_entry
  map_entry-present =
      present-odd (bit_or (bit_or phys flags) 1) (omega (arith, or_digit (bit_or phys flags) 1))

  pub map_entry-frame :
      phys % 4096 ≡ 0 → phys < 2 ^ 64 → flags < 4096 → bit_and map_entry frame_mask ≡ phys
  unfolding map_entry
  map_entry-frame whole small flagged =
      masked (bit_or (bit_or phys flags) 1)
        (or-lt 64 (bit_or phys flags) 1 (or-lt 64 phys flags small (omega arith)) (omega arith))
      ∙ ap (λ t. t * 4096) high
      ∙ omega arith
    where
      high : bit_or (bit_or phys flags) 1 / 4096 ≡ phys / 4096
      high =
          or-shift 12 (bit_or phys flags) 1
          ∙ or-zero (bit_or phys flags / 2 ^ 12)
          ∙ or-shift 12 phys flags
          ∙ ap (bit_or (phys / 2 ^ 12)) (omega arith)
          ∙ or-zero (phys / 2 ^ 12)

itself : (n : ℕ) → (n == n) ≡ true
itself n = ground arith

pub Remapped-here :
    (offset root : ℕ) (words words' : ℕ → ℕ) (v e : ℕ)
    → Remapped offset root words words' v e
    → mapping offset root words' v ≡ e
Remapped-here offset root words words' v e r =
    r v ∙ ap (λ (b : Bool). if b then e else mapping offset root words v) (itself (page_number v))

-- What the two readers say of an address below the direct map, by its entry.
reads :
    (offset root v e : ℕ) (k : Paging)
    → k.hhdm ≡ some offset
    → u64 (k.cr3 + offset) ≡ root
    → v < offset
    → mapping offset root k.words v ≡ e
    → (paging_is_mapped v k ≡ is_present e)
      × (paging_get_physical_address v k ≡ (if is_present e then bit_and e frame_mask else 0))
reads offset root v e k h c low m = (
  is_mapped-mapping offset v k h ∙ ap is_present here,
  get_physical-mapping offset v k h
      ∙ ap
          (λ (b : Bool).
            if b
            then v - offset
            else (if is_present (mapping offset (u64 (k.cr3 + offset)) k.words v)
                then bit_and (mapping offset (u64 (k.cr3 + offset)) k.words v) frame_mask
                else 0))
          (not_above offset v low)
      ∙ ap (λ (x : ℕ). if is_present x then bit_and x frame_mask else 0) here,
)
  where
    here : mapping offset (u64 (k.cr3 + offset)) k.words v ≡ e
    here = ap (λ x. mapping offset x k.words v) c ∙ m

    not_above : (offset v : ℕ) → v < offset → leb offset v ≡ false
    not_above offset v low = ground arith

-- What is read while an entry is present, and after its page is unmapped.
present-unmap :
    (offset v e : ℕ) (k : Paging)
    → k.hhdm ≡ some offset
    → v < offset
    → IsTree offset (u64 (k.cr3 + offset)) k.words
    → mapping offset (u64 (k.cr3 + offset)) k.words v ≡ e
    → is_present e ≡ true
    → (paging_is_mapped v k ≡ true)
      × (paging_get_physical_address v k ≡ bit_and e frame_mask)
      × ((paging_unmap_page v k).0 ≡ true)
      × (paging_is_mapped v (paging_unmap_page v k).1 ≡ false)
present-unmap offset v e k h low tree m present =
    let before = reads offset (u64 (k.cr3 + offset)) v e k h refl low m in
    elim (unmap_page-Unmapped offset v k h tree) [
      | inr failed ↦ absurd (true_false (sym present ∙ ap is_present (sym m) ∙ failed.0))
      | inl (there, done, r, tree', h', c', freed, forgot) ↦
          let k' = (paging_unmap_page v k).1 in
          let after =
            reads offset (u64 (k.cr3 + offset)) v 0 k' (h' ∙ h) (ap (λ c. u64 (c + offset)) c') low
              (Remapped-here offset (u64 (k.cr3 + offset)) k.words k'.words v 0 r) in
          (
            before.0 ∙ present,
            before.1 ∙ ap (λ (b : Bool). if b then bit_and e frame_mask else 0) present,
            done,
            after.0,
          )
    ]
  where
    true_false : true ≡ false → ⊥
    true_false q = cc

-- In a whole address space, after `paging_map_page` has mapped a page below the direct map to a
-- frame, the page is reported as mapped and its physical address is that frame; and
-- `paging_unmap_page` then succeeds, and after it the page is reported as not mapped.
pub map-unmap :
    (offset v phys flags : ℕ) (k : Paging)
    → k.hhdm ≡ some offset
    → IsSpace offset (u64 (k.cr3 + offset)) k
    → v < offset
    → phys % 4096 ≡ 0
    → phys < 2 ^ 64
    → flags < 4096
    → (paging_map_page v phys flags k).0 ≡ true
    → let k' = (paging_map_page v phys flags k).1 in
      (paging_is_mapped v k' ≡ true)
      × (paging_get_physical_address v k' ≡ phys)
      × ((paging_unmap_page v k').0 ≡ true)
      × (paging_is_mapped v (paging_unmap_page v k').1 ≡ false)
unfolding map_entry
map-unmap offset v phys flags k h s low whole small flagged done =
    elim (map_page-Mapped offset v phys flags k h s).4 [
      | inr failed ↦ absurd (true_false (sym done ∙ failed.0))
      | inl mapped ↦
          let r =
            present-unmap offset v (bit_or (bit_or phys flags) 1) (paging_map_page v phys flags k).1
              (m.1 ∙ h) low
              (subst
                (λ c. IsTree offset (u64 (c + offset)) (paging_map_page v phys flags k).1.words)
                (sym m.2) m.0.tree)
              (ap
                  (λ c.
                    mapping offset (u64 (c + offset)) (paging_map_page v phys flags k).1.words v)
                  m.2
                ∙ Remapped-here offset (u64 (k.cr3 + offset)) k.words
                    (paging_map_page v phys flags k).1.words v _ mapped.1)
              (map_entry-present phys flags) in
          (r.0, r.1 ∙ map_entry-frame phys flags whole small flagged, r.2, r.3)
    ]
  where
    true_false : true ≡ false → ⊥
    true_false q = cc

    m :
        Mapped offset
          (u64 (k.cr3 + offset))
          k
          v
          (bit_or (bit_or phys flags) 1)
          (paging_map_page v phys flags k)
    m = map_page-Mapped offset v phys flags k h s

-- `paging_get_physical_address` is wrong for a page that is mapped at or above the direct map's
-- start, such as one of the heap, to a frame other than the one that the direct map has there.
pub get_physical-high :
    (offset v phys flags : ℕ) (k : Paging)
    → k.hhdm ≡ some offset
    → IsSpace offset (u64 (k.cr3 + offset)) k
    → offset ≤ v
    → phys ≢ v - offset
    → (paging_map_page v phys flags k).0 ≡ true
    → paging_get_physical_address v (paging_map_page v phys flags k).1 ≢ phys
get_physical-high offset v phys flags k h s high other done same = other (
    sym same
    ∙ get_physical-mapping offset v (paging_map_page v phys flags k).1 (m.1 ∙ h)
    ∙ rw (above offset v high) refl)
  where
    m :
        Mapped offset
          (u64 (k.cr3 + offset))
          k
          v
          (bit_or (bit_or phys flags) 1)
          (paging_map_page v phys flags k)
    m = map_page-Mapped offset v phys flags k h s

    above : (offset v : ℕ) → offset ≤ v → leb offset v ≡ true
    above offset v h = ground arith
