-- ===== src/Vmm/Maps.antt =====
-- `vmm_map_page` of kernel/src/memory/vmm.c sets one mapping of the space that it is called with.
use mathlib.Core.Path.{subst}
use deer.Base.{
  ℕ, ◌+◌, ◌*◌, ◌/◌, ◌^◌, ◌<◌, ◌≡◌, ◌⊎◌, refl, sym, ap, ◌∙◌, arith, bit_and, bit_or, Bool, true,
  false, Option, none, some, List, [], ◌∷◌, length, ◌==◌, not, if◌then◌else◌, Bool-cases, inl, inr,
}
use deer.Bits.{or-zero}
use deer.Bits.Digit.{or_digit}
use deer.Pmm.{pmm_alloc_page}
use deer.Paging.{
  Paging, entry_at, is_present, table_of, table_entry, pml4_index, pdp_index, pd_index, pt_index,
}
use deer.Paging.Tree.{IsTable}
use deer.Paging.Space.{
  IsSpace, IsKept, IsKept-refl, IsKept-trans, IsEntryOf, table_entry-value, flags_entry, set_second,
}
use deer.Paging.Walk.{
  Makes, low_path, low_path-Indices, index_lt, root-IsTable, new_table-Stepped, new_table-IsTable,
  present-IsTable, absent-below,
}
use deer.Paging.Maps.{mapping, page_number, Remapped, written, entry-Remapped, store-IsSpace}
use deer.Vmm.{Vmm, user_entry, vmm_next, vmm_then, vmm_store, vmm_map_root, vmm_map_page}

set_third : (x : ℕ) → bit_or (x * 8 + 3) 4 ≡ x * 8 + 7
set_third x = omega (arith, or_digit (x * 8 + 3) 4, halves)
  where
    halves : bit_or ((x * 8 + 3) / 2) (4 / 2) ≡ x * 4 + 3
    halves = ap (λ t. bit_or t 2) (omega arith) ∙ set_second x

user_entry-Makes : (flags : ℕ) → Makes (user_entry flags)
unfolding user_entry
user_entry-Makes flags x small = elim (Bool-cases (not (bit_and flags 4 == 0))) [
  | inl user ↦ rw user (
      subst (IsEntryOf (x * 4096))
        (sym (ap (λ t. bit_or t 4) (table_entry-value x ∙ split x) ∙ set_third (x * 512) ∙ join x))
        (flags_entry x 7 small (omega arith) (omega arith)))
  | inr kernel ↦ rw kernel (
      subst (IsEntryOf (x * 4096)) (sym (or-zero (table_entry (x * 4096)) ∙ table_entry-value x))
        (flags_entry x 3 small (omega arith) (omega arith)))
]
  where
    split : (x : ℕ) → x * 4096 + 3 ≡ x * 512 * 8 + 3
    split x = omega arith

    join : (x : ℕ) → x * 512 * 8 + 7 ≡ x * 4096 + 7
    join x = omega arith

some-none : (t : ℕ) → some t ≡ none → ⊥
some-none t e = cc

some_injective : (t u : ℕ) → some u ≡ some t → t ≡ u
some_injective t u e = cc

-- What a step gives: no table, or the one there.
abbrev SteppedTo : (offset root : ℕ) → Paging → List ℕ → Option ℕ × Paging → Type 0
SteppedTo offset root k p (o, k') =
    IsKept offset root k k'
    × ((o ≡ none) ⊎ ((t : ℕ) × (o ≡ some t) × IsTable offset root k'.words p t))

vmm_next-SteppedTo :
    (flags offset root : ℕ) (k : Paging) (p : List ℕ) (cur i : ℕ)
    → IsSpace offset root k
    → IsTable offset root k.words p cur
    → length p < 3
    → i < 512
    → SteppedTo offset root k (i ∷ p) (vmm_next flags offset cur i k)
unfolding vmm_next
vmm_next-SteppedTo flags offset root k p cur i s place high index =
    elim (Bool-cases (is_present (entry_at k.words cur i))) [
      | inl present ↦ rw present (
        IsKept-refl offset root k s,
        inr (
          table_of offset (entry_at k.words cur i),
          refl,
          present-IsTable offset root k p cur i s.tree place high index present,
        ),
      )
      | inr absent ↦
          let unused = absent-below offset k cur i absent in
          elim (Bool-cases ((pmm_alloc_page k.pmm).0 == 0)) [
            | inl full ↦
                rw (absent, full)
                  (
                    (new_table-Stepped (user_entry flags) (user_entry-Makes flags) offset root k s p
                        cur i place high index unused).0,
                    inl refl,
                  )
            | inr granted ↦
                let made =
                  new_table-IsTable (user_entry flags) (user_entry-Makes flags) offset root k s p
                    cur i place high index unused (λ e. ground arith) in
                rw (absent, granted) (made.0, inr (_, refl, made.1))
          ]
    ]

vmm_then-SteppedTo :
    (flags offset root : ℕ) (k : Paging) (j : ℕ) (p : List ℕ) (i : ℕ) (r : Option ℕ × Paging)
    → SteppedTo offset root k (j ∷ p) r
    → length (j ∷ p) < 3
    → i < 512
    → SteppedTo offset root k (i ∷ j ∷ p) (vmm_then flags offset i r)
unfolding vmm_then
vmm_then-SteppedTo flags offset root k j p i (none, l) (kept, at) high index = (kept, inl refl)
vmm_then-SteppedTo flags offset root k j p i (some t, l) (kept, inl missing) high index =
    absurd (some-none t missing)
vmm_then-SteppedTo flags offset root k j p i (some t, l) (kept, inr (u, e, place)) high index =
    let next =
      vmm_next-SteppedTo flags offset root l (j ∷ p) t i kept.space
        (subst (IsTable offset root l.words (j ∷ p)) (some_injective u t e) place) high index in
    (IsKept-trans offset root k l (vmm_next flags offset t i l).1 kept next.0, next.1)

-- What mapping `v` to the entry `e` in the space with this root gives: that mapping and no other is
-- changed, or none is.
abbrev pub MappedIn : (offset root : ℕ) → Paging → (v e : ℕ) → Bool × Paging → Type 0
MappedIn offset root k v e (done, k') =
    IsSpace offset root k'
    × (k'.cr3 ≡ k.cr3)
    × (k'.invalidated ≡ k.invalidated)
    × (((done ≡ true) × Remapped offset root k.words k'.words v e)
        ⊎ ((done ≡ false)
            × ((w : ℕ) → mapping offset root k'.words w ≡ mapping offset root k.words w)))

vmm_store-MappedIn :
    (offset root v e : ℕ) (k : Paging) (r : Option ℕ × Paging)
    → SteppedTo offset root k (low_path v) r
    → MappedIn offset root k v e (vmm_store v e r)
unfolding vmm_store written
vmm_store-MappedIn offset root v e k (none, l) (kept, at) = (
  kept.space,
  kept.cr3,
  kept.invalidated,
  inr (
    refl,
    λ w. kept.entries (low_path w) (pt_index w) refl (low_path-Indices w) (index_lt (w / 2 ^ 12)),
  ),
)
vmm_store-MappedIn offset root v e k (some pt, l) (kept, inl missing) =
    absurd (some-none pt missing)
vmm_store-MappedIn offset root v e k (some pt, l) (kept, inr (u, same, there)) =
    let place = subst (IsTable offset root l.words (low_path v)) (some_injective u pt same) there in
    (
      store-IsSpace offset root v pt e l l.invalidated kept.space place,
      kept.cr3,
      kept.invalidated,
      inl (
        refl,
        λ w.
            entry-Remapped offset root l.words v pt e kept.space.tree place w
            ∙ ap (λ (x : ℕ). if page_number w == page_number v then e else x)
                (kept.entries (low_path w) (pt_index w) refl (low_path-Indices w)
                  (index_lt (w / 2 ^ 12))),
      ),
    )

vmm_map_root-MappedIn :
    (offset root v phys flags : ℕ) (k : Paging)
    → IsSpace offset root k
    → MappedIn offset root k v
        (bit_or (bit_or phys flags) 1)
        (vmm_map_root offset root v phys flags k)
unfolding vmm_map_root
vmm_map_root-MappedIn offset root v phys flags k s =
    vmm_store-MappedIn offset root v (bit_or (bit_or phys flags) 1) k _ (
      vmm_then-SteppedTo flags offset root k (pdp_index v) (pml4_index v ∷ []) (pd_index v) _
        (vmm_then-SteppedTo flags offset root k (pml4_index v) [] (pdp_index v) _
          (vmm_next-SteppedTo flags offset root k [] root (pml4_index v) s
            (root-IsTable offset root k.words) (omega arith) (index_lt (v / 2 ^ 39)))
          (omega arith) (index_lt (v / 2 ^ 30)))
        (omega arith) (index_lt (v / 2 ^ 21)))

-- In a space that is whole, `vmm_map_page` leaves it whole and the processor as it was, and sets the
-- mapping of the page of the address and of no other; or it reports failure and every mapping is as
-- it was.
pub vmm_map_page-MappedIn :
    (space v phys flags : ℕ) (k : Vmm)
    → 0 < space
    → IsSpace k.hhdm_offset (k.spaces space).pml4 k.paging
    → let r = vmm_map_page space v phys flags k in
      MappedIn k.hhdm_offset
        (k.spaces space).pml4
        k.paging
        v
        (bit_or (bit_or phys flags) 1)
        (r.0, r.1.paging)
unfolding vmm_map_page
vmm_map_page-MappedIn space v phys flags k pos s =
    rw (present space pos)
      (vmm_map_root-MappedIn k.hhdm_offset (k.spaces space).pml4 v phys flags k.paging s)
  where
    present : (n : ℕ) → 0 < n → (n == 0) ≡ false
    present n h = ground arith
