-- ===== src/Paging/Reads.antt =====
-- What `paging_is_mapped` and `paging_get_physical_address` of kernel/src/memory/paging.c read.
use deer.Base.{
  ℕ, ◌+◌, ◌-◌, ◌≡◌, refl, sym, ap, ◌∙◌, bit_and, false, Option, none, some, [], ◌∷◌, ◌==◌, ==_iff,
  not, if◌then◌else◌, Bool-cases, inl, inr, u64, leb,
}
use deer.Paging.{
  Paging, entry_at, is_present, table_of, frame_mask, get_next_table, then_next, page_table,
  pml4_index, pdp_index, pd_index, pt_index, read_level, is_mapped_at, paging_is_mapped,
  physical_at, paging_get_physical_address,
}
use deer.Paging.Tree.{none-some, some_inj, below, below_of, table_at, entry_of}
use deer.Paging.Walk.{low_path}
use deer.Paging.Maps.{mapping}

-- The pointer that the code has for a table that may be missing.
unfoldable pub pointer : Option ℕ → ℕ
pointer none = 0
pointer (some t) = t

-- What a reader gives for a table that may be missing.
at_level {ℓ} : {A : Type ℓ} → A → (ℕ → A) → Option ℕ → A
at_level absent next none = absent
at_level absent next (some t) = next t

module _ (offset : ℕ) (k : Paging) where
  get_next_table-pointer :
      (t i : ℕ) → get_next_table offset t i false k ≡ (pointer (below offset k.words t i), k)
  unfolding get_next_table below pointer
  get_next_table-pointer t i = elim (Bool-cases (is_present (entry_at k.words t i))) [
    | inr absent ↦ rw absent refl
    | inl present ↦ elim (Bool-cases (table_of offset (entry_at k.words t i) == 0)) [
      | inl null ↦
          rw (present, null)
            (ap (λ (x : ℕ). (x, k)) ((==_iff (table_of offset (entry_at k.words t i)) 0).0 null))
      | inr there ↦ rw (present, there) refl
    ]
  ]

  read_level-below {ℓ} :
      {A : Type ℓ} (t i : ℕ) (absent : A) (next : ℕ → A)
      → read_level offset t i k absent next ≡ at_level absent next (below offset k.words t i)
  unfolding below at_level get_next_table
  read_level-below t i absent next = elim (Bool-cases (is_present (entry_at k.words t i))) [
    | inr not_there ↦ rw not_there refl
    | inl present ↦ elim (Bool-cases (table_of offset (entry_at k.words t i) == 0)) [
      | inl null ↦ rw (present, null) refl
      | inr there ↦ rw (present, there) refl
    ]
  ]

  read_level-below_of {ℓ} :
      {A : Type ℓ} (i : ℕ) (absent : A) (next : ℕ → A) (o : Option ℕ)
      → at_level absent (λ t. read_level offset t i k absent next) o
        ≡ at_level absent next (below_of offset k.words i o)
  unfolding at_level below_of
  read_level-below_of i absent next none = refl
  read_level-below_of i absent next (some t) = read_level-below t i absent next

  levels {ℓ} :
      {A : Type ℓ} (root v : ℕ) (absent : A) (last : ℕ → A)
      → read_level offset root (pml4_index v) k absent (λ pdp.
        read_level offset pdp
          (pdp_index v)
          k
          absent
          (λ pd. read_level offset pd (pd_index v) k absent last))
        ≡ at_level absent last (table_at offset root k.words (low_path v))
  unfolding table_at below_of
  levels root v absent last =
      read_level-below root (pml4_index v) absent _
      ∙ read_level-below_of (pdp_index v) absent _ (below offset k.words root (pml4_index v))
      ∙ read_level-below_of (pd_index v) absent last
          (below_of offset k.words (pdp_index v) (below offset k.words root (pml4_index v)))

  below-nonzero : (t i u : ℕ) → below offset k.words t i ≡ some u → (u == 0) ≡ false
  unfolding below
  below-nonzero t i u e = elim (Bool-cases (is_present (entry_at k.words t i))) [
    | inr absent ↦ absurd (none-some u (sym (rw absent refl) ∙ e))
    | inl present ↦ elim (Bool-cases (table_of offset (entry_at k.words t i) == 0)) [
      | inl null ↦ absurd (none-some u (sym (rw (present, null) refl) ∙ e))
      | inr there ↦
          sym (
            ap (λ (x : ℕ). x == 0)
              (some_inj (table_of offset (entry_at k.words t i)) u
                (sym (rw (present, there) refl) ∙ e)))
          ∙ there
    ]
  ]

  then_next-pointer :
      (i j : ℕ) (o : Option ℕ)
      → then_next offset j false (pointer (below_of offset k.words i o), k)
        ≡ (pointer (below_of offset k.words j (below_of offset k.words i o)), k)
  unfolding below_of
  then_next-pointer i j none = unfold then_next pointer in refl
  then_next-pointer i j (some t) = next (below offset k.words t i) (below-nonzero t i)
    where
      next :
          (o : Option ℕ)
          → ((u : ℕ) → o ≡ some u → (u == 0) ≡ false)
          → then_next offset j false (pointer o, k) ≡ (pointer (below_of offset k.words j o), k)
      next none ne = unfold then_next pointer in refl
      next (some u) ne = unfold then_next pointer in rw (ne u refl) (get_next_table-pointer u j)

  -- The walk that makes no table finds the lowest one.
  pub page_table-pointer :
      (root v : ℕ)
      → page_table offset root v false k ≡ (pointer (table_at offset root k.words (low_path v)), k)
  unfolding page_table table_at below_of
  page_table-pointer root v =
      ap (λ r. then_next offset (pd_index v) false (then_next offset (pdp_index v) false r))
        (get_next_table-pointer root (pml4_index v))
      ∙ ap (then_next offset (pd_index v) false)
          (then_next-pointer (pml4_index v) (pdp_index v) (some root))
      ∙ then_next-pointer (pdp_index v) (pd_index v) (below offset k.words root (pml4_index v))

  pub low-nonzero :
      (root v t : ℕ) → table_at offset root k.words (low_path v) ≡ some t → (t == 0) ≡ false
  unfolding table_at
  low-nonzero root v t e = from (table_at offset root k.words (pdp_index v ∷ pml4_index v ∷ [])) e
    where
      from : (o : Option ℕ) → below_of offset k.words (pd_index v) o ≡ some t → (t == 0) ≡ false
      from none e = unfold below_of in absurd (none-some t e)
      from (some u) e = unfold below_of in below-nonzero u (pd_index v) t e

-- An address is reported as mapped exactly if its entry is present.
pub is_mapped-mapping :
    (offset v : ℕ) (k : Paging)
    → k.hhdm ≡ some offset
    → paging_is_mapped v k ≡ is_present (mapping offset (u64 (k.cr3 + offset)) k.words v)
unfolding paging_is_mapped is_mapped_at
is_mapped-mapping offset v k h =
    ap (is_mapped_at v k) h
    ∙ levels offset k (u64 (k.cr3 + offset)) v false
        (λ pt. is_present (entry_at k.words pt (pt_index v)))
    ∙ last (table_at offset (u64 (k.cr3 + offset)) k.words (low_path v))
  where
    last :
        (o : Option ℕ)
        → at_level false (λ pt. is_present (entry_at k.words pt (pt_index v))) o
          ≡ is_present (entry_of k.words (pt_index v) o)
    last none = unfold at_level entry_of in refl
    last (some pt) = unfold at_level entry_of in refl

-- Below the direct map the physical address is the frame of the entry, 0 if it is not present; from
-- the direct map on it is the distance from its start, whatever the tables hold.
pub get_physical-mapping :
    (offset v : ℕ) (k : Paging)
    → k.hhdm ≡ some offset
    → paging_get_physical_address v k ≡ (
        if leb offset v
        then v - offset
        else (if is_present (mapping offset (u64 (k.cr3 + offset)) k.words v)
            then bit_and (mapping offset (u64 (k.cr3 + offset)) k.words v) frame_mask
            else 0))
unfolding paging_get_physical_address physical_at
get_physical-mapping offset v k h =
    ap (physical_at v k) h
    ∙ ap (λ (x : ℕ). if leb offset v then v - offset else x)
        (levels offset k (u64 (k.cr3 + offset)) v 0 _
          ∙ last (table_at offset (u64 (k.cr3 + offset)) k.words (low_path v)))
  where
    last :
        (o : Option ℕ)
        → at_level 0
            (λ pt.
              if not (is_present (entry_at k.words pt (pt_index v)))
              then 0
              else bit_and (entry_at k.words pt (pt_index v)) frame_mask)
            o
          ≡ (if is_present (entry_of k.words (pt_index v) o)
              then bit_and (entry_of k.words (pt_index v) o) frame_mask
              else 0)
    last none = unfold at_level entry_of in refl
    last (some pt) =
        unfold at_level entry_of in
        elim (Bool-cases (is_present (entry_at k.words pt (pt_index v)))) [
          | inl a ↦ rw a refl
          | inr a ↦ rw a refl
        ]
