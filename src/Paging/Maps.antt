-- ===== src/Paging/Maps.antt =====
-- `paging_map_page` and `paging_unmap_page` of kernel/src/memory/paging.c change one mapping.
use mathlib.Core.Path.{subst}
use deer.Base.{
  ℕ, ◌+◌, ◌*◌, ◌/◌, ◌%◌, ◌^◌, ◌<◌, ◌≡◌, ◌≢◌, ◌⊎◌, refl, sym, ap, ◌∙◌, arith, bit_and, bit_or, Bool,
  true, false, Option, some, List, [], ◌∷◌, ◌==◌, ==_iff, ◌&&◌, if◌then◌else◌, Bool-cases, inl, inr,
  u64, update, update_self, update_other,
}
use deer.Bits.{and-ones}
use deer.Paging.{
  Paging, pml4_index, pdp_index, pd_index, pt_index, store_entry, map_at, paging_map_page,
  paging_invalidate_tlb,
}
use deer.Paging.Tree.{table_at, entry_of, IsTable, IsTree}
use deer.Paging.Space.{Reserved, IsSpace}
use deer.Paging.Store.{IsStored, stored-new, stored-IsTree, stored-here, stored-elsewhere}
use deer.Paging.Walk.{
  Stepped, low_path, low_path-Indices, index_lt, page_table-Stepped, IsExhausted, IsTable-nonzero,
}

-- The entry that maps an address, 0 where there is no table for it.
abbrev pub mapping : (offset root : ℕ) (words : ℕ → ℕ) (v : ℕ) → ℕ
mapping offset root words v = entry_of words (pt_index v) (table_at offset root words (low_path v))

-- The number of the page of an address, in the 48 bits that are translated.
abbrev pub page_number : ℕ → ℕ
page_number v = v / 4096 % 2 ^ 36

nine : (x : ℕ) → bit_and x 0x1FF ≡ x % 512
nine x = and-ones 9 x

digits_of_page :
    (a b : ℕ)
    → a % 2 ^ 36 ≡ b % 2 ^ 36
    → (a % 512 ≡ b % 512)
      × (a / 2 ^ 9 % 512 ≡ b / 2 ^ 9 % 512)
      × (a / 2 ^ 18 % 512 ≡ b / 2 ^ 18 % 512)
      × (a / 2 ^ 27 % 512 ≡ b / 2 ^ 27 % 512)
digits_of_page a b e = (omega arith, omega arith, omega arith, omega arith)

page_of_digits :
    (a b : ℕ)
    → a % 512 ≡ b % 512
    → a / 2 ^ 9 % 512 ≡ b / 2 ^ 9 % 512
    → a / 2 ^ 18 % 512 ≡ b / 2 ^ 18 % 512
    → a / 2 ^ 27 % 512 ≡ b / 2 ^ 27 % 512
    → a % 2 ^ 36 ≡ b % 2 ^ 36
page_of_digits a b e f g h = omega arith

shifts :
    (v : ℕ)
    → (v / 2 ^ 21 ≡ v / 4096 / 2 ^ 9)
      × (v / 2 ^ 30 ≡ v / 4096 / 2 ^ 18)
      × (v / 2 ^ 39 ≡ v / 4096 / 2 ^ 27)
shifts v = (omega arith, omega arith, omega arith)

index_of :
    (x y x' y' : ℕ) → x ≡ x' → y ≡ y' → x' % 512 ≡ y' % 512 → bit_and x 0x1FF ≡ bit_and y 0x1FF
index_of x y x' y' e f g =
    nine x ∙ ap (λ t. t % 512) e ∙ g ∙ sym (ap (λ t. t % 512) f) ∙ sym (nine y)

digit_of :
    (x y x' y' : ℕ) → x ≡ x' → y ≡ y' → bit_and x 0x1FF ≡ bit_and y 0x1FF → x' % 512 ≡ y' % 512
digit_of x y x' y' e f g =
    sym (ap (λ t. t % 512) e) ∙ sym (nine x) ∙ g ∙ nine y ∙ ap (λ t. t % 512) f

same_path : {a b c a' b' c' : ℕ} → a ≡ a' → b ≡ b' → c ≡ c' → a ∷ b ∷ c ∷ [] ≡ a' ∷ b' ∷ c' ∷ []
same_path e f g = λ i. e i ∷ f i ∷ g i ∷ []

same_page :
    (v w : ℕ)
    → page_number w ≡ page_number v
    → (low_path w ≡ low_path v) × (pt_index w ≡ pt_index v)
same_page v w e =
    let d = digits_of_page (w / 4096) (v / 4096) e in
    let sw = shifts w in
    let sv = shifts v in
    (
      same_path (index_of _ _ _ _ sw.0 sv.0 d.1) (index_of _ _ _ _ sw.1 sv.1 d.2)
          (index_of _ _ _ _ sw.2 sv.2 d.3),
      index_of _ _ _ _ refl refl d.0,
    )

path_parts :
    {a b c a' b' c' : ℕ} → a ∷ b ∷ c ∷ [] ≡ a' ∷ b' ∷ c' ∷ [] → (a ≡ a') × (b ≡ b') × (c ≡ c')
path_parts e = (cc, cc, cc)

other_page :
    (v w : ℕ) → page_number w ≢ page_number v → low_path w ≡ low_path v → pt_index w ≢ pt_index v
other_page v w ne path index =
    let parts = path_parts path in
    let sw = shifts w in
    let sv = shifts v in
    ne (
      page_of_digits (w / 4096) (v / 4096) (digit_of _ _ _ _ refl refl index)
        (digit_of _ _ _ _ sw.0 sv.0 parts.0) (digit_of _ _ _ _ sw.1 sv.1 parts.1)
        (digit_of _ _ _ _ sw.2 sv.2 parts.2))

-- One mapping is set.
abbrev pub Remapped : (offset root : ℕ) (words words' : ℕ → ℕ) (v e : ℕ) → Type 0
Remapped offset root words words' v e =
    (w : ℕ)
    → mapping offset root words' w
      ≡ (if page_number w == page_number v then e else mapping offset root words w)

pub stored-Remapped :
    (offset root : ℕ) (words words' : ℕ → ℕ) (v pt e : ℕ)
    → IsTree offset root words
    → IsStored offset root words words' (low_path v) pt (pt_index v) e
    → Remapped offset root words words' v e
stored-Remapped offset root words words' v pt e tree s w =
    elim (Bool-cases (page_number w == page_number v)) [
      | inl same ↦
          let p = same_page v w ((==_iff (page_number w) (page_number v)).0 same) in
          ap (λ x. entry_of words' x (table_at offset root words' (low_path w))) p.1
          ∙ ap (λ x. entry_of words' (pt_index v) (table_at offset root words' x)) p.0
          ∙ stored-here offset root words words' (low_path v) pt (pt_index v) e tree s
          ∙ sym (ap (λ (b : Bool). if b then e else mapping offset root words w) same)
      | inr other ↦
          stored-elsewhere offset root words words' (low_path v) pt (pt_index v) e tree s
            (low_path w) (pt_index w) refl (low_path-Indices w) (index_lt (w / 2 ^ 12))
            (other_page v w (λ q. ground arith))
          ∙ sym (ap (λ (b : Bool). if b then e else mapping offset root words w) other)
    ]

-- The store of an entry in the lowest table of an address.
module _ (offset root : ℕ) (words : ℕ → ℕ) (v pt e : ℕ) (tree : IsTree offset root words)
    (place : IsTable offset root words (low_path v) pt) where
  unfoldable pub written : ℕ → ℕ
  written = update words (pt + 8 * pt_index v) e

  entry-IsStored : IsStored offset root words written (low_path v) pt (pt_index v) e
  unfolding written
  entry-IsStored = record {
    place = place;
    low = refl;
    stored = update_self words (pt + 8 * pt_index v) e;
    kept = λ q t j h b other.
        update_other words (pt + 8 * pt_index v) (t + 8 * j) e
          (λ (same : t + 8 * j ≡ pt + 8 * pt_index v).
            apart pt (pt_index v) t j (tree.aligned (low_path v) pt place) (index_lt (v / 2 ^ 12))
              (tree.aligned q t h) b other same);
  }
    where
      apart :
          (pt i t j : ℕ)
          → pt % 4096 ≡ 0
          → i < 512
          → t % 4096 ≡ 0
          → j < 512
          → (t == pt && j == i) ≡ false
          → t + 8 * j ≡ pt + 8 * i
          → ⊥
      apart pt i t j a b c d other q = ground arith

  pub entry-Remapped : Remapped offset root words written v e
  entry-Remapped = stored-Remapped offset root words written v pt e tree entry-IsStored

  pub entry-IsTree : IsTree offset root written
  entry-IsTree =
      stored-IsTree offset root words written (low_path v) pt (pt_index v) e tree entry-IsStored

  pub entry-new :
      (q : List ℕ) (t : ℕ) → IsTable offset root written q t → IsTable offset root words q t
  entry-new =
      stored-new offset root words written (low_path v) pt (pt_index v) e tree entry-IsStored

-- The store keeps the space whole.
pub store-IsSpace :
    (offset root v pt e : ℕ) (l : Paging) (forgotten : List ℕ)
    → IsSpace offset root l
    → IsTable offset root l.words (low_path v) pt
    → IsSpace offset root
        (record l { words = update l.words (pt + 8 * pt_index v) e; invalidated = forgotten })
unfolding written
store-IsSpace offset root v pt e l forgotten s place = record {
  tree = entry-IsTree offset root l.words v pt e s.tree place;
  valid = s.valid;
  base = s.base;
  room = s.room;
  held = λ q t h. s.held q t (entry-new offset root l.words v pt e s.tree place q t h);
}

-- What a call of `paging_map_page` that stores `e` gives: the mapping; or no change of any mapping,
-- and an allocator without a page.
abbrev pub Mapped : (offset root : ℕ) → Paging → (v e : ℕ) → Bool × Paging → Type 0
Mapped offset root k v e (done, k') =
    IsSpace offset root k'
    × (k'.hhdm ≡ k.hhdm)
    × (k'.cr3 ≡ k.cr3)
    × ((x : ℕ) → Reserved offset root k x → Reserved offset root k' x)
    × (((done ≡ true)
          × Remapped offset root k.words k'.words v e
          × (k'.invalidated ≡ v ∷ k.invalidated))
        ⊎ ((done ≡ false)
            × ((w : ℕ) → mapping offset root k'.words w ≡ mapping offset root k.words w)
            × (k'.invalidated ≡ k.invalidated)
            × IsExhausted k'.pmm))

store_entry-Mapped :
    (offset root v e : ℕ) (k : Paging) (r : ℕ × Paging)
    → Stepped offset root k (pd_index v) (pdp_index v ∷ pml4_index v ∷ []) r
    → Mapped offset root k v e (store_entry v e r)
unfolding store_entry paging_invalidate_tlb written
store_entry-Mapped offset root v e k (pt, l) (kept, at) = elim (Bool-cases (pt == 0)) [
  | inl null ↦ rw null (
    kept.space,
    kept.hhdm,
    kept.cr3,
    kept.reserved,
    inr (refl, unchanged, kept.invalidated, exhausted at null),
  )
  | inr there ↦ rw there (stored at there)
]
  where
    unchanged : (w : ℕ) → mapping offset root l.words w ≡ mapping offset root k.words w
    unchanged w =
        kept.entries (low_path w) (pt_index w) refl (low_path-Indices w) (index_lt (w / 2 ^ 12))

    exhausted :
        ((pt ≡ 0) × IsExhausted l.pmm) ⊎ IsTable offset root l.words (low_path v) pt
        → (pt == 0) ≡ true
        → IsExhausted l.pmm
    exhausted (inl (p, full)) null = full
    exhausted (inr place) null = absurd (
        IsTable-nonzero offset root l.words (pd_index v) (pdp_index v ∷ pml4_index v ∷ []) pt place
          ((==_iff pt 0).0 null))

    stored :
        ((pt ≡ 0) × IsExhausted l.pmm) ⊎ IsTable offset root l.words (low_path v) pt
        → (pt == 0) ≡ false
        → Mapped offset root k v e (
          true,
          record l {
            words = update l.words (pt + 8 * pt_index v) e;
            invalidated = v ∷ l.invalidated;
          },
        )
    stored (inl (null, full)) there = absurd (ground arith)
    stored (inr place) there = (
      store-IsSpace offset root v pt e l (v ∷ l.invalidated) kept.space place,
      kept.hhdm,
      kept.cr3,
      λ x r.
          let r' = kept.reserved x r in
          (
            r'.0,
            λ q t h. r'.1 q t (entry-new offset root l.words v pt e kept.space.tree place q t h),
          ),
      inl (
        refl,
        λ w.
            entry-Remapped offset root l.words v pt e kept.space.tree place w
            ∙ ap (λ x. if page_number w == page_number v then e else x) (unchanged w),
        ap (λ (x : List ℕ). v ∷ x) kept.invalidated,
      ),
    )

-- In a whole address space, `paging_map_page` leaves the space whole. It sets the mapping of the
-- page of the address and of no other, and has the processor forget that address; or it reports
-- failure, every mapping is as it was, nothing is forgotten, and the allocator has no page to give.
pub map_page-Mapped :
    (offset v phys flags : ℕ) (k : Paging)
    → k.hhdm ≡ some offset
    → IsSpace offset (u64 (k.cr3 + offset)) k
    → Mapped offset
        (u64 (k.cr3 + offset))
        k
        v
        (bit_or (bit_or phys flags) 1)
        (paging_map_page v phys flags k)
unfolding paging_map_page map_at
map_page-Mapped offset v phys flags k h s =
    subst
      (λ (o : Option ℕ).
        Mapped offset (u64 (k.cr3 + offset)) k v (bit_or (bit_or phys flags) 1)
          (map_at v phys flags k o))
      (sym h)
      (store_entry-Mapped offset (u64 (k.cr3 + offset)) v (bit_or (bit_or phys flags) 1) k _
        (page_table-Stepped offset (u64 (k.cr3 + offset)) v k s))
