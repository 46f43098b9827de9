-- ===== src/Paging/Walk.antt =====
-- The way down the page tables, which makes the tables that are missing.
use mathlib.Core.Path.{subst}
use deer.Base.{
  ℕ, ◌+◌, ◌*◌, ◌/◌, ◌%◌, ◌^◌, ◌<◌, ◌≡◌, ◌≢◌, ◌⊎◌, refl, sym, ap, ◌∙◌, arith, bit_and, Bool, true,
  false, none, some, List, [], ◌∷◌, length, ◌==◌, ==_iff, ◌&&◌, if◌then◌else◌, Bool-cases, inl, inr,
  u64, update, update_self, update_other,
}
use deer.Bits.{and-ones}
use deer.Pmm.{page_free, Pmm, bitmap_test, pmm_alloc_page, pmm_alloc_pages}
use deer.Pmm.Alloc.{IsGranted, alloc-IsGranted, alloc-unchanged, page_free-clear}
use deer.Paging.{
  Paging, entry_at, is_present, table_of, clear_page, new_table, get_next_table, then_next,
  page_table, table_entry, pml4_index, pdp_index, pd_index,
}
use deer.Paging.Tree.{
  IsBelow-IsTable, IsTable-IsBelow, below, table_at, Indices, IsTable, IsTree, none-some, some_inj,
}
use deer.Paging.Grow.{IsGrown, grown-old, grown-new, grown-IsTable, grown-IsTree, grown-entry_of}
use deer.Paging.Space.{
  clear_page-inside, clear_page-outside, IsSpace, IsKept, IsKept-refl, IsKept-trans, IsEntryOf,
  table_entry-IsEntryOf,
}

==-false : (n : ℕ) → n ≢ 0 → (n == 0) ≡ false
==-false n ne = ground arith

below-present :
    (offset : ℕ) (words : ℕ → ℕ) (t i e phys : ℕ)
    → words (t + 8 * i) ≡ e
    → IsEntryOf phys e
    → phys + offset < 2 ^ 64
    → 0 < phys
    → below offset words t i ≡ some (phys + offset)
unfolding below
below-present offset words t i e phys word h small pos =
    ap
      (λ (x : ℕ).
        if is_present x
        then (if table_of offset x == 0 then none else some (table_of offset x))
        else none)
      word
    ∙ ap
        (λ (b : Bool).
          if b then (if table_of offset e == 0 then none else some (table_of offset e)) else none)
        h.0
    ∙ ap (λ (x : ℕ). if x == 0 then none else some x)
        (ap (λ x. u64 (x + offset)) h.1 ∙ narrow (phys + offset) small)
    ∙ ap (λ (b : Bool). if b then none else some (phys + offset)) (positive phys offset pos)
  where
    narrow : (x : ℕ) → x < 2 ^ 64 → u64 x ≡ x
    narrow x l = omega arith

    positive : (a b : ℕ) → 0 < a → (a + b == 0) ≡ false
    positive a b l = ground arith

-- The stores of a new table, in the page `n` that belongs to no table.
module _ (offset root : ℕ) (words : ℕ → ℕ) (p : List ℕ) (cur i phys e : ℕ) where
  new_table-IsGrown :
      IsTable offset root words p cur
      → length p < 3
      → i < 512
      → cur % 4096 ≡ 0
      → (phys + offset) % 4096 ≡ 0
      → phys + offset < 2 ^ 64
      → 0 < phys
      → below offset words cur i ≡ none
      → ((q : List ℕ) (t : ℕ) → IsTable offset root words q t → t ≢ phys + offset)
      → IsEntryOf phys e
      → IsGrown offset root words
          (update (clear_page (phys + offset) words) (cur + 8 * i) e)
          p
          cur
          i
          (phys + offset)
  new_table-IsGrown place high index aligned page small pos unused fresh entry = record {
    place = place;
    high = high;
    index = index;
    unused = unused;
    fresh = fresh;
    page = page;
    empty = λ j h.
        update_other (clear_page (phys + offset) words) (cur + 8 * i) (phys + offset + 8 * j) e
          (λ (q : phys + offset + 8 * j ≡ cur + 8 * i). fresh p cur place (omega arith))
        ∙ clear_page-inside (phys + offset) j words h;
    entry =
        below-present offset (update (clear_page (phys + offset) words) (cur + 8 * i) e) cur i e
          phys (update_self (clear_page (phys + offset) words) (cur + 8 * i) e) entry small pos;
    kept = λ t j a b ne other.
        update_other (clear_page (phys + offset) words) (cur + 8 * i) (t + 8 * j) e
          (λ (q : t + 8 * j ≡ cur + 8 * i). apart t j a b other q)
        ∙ clear_page-outside (phys + offset) t j words page a b ne;
  }
    where
      apart :
          (t j : ℕ)
          → t % 4096 ≡ 0
          → j < 512
          → (t == cur && j == i) ≡ false
          → t + 8 * j ≡ cur + 8 * i
          → ⊥
      apart t j a b other q = ground arith

-- A table below another one does not stand at NULL.
below-nonzero : (offset : ℕ) (words : ℕ → ℕ) (t i : ℕ) → below offset words t i ≢ some 0
unfolding below
below-nonzero offset words t i e = elim (Bool-cases (is_present (entry_at words t i))) [
  | inl present ↦ elim (Bool-cases (table_of offset (entry_at words t i) == 0)) [
    | inl null ↦ none-some 0 (sym (rw (present, null) refl) ∙ e)
    | inr there ↦
        let same : table_of offset (entry_at words t i) ≡ 0 =
          some_inj _ 0 (sym (rw (present, there) refl) ∙ e) in
        ground arith
  ]
  | inr absent ↦ none-some 0 (sym (rw absent refl) ∙ e)
]

pub IsTable-nonzero :
    (offset root : ℕ) (words : ℕ → ℕ) (i : ℕ) (p : List ℕ) (t : ℕ)
    → IsTable offset root words (i ∷ p) t
    → t ≢ 0
IsTable-nonzero offset root words i p t h null =
    let b = IsTable-IsBelow offset root words i p t h in
    below-nonzero offset words b.above i (b.link ∙ ap some null)

-- The allocator has no page to give.
abbrev pub IsExhausted : Pmm → Type 0
IsExhausted m = (pmm_alloc_page m).0 ≡ 0

-- What a step to entry `i` below the table at `p` gives: NULL, when the allocator has no page, or
-- the table there.
abbrev pub Stepped : (offset root : ℕ) → Paging → (i : ℕ) → List ℕ → ℕ × Paging → Type 0
Stepped offset root k i p (t, k') =
    IsKept offset root k k'
    × (((t ≡ 0) × IsExhausted k'.pmm) ⊎ IsTable offset root k'.words (i ∷ p) t)

-- An entry as `table_entry` makes it.
abbrev pub Makes : (ℕ → ℕ) → Type 0
Makes entry = (x : ℕ) → x < 2 ^ 52 → IsEntryOf (x * 4096) (entry (x * 4096))

module _ (entry : ℕ → ℕ) (makes : Makes entry) (offset root : ℕ) (k : Paging)
    (s : IsSpace offset root k) (p : List ℕ) (cur i : ℕ) (place : IsTable offset root k.words p cur)
    (high : length p < 3) (index : i < 512) where
  module _ (unused : below offset k.words cur i ≡ none) (phys : ℕ) (m : Pmm)
      (g : IsGranted 1 k.pmm phys m) where
    clear : bitmap_test g.start k.pmm ≡ false
    clear =
        page_free-clear k.pmm g.start
          (subst (λ x. page_free k.pmm x ≡ true) (omega arith) (g.run.run 0 (omega arith)))

    fresh : (q : List ℕ) (t : ℕ) → IsTable offset root k.words q t → t ≢ phys + offset
    fresh q t h same =
        let (x, place', used) = s.held q t h in
        let twice : x ≡ g.start = omega (arith, g.address) in cc (clear, used, twice)

    grown : Paging
    grown = record k {
      pmm = m;
      words = update (clear_page (u64 (phys + offset)) k.words) (cur + 8 * i) (entry phys);
    }

    narrow : u64 (phys + offset) ≡ phys + offset
    narrow = omega (arith, g.address, g.run.upper, s.room)

    makes_entry : IsEntryOf phys (entry phys)
    makes_entry =
        subst (λ x. IsEntryOf x (entry x)) (sym g.address)
          (makes g.start (omega (arith, g.run.upper, s.room)))

    grows : IsGrown offset root k.words grown.words p cur i (u64 (phys + offset))
    unfolding grown
    grows =
        subst
          (λ n.
            IsGrown offset root k.words (update (clear_page n k.words) (cur + 8 * i) (entry phys)) p
              cur i n)
          (sym narrow)
          (new_table-IsGrown offset root k.words p cur i phys (entry phys) place high index
            (s.tree.aligned p cur place) (omega (arith, g.address, s.base))
            (omega (arith, g.address, g.run.upper, s.room)) (omega (arith, g.address, g.run.lower))
            unused fresh makes_entry)

    still_used : (x : ℕ) → bitmap_test x k.pmm ≡ true → bitmap_test x m ≡ true
    still_used x used = ground (arith, g.bits x)

    now_used : bitmap_test g.start m ≡ true
    now_used = ground (arith, g.bits g.start)

    not_reserved :
        (x : ℕ) → bitmap_test x k.pmm ≡ true → u64 (phys + offset) ≡ x * 4096 + offset → ⊥
    not_reserved x used same =
        let twice : x ≡ g.start = omega (arith, g.address, narrow) in cc (clear, used, twice)

    grown-place : IsTable offset root grown.words (i ∷ p) (u64 (phys + offset))
    grown-place =
        grown-IsTable offset root k.words grown.words p cur i (u64 (phys + offset)) s.tree grows

    grown-Stepped : Stepped offset root k i p (u64 (phys + offset), grown)
    unfolding grown
    grown-Stepped = (
      record {
        space = record {
          tree =
              grown-IsTree offset root k.words grown.words p cur i (u64 (phys + offset)) s.tree
                grows;
          valid = g.valid;
          base = s.base;
          room = omega (arith, g.frame.total, s.room);
          held = λ q t h.
              elim (grown-new offset root k.words grown.words p cur i (u64 (phys + offset)) s.tree
                grows q t h) [
                  | inl old ↦
                      let (x, place', used) = s.held q t old in (x, place', still_used x used)
                  | inr new ↦ (g.start, new.1 ∙ narrow ∙ omega (arith, g.address), now_used)
                ];
        };
        tables =
            grown-old offset root k.words grown.words p cur i (u64 (phys + offset)) s.tree grows;
        entries =
            grown-entry_of offset root k.words grown.words p cur i (u64 (phys + offset)) s.tree
              grows;
        reserved = λ x r. (
          still_used x r.0,
          λ q t h.
              elim (grown-new offset root k.words grown.words p cur i (u64 (phys + offset)) s.tree
                grows q t h) [
                  | inl old ↦ r.1 q t old
                  | inr new ↦ λ same. not_reserved x r.0 (sym new.1 ∙ same)
                ],
        );
        hhdm = refl;
        cr3 = refl;
        invalidated = refl;
      },
      inr grown-place,
    )

  refused : (m : Pmm) → m ≡ k.pmm → IsKept offset root k (record k { pmm = m })
  refused m e =
      subst (λ (m : Pmm). IsKept offset root k (record k { pmm = m })) (sym e)
        (IsKept-refl offset root k s)

  pub new_table-Stepped :
      below offset k.words cur i ≡ none → Stepped offset root k i p (new_table entry offset cur i k)
  unfolding new_table pmm_alloc_page grown
  new_table-Stepped unused = elim (Bool-cases ((pmm_alloc_pages 1 k.pmm).0 == 0)) [
    | inl full ↦
        let none_left = (==_iff (pmm_alloc_pages 1 k.pmm).0 0).0 full in
        let same = alloc-unchanged 1 k.pmm none_left s.valid in
        rw full (
          refused (pmm_alloc_pages 1 k.pmm).1 same,
          inl (refl, ap (λ (m : Pmm). (pmm_alloc_pages 1 m).0) same ∙ none_left),
        )
    | inr granted ↦ rw granted (
        grown-Stepped unused (pmm_alloc_pages 1 k.pmm).0 (pmm_alloc_pages 1 k.pmm).1
          (alloc-IsGranted 1 k.pmm s.valid (λ e. ground arith)))
  ]

  pub new_table-IsTable :
      below offset k.words cur i ≡ none
      → (pmm_alloc_page k.pmm).0 ≢ 0
      → IsKept offset root k (new_table entry offset cur i k).1
        × IsTable offset root
            (new_table entry offset cur i k).1.words
            (i ∷ p)
            (new_table entry offset cur i k).0
  unfolding new_table pmm_alloc_page grown
  new_table-IsTable unused there =
      let g = alloc-IsGranted 1 k.pmm s.valid there in
      let kept = grown-Stepped unused (pmm_alloc_pages 1 k.pmm).0 (pmm_alloc_pages 1 k.pmm).1 g in
      rw (nonzero (pmm_alloc_pages 1 k.pmm).0 there)
        (kept.0, grown-place unused (pmm_alloc_pages 1 k.pmm).0 (pmm_alloc_pages 1 k.pmm).1 g)
    where
      nonzero : (n : ℕ) → n ≢ 0 → (n == 0) ≡ false
      nonzero n ne = ==-false n ne

-- An entry that is present leads to a table.
pub present-IsTable :
    (offset root : ℕ) (k : Paging) (p : List ℕ) (cur i : ℕ)
    → IsTree offset root k.words
    → IsTable offset root k.words p cur
    → length p < 3
    → i < 512
    → is_present (entry_at k.words cur i) ≡ true
    → IsTable offset root k.words (i ∷ p) (table_of offset (entry_at k.words cur i))
unfolding below
present-IsTable offset root k p cur i tree place high index present =
    elim (Bool-cases (table_of offset (entry_at k.words cur i) == 0)) [
      | inl null ↦
          absurd (
            true_false
              (sym present ∙ tree.solid p cur i place high index (rw (present, null) refl)))
      | inr there ↦
          IsBelow-IsTable offset root k.words i p (table_of offset (entry_at k.words cur i)) cur
            place high index (rw (present, there) refl)
    ]
  where
    true_false : true ≡ false → ⊥
    true_false q = cc

pub absent-below :
    (offset : ℕ) (k : Paging) (cur i : ℕ)
    → is_present (entry_at k.words cur i) ≡ false
    → below offset k.words cur i ≡ none
unfolding below
absent-below offset k cur i absent = rw absent refl

get_next_table-Stepped :
    (offset root : ℕ) (k : Paging) (s : IsSpace offset root k) (p : List ℕ) (cur i : ℕ)
    → IsTable offset root k.words p cur
    → length p < 3
    → i < 512
    → Stepped offset root k i p (get_next_table offset cur i true k)
unfolding get_next_table
get_next_table-Stepped offset root k s p cur i place high index =
    elim (Bool-cases (is_present (entry_at k.words cur i))) [
      | inl present ↦ rw present (
        IsKept-refl offset root k s,
        inr (present-IsTable offset root k p cur i s.tree place high index present),
      )
      | inr absent ↦ rw absent (
          new_table-Stepped table_entry table_entry-IsEntryOf offset root k s p cur i place high
            index (absent-below offset k cur i absent))
    ]

-- The next step, after one that may have given NULL.
then_next-Stepped :
    (offset root : ℕ) (k : Paging) (p : List ℕ) (i j : ℕ) (r : ℕ × Paging)
    → Stepped offset root k j p r
    → length (j ∷ p) < 3
    → i < 512
    → Stepped offset root k i (j ∷ p) (then_next offset i true r)
unfolding then_next
then_next-Stepped offset root k p i j (t, l) (kept, inl (null, full)) high index =
    rw ((==_iff t 0).1 null) (kept, inl (refl, full))
then_next-Stepped offset root k p i j (t, l) (kept, inr place) high index =
    elim (Bool-cases (t == 0)) [
      | inl null ↦ absurd (IsTable-nonzero offset root l.words j p t place ((==_iff t 0).0 null))
      | inr there ↦
          let next = get_next_table-Stepped offset root l kept.space (j ∷ p) t i place high index in
          rw there
            (IsKept-trans offset root k l (get_next_table offset t i true l).1 kept next.0, next.1)
    ]

-- The path of the lowest table of an address.
abbrev pub low_path : ℕ → List ℕ
low_path v = pd_index v ∷ pdp_index v ∷ pml4_index v ∷ []

pub index_lt : (x : ℕ) → bit_and x 0x1FF < 512
index_lt x = subst (λ y. y < 512) (sym (and-ones 9 x)) (omega arith)

pub low_path-Indices : (v : ℕ) → Indices (low_path v)
unfolding Indices
low_path-Indices v = (index_lt (v / 2 ^ 21), (index_lt (v / 2 ^ 30), (index_lt (v / 2 ^ 39), tt)))

pub root-IsTable : (offset root : ℕ) (words : ℕ → ℕ) → IsTable offset root words [] root
unfolding table_at Indices
root-IsTable offset root words = record { short = omega arith; indices = tt; found = refl }

-- The walk keeps every table and mapping, and ends with NULL or the lowest table of the address.
pub page_table-Stepped :
    (offset root v : ℕ) (k : Paging)
    → IsSpace offset root k
    → Stepped offset root k
        (pd_index v)
        (pdp_index v ∷ pml4_index v ∷ [])
        (page_table offset root v true k)
unfolding page_table
page_table-Stepped offset root v k s =
    then_next-Stepped offset root k (pml4_index v ∷ []) (pd_index v) (pdp_index v) _
      (then_next-Stepped offset root k [] (pdp_index v) (pml4_index v) _
        (get_next_table-Stepped offset root k s [] root (pml4_index v)
          (root-IsTable offset root k.words) (omega arith) (index_lt (v / 2 ^ 39)))
        (omega arith) (index_lt (v / 2 ^ 30)))
      (omega arith) (index_lt (v / 2 ^ 21))
