-- ===== src/Paging/Grow.antt =====
-- A new table in the tree of page tables: the paths that led to a table still do, one path is new,
-- and no mapping changes.
use mathlib.Core.Path.{subst}
use deer.Base.{
  ==_iff, ℕ, ◌+◌, ◌*◌, ◌%◌, ◌<◌, ◌≡◌, ◌≢◌, ◌⊎◌, sym, ap, ◌∙◌, arith, false, none, some, List, [],
  ◌∷◌, inl, inr, Bool-cases, Option-cases, ◌==◌, ◌&&◌, length,
}
use deer.Paging.{entry_at, is_present}
use deer.Paging.Tree.{
  below, table_at, entry_of, Indices, IsTable, IsTree, IsTable-IsBelow, IsBelow-IsTable, below-same,
  below-zero, none-some, some_inj,
}

-- `words'` has a new and empty table at `n`, below entry `i` of the table `cur` at the path `p`.
pub record IsGrown (offset root : ℕ) (words words' : ℕ → ℕ) (p : List ℕ) (cur i n : ℕ)
    : Type 0 where
  pub place : IsTable offset root words p cur
  pub high : length p < 3
  pub index : i < 512
  pub unused : below offset words cur i ≡ none
  pub fresh : (q : List ℕ) (t : ℕ) → IsTable offset root words q t → t ≢ n
  pub page : n % 4096 ≡ 0
  pub empty : (j : ℕ) → j < 512 → words' (n + 8 * j) ≡ 0
  pub entry : below offset words' cur i ≡ some n
  pub kept :
      (t j : ℕ)
      → t % 4096 ≡ 0
      → j < 512
      → t ≢ n
      → (t == cur && j == i) ≡ false
      → words' (t + 8 * j) ≡ words (t + 8 * j)

module _ (offset root : ℕ) (words words' : ℕ → ℕ) (p : List ℕ) (cur i n : ℕ)
    (tree : IsTree offset root words) (g : IsGrown offset root words words' p cur i n) where
  -- An entry that leads to a table is not the one that is stored.
  other_entry : (u j t : ℕ) → below offset words u j ≡ some t → (u == cur && j == i) ≡ false
  other_entry u j t link = elim (Bool-cases (u == cur && j == i)) [
    | inl same ↦ absurd (
        none-some t (
          sym g.unused
          ∙ ap (λ x. below offset words x i) (ground arith)
          ∙ ap (below offset words u) (ground arith)
          ∙ link))
    | inr other ↦ other
  ]

  pub grown-old :
      (q : List ℕ) (t : ℕ) → IsTable offset root words q t → IsTable offset root words' q t
  unfolding table_at
  grown-old [] t h = record { short = h.short; indices = h.indices; found = h.found }
  grown-old (j ∷ q) t h =
      let b = IsTable-IsBelow offset root words j q t h in
      IsBelow-IsTable offset root words' j q t b.above (grown-old q b.above b.parent)
        (omega (arith, h.short)) b.index
        (below-same offset words words' b.above j (
            g.kept b.above j (tree.aligned q b.above b.parent) b.index (g.fresh q b.above b.parent)
              (other_entry b.above j t b.link))
          ∙ b.link)

  -- What an entry of an old table leads to.
  from_old :
      (q : List ℕ) (j t u : ℕ)
      → length q < 3
      → j < 512
      → IsTable offset root words q u
      → below offset words' u j ≡ some t
      → IsTable offset root words (j ∷ q) t ⊎ ((j ∷ q ≡ i ∷ p) × (t ≡ n))
  from_old q j t u short index h link = elim (Bool-cases (u == cur && j == i)) [
    | inl same ↦
        let cu : u ≡ cur = ground arith in
        let ji : j ≡ i = ground arith in
        let here : IsTable offset root words q cur = subst (IsTable offset root words q) cu h in
        let path : q ≡ p = tree.alike q p cur here g.place in
        inr (
          ap (λ (x : ℕ). x ∷ q) ji ∙ ap (λ (x : List ℕ). i ∷ x) path,
          some_inj t n (
              sym link
              ∙ ap (λ x. below offset words' x j) cu
              ∙ ap (below offset words' cur) ji
              ∙ g.entry),
        )
    | inr other ↦ inl (
        IsBelow-IsTable offset root words j q t u h short index (
          sym (
            below-same offset words words' u j
              (g.kept u j (tree.aligned q u h) index (g.fresh q u h) other))
          ∙ link))
  ]

  pub grown-new :
      (q : List ℕ) (t : ℕ)
      → IsTable offset root words' q t
      → IsTable offset root words q t ⊎ ((q ≡ i ∷ p) × (t ≡ n))
  unfolding table_at
  grown-new [] t h = inl (record { short = h.short; indices = h.indices; found = h.found })
  grown-new (j ∷ q) t h =
      let b = IsTable-IsBelow offset root words' j q t h in
      elim (grown-new q b.above b.parent) [
        | inl old ↦ from_old q j t b.above (omega (arith, h.short)) b.index old b.link
        | inr new ↦ absurd (
            none-some t (
              sym (below-zero offset words' n j (g.empty j b.index))
              ∙ ap (λ x. below offset words' x j) (sym new.1)
              ∙ b.link))
      ]

  pub grown-IsTable : IsTable offset root words' (i ∷ p) n
  grown-IsTable =
      IsBelow-IsTable offset root words' i p n cur (grown-old p cur g.place) g.high g.index g.entry

  grown-solid :
      (q : List ℕ) (t j : ℕ)
      → IsTable offset root words' q t
      → length q < 3
      → j < 512
      → below offset words' t j ≡ none
      → is_present (entry_at words' t j) ≡ false
  grown-solid q t j h high index none_below = elim (grown-new q t h) [
    | inr new ↦
        ap (λ x. is_present (entry_at words' x j)) new.1 ∙ ap (λ x. is_present x) (g.empty j index)
    | inl old ↦ elim (Bool-cases (t == cur && j == i)) [
      | inl same ↦ absurd (
          none-some n (
            sym none_below
            ∙ ap (λ x. below offset words' x j) (ground arith)
            ∙ ap (below offset words' cur) (ground arith)
            ∙ g.entry))
      | inr other ↦
          let e = g.kept t j (tree.aligned q t old) index (g.fresh q t old) other in
          ap (λ x. is_present x) e
          ∙ tree.solid q t j old high index
              (sym (below-same offset words words' t j e) ∙ none_below)
    ]
  ]

  pub grown-IsTree : IsTree offset root words'
  grown-IsTree = record {
    aligned = λ q t h. elim (grown-new q t h) [
      | inl old ↦ tree.aligned q t old
      | inr new ↦ ap (λ x. x % 4096) new.1 ∙ g.page
    ];
    alike = λ q r t h h'. elim (grown-new q t h) [
      | inl old ↦ elim (grown-new r t h') [
        | inl old' ↦ tree.alike q r t old old'
        | inr new' ↦ absurd (g.fresh q t old new'.1)
      ]
      | inr new ↦ elim (grown-new r t h') [
        | inl old' ↦ absurd (g.fresh r t old' new.1)
        | inr new' ↦ new.0 ∙ sym new'.0
      ]
    ];
    solid = grown-solid;
  }

  -- The lowest tables are not the one that the entry is stored in.
  low_entry :
      (q : List ℕ) (t j : ℕ)
      → length q ≡ 3
      → IsTable offset root words q t
      → (t == cur && j == i) ≡ false
  low_entry q t j low h = elim (Bool-cases (t == cur)) [
    | inl same ↦
        let here : IsTable offset root words q cur =
          subst (IsTable offset root words q) ((==_iff t cur).0 same) h in
        absurd (omega (arith, low, g.high, ap length (tree.alike q p cur here g.place)))
    | inr other ↦ ground arith
  ]

  -- The entries of the lowest tables are the same.
  pub grown-entry_of :
      (q : List ℕ) (j : ℕ)
      → length q ≡ 3
      → Indices q
      → j < 512
      → entry_of words' j (table_at offset root words' q)
        ≡ entry_of words j (table_at offset root words q)
  unfolding entry_of
  grown-entry_of q j low indices index = elim (Option-cases (table_at offset root words q)) [
    | inl e ↦ elim (Option-cases (table_at offset root words' q)) [
      | inl e' ↦ ap (entry_of words' j) e' ∙ sym (ap (entry_of words j) e)
      | inr (t, e') ↦ ap (entry_of words' j) e' ∙ missing t e e' ∙ sym (ap (entry_of words j) e)
    ]
    | inr (t, e) ↦
        let h : IsTable offset root words q t = record {
          short = omega (arith, low);
          indices = indices;
          found = e;
        } in
        ap (entry_of words' j) ((grown-old q t h).found)
        ∙ g.kept t j (tree.aligned q t h) index (g.fresh q t h) (low_entry q t j low h)
        ∙ sym (ap (entry_of words j) e)
  ]
    where
      missing :
          (t : ℕ)
          → table_at offset root words q ≡ none
          → table_at offset root words' q ≡ some t
          → words' (t + 8 * j) ≡ 0
      missing t e e' =
          elim (grown-new q t
            (record { short = omega (arith, low); indices = indices; found = e' })) [
              | inl old ↦ absurd (none-some t (sym e ∙ old.found))
              | inr new ↦ ap (λ x. words' (x + 8 * j)) new.1 ∙ g.empty j index
            ]
