-- ===== src/Paging/Store.antt =====
-- A store to an entry of a lowest table: every path leads where it did, and one mapping changes.
use mathlib.Core.Path.{subst}
use deer.Base.{
  ℕ, ◌+◌, ◌*◌, ◌<◌, ◌≡◌, ◌≢◌, sym, ap, ◌∙◌, arith, false, List, [], ◌∷◌, inl, inr, Bool-cases,
  Option-cases, ◌==◌, ==_iff, ◌&&◌, length,
}
use deer.Paging.{is_present}
use deer.Paging.Tree.{
  below, table_at, entry_of, Indices, IsTable, IsTree, IsTable-IsBelow, IsBelow-IsTable, below-same,
  none-some,
}

-- `words'` has `e` in entry `i` of the lowest table `pt` at the path `p`.
pub record IsStored (offset root : ℕ) (words words' : ℕ → ℕ) (p : List ℕ) (pt i e : ℕ)
    : Type 0 where
  pub place : IsTable offset root words p pt
  pub low : length p ≡ 3
  pub stored : words' (pt + 8 * i) ≡ e
  pub kept :
      (q : List ℕ) (t j : ℕ)
      → IsTable offset root words q t
      → j < 512
      → (t == pt && j == i) ≡ false
      → words' (t + 8 * j) ≡ words (t + 8 * j)

module _ (offset root : ℕ) (words words' : ℕ → ℕ) (p : List ℕ) (pt i e : ℕ)
    (tree : IsTree offset root words) (s : IsStored offset root words words' p pt i e) where
  -- The entries of a table at another path are the same.
  other_table :
      (q : List ℕ) (t j : ℕ)
      → (q ≡ p → j ≢ i)
      → IsTable offset root words q t
      → (t == pt && j == i) ≡ false
  other_table q t j apart h = elim (Bool-cases (t == pt)) [
    | inl same ↦ elim (Bool-cases (j == i)) [
      | inl same' ↦ absurd (
          apart
            (tree.alike q p pt (subst (IsTable offset root words q) ((==_iff t pt).0 same) h)
              s.place)
            ((==_iff j i).0 same'))
      | inr other ↦ ground arith
    ]
    | inr other ↦ ground arith
  ]

  high_same :
      (q : List ℕ) (t j : ℕ)
      → length q < 3
      → j < 512
      → IsTable offset root words q t
      → below offset words' t j ≡ below offset words t j
  high_same q t j high index h = below-same offset words words' t j (
      s.kept q t j h index
        (other_table q t j (λ same. absurd (omega (arith, high, s.low, ap length same))) h))

  pub stored-old :
      (q : List ℕ) (t : ℕ) → IsTable offset root words q t → IsTable offset root words' q t
  unfolding table_at
  stored-old [] t h = record { short = h.short; indices = h.indices; found = h.found }
  stored-old (j ∷ q) t h =
      let b = IsTable-IsBelow offset root words j q t h in
      IsBelow-IsTable offset root words' j q t b.above (stored-old q b.above b.parent)
        (omega (arith, h.short)) b.index
        (high_same q b.above j (omega (arith, h.short)) b.index b.parent ∙ b.link)

  pub stored-new :
      (q : List ℕ) (t : ℕ) → IsTable offset root words' q t → IsTable offset root words q t
  unfolding table_at
  stored-new [] t h = record { short = h.short; indices = h.indices; found = h.found }
  stored-new (j ∷ q) t h =
      let b = IsTable-IsBelow offset root words' j q t h in
      let old = stored-new q b.above b.parent in
      IsBelow-IsTable offset root words j q t b.above old (omega (arith, h.short)) b.index
        (sym (high_same q b.above j (omega (arith, h.short)) b.index old) ∙ b.link)

  pub stored-IsTree : IsTree offset root words'
  stored-IsTree = record {
    aligned = λ q t h. tree.aligned q t (stored-new q t h);
    alike = λ q r t h h'. tree.alike q r t (stored-new q t h) (stored-new r t h');
    solid = λ q t j h high index none_below.
        let old = stored-new q t h in
        ap (λ x. is_present x)
          (s.kept q t j old index
            (other_table q t j (λ same. absurd (omega (arith, high, s.low, ap length same))) old))
        ∙ tree.solid q t j old high index (sym (high_same q t j high index old) ∙ none_below);
  }

  pub stored-here : entry_of words' i (table_at offset root words' p) ≡ e
  unfolding entry_of
  stored-here = ap (entry_of words' i) ((stored-old p pt s.place).found) ∙ s.stored

  pub stored-elsewhere :
      (q : List ℕ) (j : ℕ)
      → length q ≡ 3
      → Indices q
      → j < 512
      → (q ≡ p → j ≢ i)
      → entry_of words' j (table_at offset root words' q)
        ≡ entry_of words j (table_at offset root words q)
  unfolding entry_of
  stored-elsewhere q j low indices index apart =
      elim (Option-cases (table_at offset root words q)) [
        | inl old ↦ elim (Option-cases (table_at offset root words' q)) [
          | inl new ↦ ap (entry_of words' j) new ∙ sym (ap (entry_of words j) old)
          | inr (t, new) ↦ absurd (
              none-some t (
                sym old
                ∙ (stored-new q t
                    (record { short = omega (arith, low); indices = indices; found = new })).found))
        ]
        | inr (t, old) ↦
            let h : IsTable offset root words q t = record {
              short = omega (arith, low);
              indices = indices;
              found = old;
            } in
            ap (entry_of words' j) ((stored-old q t h).found)
            ∙ s.kept q t j h index (other_table q t j apart h)
            ∙ sym (ap (entry_of words j) old)
      ]
