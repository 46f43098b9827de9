-- ===== src/Paging/Tree.antt =====
-- The page tables of kernel/src/memory/paging.c as a tree. A path is a list of indices, the deepest
-- first; tables stand at the paths of up to three indices, and the entries of the tables at three
-- map pages.
use deer.Base.{
  ℕ, ◌+◌, ◌*◌, ◌%◌, ◌<◌, ◌≤◌, ◌≡◌, sym, ap, ◌∙◌, arith, false, Option, none, some, List, [], ◌∷◌,
  inl, inr, Option-cases, ◌==◌, if◌then◌else◌, length,
}
use deer.Paging.{entry_at, is_present, table_of}

-- The table that an entry points to, with NULL for none.
unfoldable pub below : (offset : ℕ) (words : ℕ → ℕ) (table index : ℕ) → Option ℕ
below offset words table index =
    if is_present (entry_at words table index)
    then (if table_of offset (entry_at words table index) == 0
        then none
        else some (table_of offset (entry_at words table index)))
    else none

-- The table below one that may be missing.
unfoldable pub below_of : (offset : ℕ) (words : ℕ → ℕ) (index : ℕ) → Option ℕ → Option ℕ
unfolding below
below_of offset words index none = none
below_of offset words index (some table) = below offset words table index

-- The table at a path.
unfoldable pub table_at : (offset root : ℕ) (words : ℕ → ℕ) → List ℕ → Option ℕ
unfolding below_of
table_at offset root words [] = some root
table_at offset root words (i ∷ p) = below_of offset words i (table_at offset root words p)

-- The entry of a table that may be missing, 0 for none.
unfoldable pub entry_of : (words : ℕ → ℕ) (index : ℕ) → Option ℕ → ℕ
entry_of words index none = 0
entry_of words index (some table) = entry_at words table index

-- All indices are below 512.
unfoldable pub Indices : List ℕ → Type 0
Indices [] = Unit {0}
Indices (i ∷ p) = (i < 512) × Indices p

-- A table stands at a path.
pub record IsTable (offset root : ℕ) (words : ℕ → ℕ) (p : List ℕ) (t : ℕ) : Type 0 where
  pub short : length p ≤ 3
  pub indices : Indices p
  pub found : table_at offset root words p ≡ some t

-- The tables begin on page boundaries, no two paths lead to one table, and an entry above the lowest
-- tables that is present leads to one.
pub record IsTree (offset root : ℕ) (words : ℕ → ℕ) : Type 0 where
  pub aligned : (p : List ℕ) (t : ℕ) → IsTable offset root words p t → t % 4096 ≡ 0
  pub alike :
      (p q : List ℕ) (t : ℕ) → IsTable offset root words p t → IsTable offset root words q t → p ≡ q
  pub solid :
      (p : List ℕ) (t i : ℕ)
      → IsTable offset root words p t
      → length p < 3
      → i < 512
      → below offset words t i ≡ none
      → is_present (entry_at words t i) ≡ false

pub none-some : (t : ℕ) → none ≡ some t → ⊥
none-some t e = cc

pub some_inj : (t u : ℕ) → some t ≡ some u → t ≡ u
some_inj t u e = cc

-- What a path to a table below says of the one above.
pub record IsBelow (offset root : ℕ) (words : ℕ → ℕ) (i : ℕ) (p : List ℕ) (t : ℕ) : Type 0 where
  pub above : ℕ
  pub parent : IsTable offset root words p above
  pub index : i < 512
  pub link : below offset words above i ≡ some t

pub IsTable-IsBelow :
    (offset root : ℕ) (words : ℕ → ℕ) (i : ℕ) (p : List ℕ) (t : ℕ)
    → IsTable offset root words (i ∷ p) t
    → IsBelow offset root words i p t
unfolding table_at below_of Indices
IsTable-IsBelow offset root words i p t h = elim (Option-cases (table_at offset root words p)) [
  | inl e ↦ absurd (none-some t (sym (ap (below_of offset words i) e) ∙ h.found))
  | inr (u, e) ↦ record {
    above = u;
    parent = record { short = omega (arith, h.short); indices = h.indices.1; found = e };
    index = h.indices.0;
    link = sym (ap (below_of offset words i) e) ∙ h.found;
  }
]

pub IsBelow-IsTable :
    (offset root : ℕ) (words : ℕ → ℕ) (i : ℕ) (p : List ℕ) (t u : ℕ)
    → IsTable offset root words p u
    → length p < 3
    → i < 512
    → below offset words u i ≡ some t
    → IsTable offset root words (i ∷ p) t
unfolding table_at below_of Indices
IsBelow-IsTable offset root words i p t u h short index link = record {
  short = omega (arith, short);
  indices = (index, h.indices);
  found = ap (below_of offset words i) h.found ∙ link;
}

-- `below` reads one word.
pub below-same :
    (offset : ℕ) (words words' : ℕ → ℕ) (t i : ℕ)
    → words' (t + 8 * i) ≡ words (t + 8 * i)
    → below offset words' t i ≡ below offset words t i
unfolding below
below-same offset words words' t i e =
    ap
      (λ (x : ℕ).
        if is_present x
        then (if table_of offset x == 0 then none else some (table_of offset x))
        else none)
      e

-- An entry that is 0 leads to no table.
pub below-zero :
    (offset : ℕ) (words : ℕ → ℕ) (t i : ℕ) → words (t + 8 * i) ≡ 0 → below offset words t i ≡ none
unfolding below
below-zero offset words t i e =
    ap
      (λ (x : ℕ).
        if is_present x
        then (if table_of offset x == 0 then none else some (table_of offset x))
        else none)
      e
