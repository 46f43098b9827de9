-- ===== src/Heap/Search.antt =====
-- `find_free_block` of kernel/src/memory/heap.c ends, and finds the tightest free chunk.
use mathlib.Core.Path.{subst}
use deer.Base.{
  ℕ, zero, suc, ◌+◌, ◌≤◌, ◌<◌, ◌≡◌, ◌≢◌, ◌⊎◌, inl, inr, refl, ap, Bool, true, false, ◌&&◌, ◌||◌,
  not, arith, List, [], ◌∷◌, ◌++◌, length, if◌then◌else◌, leb, ltb, ◌==◌, Option, some, Bool-cases,
}
use deer.Heap.{Block, header_size, find_loop}
use deer.Heap.Layout.{Chunk, chunk, block, next_of, Layout, end_of}

-- A free chunk that is large enough.
abbrev pub fits : ℕ → Chunk → Bool
fits size c = not c.used && leb size c.size

abbrev pub NoneFits : ℕ → List Chunk → Type 0
NoneFits size [] = Unit
NoneFits size (c ∷ cs) = (fits size c ≡ false) × NoneFits size cs

-- Every chunk that fits has at least `n` bytes.
abbrev pub AtLeast : (size n : ℕ) → List Chunk → Type 0
AtLeast size n [] = Unit
AtLeast size n (c ∷ cs) = (fits size c ≡ true → n ≤ c.size) × AtLeast size n cs

-- A chunk among `cs`, from address `p` on, that fits as tightly as any.
pub record IsBest (size p : ℕ) (cs : List Chunk) (r : ℕ) : Type 0 where
  pub front : List Chunk
  pub width : ℕ
  pub back : List Chunk
  pub split : cs ≡ front ++ chunk width false ∷ back
  pub address : r ≡ end_of p front
  pub enough : size ≤ width
  pub tightest : AtLeast size width cs

module _ (m : ℕ → Block) (stop size : ℕ) where
  -- What the loop makes of the block that was best before.
  record Kept (best : ℕ) (cs : List Chunk) (r : ℕ) : Type 0 where
    same : r ≡ best
    no_first : best ≡ 0 → NoneFits size cs
    no_better : best ≢ 0 → AtLeast size (m best).size cs

  record Improved (best p : ℕ) (cs : List Chunk) (r : ℕ) : Type 0 where
    found : IsBest size p cs r
    smaller : best ≢ 0 → found.width < (m best).size

  abbrev Result : (best p : ℕ) → List Chunk → Option ℕ → Type 0
  Result best p cs o = (r : ℕ) × (o ≡ some r) × (Kept best cs r ⊎ Improved best p cs r)

  -- The chunk at `p` is passed over.
  pass :
      (best p : ℕ) (c : Chunk) (cs : List Chunk) (r : ℕ)
      → (fits size c && (best == 0 || ltb c.size (m best).size)) ≡ false
      → Kept best cs r ⊎ Improved best (p + header_size + c.size) cs r
      → Kept best (c ∷ cs) r ⊎ Improved best p (c ∷ cs) r
  pass best p c cs r worse (inl k) = inl (record {
    same = k.same;
    no_first = λ e. (ground arith, k.no_first e);
    no_better = λ e. (λ f. ground arith, k.no_better e);
  })
  pass best p c cs r worse (inr i) = inr (record {
    found = record {
      front = c ∷ i.found.front;
      width = i.found.width;
      back = i.found.back;
      split = ap (◌∷◌ c) i.found.split;
      address = i.found.address;
      enough = i.found.enough;
      tightest = (λ f. ground (arith, i.smaller), i.found.tightest);
    };
    smaller = i.smaller;
  })

  -- The chunk at `p` becomes the best one.
  adopt :
      (best p : ℕ) (c : Chunk) (cs : List Chunk) (r : ℕ)
      → 0 < p
      → (m p).size ≡ c.size
      → (fits size c && (best == 0 || ltb c.size (m best).size)) ≡ true
      → Kept p cs r ⊎ Improved p (p + header_size + c.size) cs r
      → Kept best (c ∷ cs) r ⊎ Improved best p (c ∷ cs) r
  adopt best p c cs r pos at better (inl k) = inr (record {
    found = record {
      front = [];
      width = c.size;
      back = cs;
      split = ap (λ d. d ∷ cs) (ground arith);
      address = k.same;
      enough = ground arith;
      tightest = (λ f. omega arith, subst (λ n. AtLeast size n cs) at (k.no_better (omega arith)));
    };
    smaller = λ e. ground arith;
  })
  adopt best p c cs r pos at better (inr i) = inr (record {
    found = record {
      front = c ∷ i.found.front;
      width = i.found.width;
      back = i.found.back;
      split = ap (◌∷◌ c) i.found.split;
      address = i.found.address;
      enough = i.found.enough;
      tightest = (λ f. omega (arith, at, i.smaller (omega arith)), i.found.tightest);
    };
    smaller = λ e. ground (arith, i.smaller);
  })

  find_loop-end : (fuel best : ℕ) → find_loop m size (suc fuel) 0 best ≡ some best
  unfolding find_loop
  find_loop-end fuel best = refl

  find_loop-step :
      (fuel best prev p next : ℕ) (c : Chunk)
      → 0 < p
      → m p ≡ block c.size c.used next prev
      → find_loop m size (suc fuel) p best
        ≡ find_loop m size fuel next
            (if fits size c && (best == 0 || ltb c.size (m best).size) then p else best)
  unfolding find_loop
  find_loop-step fuel best prev p next c pos e =
      let present : (p == 0) ≡ false = ground arith in rw (present, e)

  find_loop-Result :
      (fuel best prev p : ℕ) (cs : List Chunk)
      → 0 < p
      → length cs < fuel
      → Layout m stop prev p cs
      → Result best p cs (find_loop m size fuel (next_of p cs) best)
  find_loop-Result zero best prev p cs pos enough l = absurd (omega arith)
  find_loop-Result (suc fuel) best prev p [] pos enough l = (
    best,
    find_loop-end fuel best,
    inl (record { same = refl; no_first = λ e. tt; no_better = λ e. tt }),
  )
  find_loop-Result (suc fuel) best prev p (c ∷ cs) pos enough l =
      let after = p + header_size + c.size in
      rw (find_loop-step fuel best prev p (next_of after cs) c pos l.0)
        (elim (Bool-cases (fits size c && (best == 0 || ltb c.size (m best).size))) [
          | inl better ↦
              let rest = find_loop-Result fuel p p after cs (omega arith) (omega arith) l.1 in
              rw better (
                rest.0,
                rest.1,
                adopt best p c cs rest.0 pos (ap (λ (b : Block). b.size) l.0) better rest.2,
              )
          | inr worse ↦
              let rest = find_loop-Result fuel best p after cs (omega arith) (omega arith) l.1 in
              rw worse (rest.0, rest.1, pass best p c cs rest.0 worse rest.2)
        ])

  -- With fuel for every chunk the search from no block ends: on NULL if nothing fits, otherwise on
  -- the best chunk.
  pub find_loop-IsBest :
      (fuel prev p : ℕ) (cs : List Chunk)
      → 0 < p
      → length cs < fuel
      → Layout m stop prev p cs
      → ((find_loop m size fuel (next_of p cs) 0 ≡ some 0) × NoneFits size cs)
        ⊎ ((r : ℕ) × (find_loop m size fuel (next_of p cs) 0 ≡ some r) × IsBest size p cs r)
  find_loop-IsBest fuel prev p cs pos enough l =
      let (r, e, w) = find_loop-Result fuel 0 prev p cs pos enough l in
      elim w [
        | inl k ↦ inl (ground (arith, e, k.same), k.no_first refl)
        | inr i ↦ inr (r, e, i.found)
      ]
