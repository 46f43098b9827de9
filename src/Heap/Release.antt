-- ===== src/Heap/Release.antt =====
-- `kfree` of kernel/src/memory/heap.c gives a chunk back and leaves no two free neighbours.
use mathlib.Core.Path.{subst, ap₂}
use mathlib.Core.List.{append_assoc}
use deer.Base.{
  update_self, update_other, ℕ, ◌+◌, ◌^◌, ◌<◌, ◌≡◌, ◌⊎◌, inl, inr, refl, ap, sym, ◌∙◌, Bool, true,
  false, ◌||◌, ◌&&◌, not, arith, List, [], ◌∷◌, ◌++◌, if◌then◌else◌, ◌==◌, sub64, Bool-cases,
  length-append,
}
use deer.Heap.{Block, Heap, header_size, merge_prev, merge_next, mark_free, kfree}
use deer.Heap.Layout.{
  Chunk, chunk, Layout, Front, end_of, last_of, Layout-split, Layout-join, Layout-le, Front-frame,
  Layout-frame, Front-le,
}
use deer.Heap.Shape.{
  IsHeap, IsLinked, IsHeap-IsLinked, IsLinked-IsHeap, NoPair, used_bytes-append, AllAligned-append,
  AllAligned-split, used_bytes-le, used_before, NoPair-split, NoPair-append,
}
use deer.Heap.Merge.{joined, joined-IsLinked}

-- The list of chunks with neighbouring free ones run together.
abbrev pub attach : Chunk → List Chunk → List Chunk
attach c [] = c ∷ []
attach c (d ∷ ds) =
    if c.used || d.used then c ∷ d ∷ ds else chunk (c.size + header_size + d.size) false ∷ ds

abbrev pub coalesce : List Chunk → List Chunk
coalesce [] = []
coalesce (c ∷ cs) = attach c (coalesce cs)

module _ (h : Heap) (front : List Chunk) (n : ℕ) (back : List Chunk)
    (v : IsLinked h (front ++ chunk n true ∷ back)) where
  abbrev q : ℕ
  q = end_of h.start front

  abbrev before : ℕ
  before = last_of 0 h.start front

  parts :
      Front h.blocks 0 h.start front before q × Layout h.blocks h.end before q (chunk n true ∷ back)
  parts = Layout-split h.blocks h.end front (chunk n true) back 0 h.start v.layout

  pub mark_free-IsLinked : IsLinked (mark_free q h) (front ++ chunk n false ∷ back)
  unfolding mark_free
  mark_free-IsLinked =
      let align = AllAligned-split front (chunk n true ∷ back) v.aligned in
      let size_at : (h.blocks q).size ≡ n = ap (λ (b : Block). b.size) parts.1.0 in
      let small = used_bytes-le h.blocks h.end 0 h.start (front ++ chunk n true ∷ back) v.layout in
      record {
        layout =
            Layout-join _ h.end front (chunk n false) back 0 h.start before q
              (Front-frame h.blocks _ 0 h.start front before q parts.0
                (λ a r j. update_other h.blocks q a _ (λ (e : a ≡ q). omega arith)))
              (
                update_self h.blocks q _ ∙ ap (λ (b : Block). record b { used = false }) parts.1.0,
                Layout-frame h.blocks _ h.end q (q + header_size + n) back parts.1.1
                    (λ a r. update_other h.blocks q a _ (λ (e : a ≡ q). omega arith)),
              );
        some_chunk = omega (arith, length-append {0} front (chunk n false ∷ back));
        first = v.first;
        positive = v.positive;
        aligned_start = v.aligned_start;
        bounded = v.bounded;
        total = v.total;
        count = omega (
          arith,
          v.count,
          length-append {0} front (chunk n true ∷ back),
          length-append {0} front (chunk n false ∷ back),
        );
        used = omega (
          arith,
          v.used,
          v.bounded,
          small,
          size_at,
          used_bytes-append front (chunk n true ∷ back),
          used_bytes-append front (chunk n false ∷ back),
        );
        aligned = AllAligned-append front _ align.0 align.1;
      }

-- The second merge.
merge_next-joins :
    (h : Heap) (front : List Chunk) (n k : ℕ) (back : List Chunk)
    → IsLinked h (front ++ chunk n false ∷ chunk k false ∷ back)
    → let p = end_of h.start front in
      merge_next p h ≡ record h {
        blocks = joined p (p + header_size + n) h.blocks;
        block_count = sub64 h.block_count 1;
      }
unfolding merge_next
merge_next-joins h front n k back v =
    let p = end_of h.start front in
    let parts =
      Layout-split h.blocks h.end front (chunk n false) (chunk k false ∷ back) 0 h.start v.layout in
    let next_eq : (h.blocks p).next ≡ p + header_size + n = ap (λ (b : Block). b.next) parts.1.0 in
    let present : (p + header_size + n == 0) ≡ false = ground arith in
    let free : (h.blocks (p + header_size + n)).used ≡ false =
      ap (λ (b : Block). b.used) parts.1.1.0 in
    rw (next_eq, present, free) refl

merge_next-keeps :
    (h : Heap) (front : List Chunk) (n : ℕ) (back : List Chunk)
    → IsLinked h (front ++ chunk n false ∷ back)
    → NoPair false back
    → merge_next (end_of h.start front) h ≡ h
unfolding merge_next
merge_next-keeps h front n [] v apart =
    let parts = Layout-split h.blocks h.end front (chunk n false) [] 0 h.start v.layout in
    let next_eq : (h.blocks (end_of h.start front)).next ≡ 0 =
      ap (λ (b : Block). b.next) parts.1.0 in
    rw next_eq refl
merge_next-keeps h front n (c ∷ back) v apart =
    let p = end_of h.start front in
    let parts = Layout-split h.blocks h.end front (chunk n false) (c ∷ back) 0 h.start v.layout in
    let next_eq : (h.blocks p).next ≡ p + header_size + n = ap (λ (b : Block). b.next) parts.1.0 in
    let present : (p + header_size + n == 0) ≡ false = ground arith in
    let taken : (h.blocks (p + header_size + n)).used ≡ true =
      ap (λ (b : Block). b.used) parts.1.1.0 ∙ apart.0 in
    rw (next_eq, present, taken) refl

-- The first merge.
merge_prev-joins :
    (h : Heap) (front : List Chunk) (k n : ℕ) (back : List Chunk)
    → IsLinked h (front ++ chunk k false ∷ chunk n false ∷ back)
    → let p = end_of h.start front in
      merge_prev (p + header_size + k) h ≡ (
        p,
        record h {
          blocks = joined p (p + header_size + k) h.blocks;
          block_count = sub64 h.block_count 1;
        },
      )
unfolding merge_prev
merge_prev-joins h front k n back v =
    let p = end_of h.start front in
    let before = last_of 0 h.start front in
    let parts =
      Layout-split h.blocks h.end front (chunk k false) (chunk n false ∷ back) 0 h.start v.layout in
    let low = Front-le h.blocks 0 h.start front before p parts.0 in
    let prev_eq : (h.blocks (p + header_size + k)).prev ≡ p =
      ap (λ (b : Block). b.prev) parts.1.1.0 in
    let present : (p == 0) ≡ false = ground (arith, v.positive) in
    let free : (h.blocks p).used ≡ false = ap (λ (b : Block). b.used) parts.1.0 in
    rw (prev_eq, present, free) refl

-- Whether the block in front is in use.
Front-last_used :
    (m : ℕ → Block) (b : Bool) (prev p : ℕ) (cs : List Chunk) (last q : ℕ)
    → Front m prev p cs last q
    → ((prev ≡ 0) × (b ≡ true)) ⊎ ((m prev).used ≡ b)
    → ((last ≡ 0) × (used_before b cs ≡ true)) ⊎ ((m last).used ≡ used_before b cs)
Front-last_used m b prev p [] last q f w =
    subst (λ x. ((x ≡ 0) × (b ≡ true)) ⊎ ((m x).used ≡ b)) f.0 w
Front-last_used m b prev p (c ∷ cs) last q f w =
    Front-last_used m c.used p (p + header_size + c.size) cs last q f.1
      (inr (ap (λ (x : Block). x.used) f.0))

merge_prev-keeps :
    (h : Heap) (front : List Chunk) (n : ℕ) (back : List Chunk)
    → IsLinked h (front ++ chunk n false ∷ back)
    → used_before true front ≡ true
    → merge_prev (end_of h.start front) h ≡ (end_of h.start front, h)
unfolding merge_prev
merge_prev-keeps h front n back v used =
    let p = end_of h.start front in
    let before = last_of 0 h.start front in
    let parts = Layout-split h.blocks h.end front (chunk n false) back 0 h.start v.layout in
    let prev_eq : (h.blocks p).prev ≡ before = ap (λ (b : Block). b.prev) parts.1.0 in
    elim (Front-last_used h.blocks true 0 h.start front before p parts.0 (inl (refl, refl))) [
      | inl (at_start, _) ↦ rw (prev_eq, at_start) refl
      | inr taken ↦ rw (prev_eq, taken, used) (drop_test (not (before == 0)) _ _)
    ]
  where
    drop_test : (b : Bool) (x y : ℕ × Heap) → (if b && false then x else y) ≡ y
    drop_test true x y = refl
    drop_test false x y = refl

attach-used :
    (n : ℕ) (c : Chunk) (cs : List Chunk)
    → c.used ≡ true
    → attach (chunk n false) (c ∷ cs) ≡ chunk n false ∷ c ∷ cs
attach-used n c cs e = rw e

attach-free :
    (n : ℕ) (c : Chunk) (cs : List Chunk)
    → c.used ≡ false
    → attach (chunk n false) (c ∷ cs) ≡ chunk (n + header_size + c.size) false ∷ cs
attach-free n c cs e = rw e

-- The second merge leaves no free neighbour behind the chunk.
finish :
    (h : Heap) (front : List Chunk) (n : ℕ) (back : List Chunk)
    → IsLinked h (front ++ chunk n false ∷ back)
    → NoPair true front
    → used_before true front ≡ true
    → NoPair true back
    → IsHeap (merge_next (end_of h.start front) h) (front ++ attach (chunk n false) back)
finish h front n [] v left used right =
    rw (merge_next-keeps h front n [] v tt)
      (IsLinked-IsHeap v (NoPair-append true front _ left (ground arith, tt)))
finish h front n (c ∷ back) v left used right =
    let goal = λ (cs : List Chunk). IsHeap (merge_next (end_of h.start front) h) (front ++ cs) in
    elim (Bool-cases c.used) [
      | inl taken ↦ subst goal (sym (attach-used n c back taken)) (
          rw (merge_next-keeps h front n (c ∷ back) v (taken, right.1))
            (IsLinked-IsHeap v (NoPair-append true front _ left (ground arith, (taken, right.1)))))
      | inr free ↦
          let w = subst (λ b. IsLinked h (front ++ chunk n false ∷ chunk c.size b ∷ back)) free v in
          subst goal (sym (attach-free n c back free)) (
            rw (merge_next-joins h front n c.size back w) (
              IsLinked-IsHeap (joined-IsLinked h front n c.size back w) (
                NoPair-append true front _ left
                  (ground arith, subst (λ b. NoPair b back) free right.1))))
    ]

-- A front whose last chunk is free ends in that chunk.
front-cases :
    (before : Bool) (front : List Chunk)
    → NoPair before front
    → (used_before before front ≡ true)
      ⊎ ((f : List Chunk) × (k : ℕ) × (front ≡ f ++ chunk k false ∷ [])
          × NoPair before f
          × (used_before before f ≡ true))
      ⊎ ((front ≡ []) × (before ≡ false))
front-cases true [] a = inl refl
front-cases false [] a = inr (inr (refl, refl))
front-cases before (c ∷ cs) a = elim (front-cases c.used cs a.1) [
  | inl taken ↦ inl taken
  | inr (inl (f, k, e, left, used)) ↦ inr (inl (c ∷ f, k, ap (◌∷◌ c) e, (a.0, left), used))
  | inr (inr (e, free)) ↦
      inr (inl ([], c.size, ap₂ (λ b ds. chunk c.size b ∷ ds) free e, tt, ground arith))
]

end_of-append : (p : ℕ) (xs ys : List Chunk) → end_of p (xs ++ ys) ≡ end_of (end_of p xs) ys
end_of-append p [] ys = refl
end_of-append p (x ∷ xs) ys = end_of-append (p + header_size + x.size) xs ys

-- Nothing to run together.
coalesce-front :
    (before : Bool) (front rest : List Chunk)
    → NoPair before front
    → used_before before front ≡ true
    → coalesce (front ++ rest) ≡ front ++ coalesce rest
coalesce-front before [] rest a used = refl
coalesce-front before (c ∷ []) rest a used = attach-head c (coalesce rest) used
  where
    attach-head : (c : Chunk) (ds : List Chunk) → c.used ≡ true → attach c ds ≡ c ∷ ds
    attach-head c [] e = refl
    attach-head c (d ∷ ds) e = rw e
coalesce-front before (c ∷ d ∷ front) rest a used =
    ap (attach c) (coalesce-front c.used (d ∷ front) rest a.1 used) ∙ rw a.1.0

pub coalesce-NoPair : (before : Bool) (cs : List Chunk) → NoPair before cs → coalesce cs ≡ cs
coalesce-NoPair before [] a = refl
coalesce-NoPair before (c ∷ []) a = refl
coalesce-NoPair before (c ∷ d ∷ cs) a =
    ap (attach c) (coalesce-NoPair c.used (d ∷ cs) a.1) ∙ rw a.1.0

attach-attach :
    (k n : ℕ) (back : List Chunk)
    → attach (chunk k false) (attach (chunk n false) back)
      ≡ attach (chunk (k + header_size + n) false) back
attach-attach k n [] = refl
attach-attach k n (c ∷ back) = elim (Bool-cases c.used) [
  | inl taken ↦ rw taken
  | inr free ↦ rw free (ap (λ s. chunk s false ∷ back) (omega arith))
]

-- Both merges, on a chunk that has been marked free.
merge_both : ℕ → Heap → Heap
merge_both q h = let (merged, h') = merge_prev q h in merge_next merged h'

merge_both-IsHeap :
    (h : Heap) (front : List Chunk) (n : ℕ) (back : List Chunk)
    → IsLinked h (front ++ chunk n false ∷ back)
    → NoPair true front
    → NoPair true back
    → IsHeap (merge_both (end_of h.start front) h) (coalesce (front ++ chunk n false ∷ back))
unfolding merge_both
merge_both-IsHeap h front n back v left right = elim (front-cases true front left) [
  | inl used ↦
      let same : coalesce (front ++ chunk n false ∷ back) ≡ front ++ attach (chunk n false) back =
        coalesce-front true front (chunk n false ∷ back) left used
        ∙ ap (λ cs. front ++ attach (chunk n false) cs) (coalesce-NoPair true back right) in
      subst (IsHeap _) (sym same)
        (rw (merge_prev-keeps h front n back v used) (finish h front n back v left used right))
  | inr (inl (f, k, e, f_left, used)) ↦
      let together : front ++ chunk n false ∷ back ≡ f ++ chunk k false ∷ chunk n false ∷ back =
        ap (λ cs. cs ++ chunk n false ∷ back) e
        ∙ append_assoc f (chunk k false ∷ []) (chunk n false ∷ back) in
      let w = subst (IsLinked h) together v in
      let here : end_of h.start front ≡ end_of h.start f + header_size + k =
        ap (end_of h.start) e ∙ end_of-append h.start f (chunk k false ∷ []) in
      let same : coalesce (front ++ chunk n false ∷ back)
          ≡ f ++ attach (chunk (k + header_size + n) false) back =
        ap coalesce together
        ∙ coalesce-front true f (chunk k false ∷ chunk n false ∷ back) f_left used
        ∙ ap (λ cs. f ++ attach (chunk k false) (attach (chunk n false) cs))
            (coalesce-NoPair true back right)
        ∙ ap (λ cs. f ++ cs) (attach-attach k n back) in
      subst (IsHeap _) (sym same) (
        rw (here, merge_prev-joins h f k n back w)
          (finish _ f (k + header_size + n) back (joined-IsLinked h f k n back w) f_left used
            right))
  | inr (inr (e, impossible)) ↦ cc
]

kfree-eq :
    (h : Heap) (q : ℕ)
    → q + header_size < 2 ^ 64
    → (h.blocks q).used ≡ true
    → kfree (q + header_size) h ≡ merge_both q (mark_free q h)
unfolding kfree merge_both
kfree-eq h q small used =
    let present : (q + header_size == 0) ≡ false = ground arith in
    let back : sub64 (q + header_size) header_size ≡ q = omega arith in
    rw (present, back, used) refl

-- Freeing a chunk that is in use keeps the heap a heap, and runs it together with its free
-- neighbours.
pub kfree-IsHeap :
    (h : Heap) (front : List Chunk) (n : ℕ) (back : List Chunk)
    → IsHeap h (front ++ chunk n true ∷ back)
    → IsHeap
        (kfree (end_of h.start front + header_size) h)
        (coalesce (front ++ chunk n false ∷ back))
unfolding mark_free
kfree-IsHeap h front n back v =
    let q = end_of h.start front in
    let parts = Layout-split h.blocks h.end front (chunk n true) back 0 h.start v.layout in
    let below = Layout-le h.blocks h.end q (q + header_size + n) back parts.1.1 in
    let apart = NoPair-split true front (chunk n true ∷ back) v.coalesced in
    rw (kfree-eq h q (omega (arith, below, v.bounded)) (ap (λ (b : Block). b.used) parts.1.0)) (
      merge_both-IsHeap (mark_free q h) front n back
        (mark_free-IsLinked h front n back (IsHeap-IsLinked v)) apart.0 apart.1.1)
