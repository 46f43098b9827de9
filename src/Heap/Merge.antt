-- ===== src/Heap/Merge.antt =====
-- `kfree` of kernel/src/memory/heap.c: the stores that join two neighbouring chunks, and when they
-- run.
use mathlib.Core.Path.{subst}
use deer.Base.{
  update_self, update_other, ℕ, ◌+◌, ◌^◌, ◌≤◌, ◌<◌, ◌≡◌, ◌≢◌, ap, ◌∙◌, false, arith, List, ◌∷◌,
  ◌++◌, update, u64, sub64, length-append,
}
use deer.Heap.{Block, Heap, header_size, link_prev}
use deer.Heap.Layout.{
  Chunk, chunk, block, next_of, Layout, end_of, last_of, Layout-split, Layout-join, Layout-le,
  Front-frame, Front-le, Layout-relink, link_prev-other, link_prev-same, next_of-cases,
}
use deer.Heap.Shape.{IsLinked, used_bytes-append, AllAligned-append, AllAligned-split, count_small}

-- Both merges make these stores: the block at `p` takes over the block at `q` behind it.
abbrev pub joined : (p q : ℕ) → (ℕ → Block) → ℕ → Block
joined p q m = link_prev (m q).next p (
    update m p
      (record (m p) { size = u64 ((m p).size + ((m q).size + header_size)); next = (m q).next }))

module _ (m : ℕ → Block) (stop last p k n : ℕ) (back : List Chunk) (pos : 0 < p)
    (bound : stop < 2 ^ 64) (l : Layout m stop last p (chunk k false ∷ chunk n false ∷ back)) where
  abbrev q : ℕ
  q = p + header_size + k

  abbrev after : ℕ
  after = q + header_size + n

  abbrev nx : ℕ
  nx = next_of after back

  after-le : after ≤ stop
  after-le = Layout-le m stop q after back l.1.1

  nx_beyond : (a : ℕ) → a < after → 0 < a → a ≢ nx
  nx_beyond a h r e = ground (arith, next_of-cases after back)

  abbrev grown : ℕ → Block
  grown = update m p (record (m p) { size = u64 ((m p).size + (n + header_size)); next = nx })

  joined-eq : joined p q m ≡ link_prev nx p grown
  joined-eq = rw l.1.0

  joined-head : joined p q m p ≡ block (k + header_size + n) false nx last
  joined-head =
      ap (λ f. f p) joined-eq
      ∙ link_prev-other nx p grown p (nx_beyond p (omega arith) pos)
      ∙ update_self m p _
      ∙ ap (λ (b : Block). record b { size = u64 (b.size + (n + header_size)); next = nx }) l.0
      ∙ ap (λ s. block s false nx last) (omega (arith, after-le))

  joined-behind : (a : ℕ) → after ≤ a → joined p q m a ≡ link_prev nx p m a
  joined-behind a h =
      ap (λ f. f a) joined-eq
      ∙ link_prev-same nx p grown m a (update_other m p a _ (λ (e : a ≡ p). omega arith))

  joined-front : (a : ℕ) → a < p → 0 < a → joined p q m a ≡ m a
  joined-front a h r =
      ap (λ f. f a) joined-eq
      ∙ link_prev-other nx p grown a (nx_beyond a (omega arith) r)
      ∙ update_other m p a _ (λ (e : a ≡ p). omega arith)

  joined-Layout : Layout (joined p q m) stop last p (chunk (k + header_size + n) false ∷ back)
  joined-Layout =
      let meet : after ≡ p + header_size + (k + header_size + n) = omega arith in
      (
        subst (λ a. joined p q m p ≡ block (k + header_size + n) false (next_of a back) last) meet
            joined-head,
        subst (λ a. Layout (joined p q m) stop p a back) meet
            (Layout-relink m (joined p q m) stop q after back p l.1.1 (omega arith) joined-behind),
      )

-- Two neighbouring free chunks become one.
pub joined-IsLinked :
    (h : Heap) (front : List Chunk) (k n : ℕ) (back : List Chunk)
    → IsLinked h (front ++ chunk k false ∷ chunk n false ∷ back)
    → let p = end_of h.start front in
      IsLinked
        (record h {
          blocks = joined p (p + header_size + k) h.blocks;
          block_count = sub64 h.block_count 1;
        })
        (front ++ chunk (k + header_size + n) false ∷ back)
joined-IsLinked h front k n back v =
    let p = end_of h.start front in
    let before = last_of 0 h.start front in
    let parts =
      Layout-split h.blocks h.end front (chunk k false) (chunk n false ∷ back) 0 h.start v.layout in
    let low = Front-le h.blocks 0 h.start front before p parts.0 in
    let pos : 0 < p = omega (arith, v.positive) in
    let align = AllAligned-split front (chunk k false ∷ chunk n false ∷ back) v.aligned in
    record {
      layout =
          Layout-join _ h.end front (chunk (k + header_size + n) false) back 0 h.start before p
            (Front-frame h.blocks _ 0 h.start front before p parts.0 (λ a r j.
              joined-front h.blocks h.end before p k n back pos v.bounded parts.1 a j
                (omega (arith, v.positive))))
            (joined-Layout h.blocks h.end before p k n back pos v.bounded parts.1);
      some_chunk =
          omega (arith, length-append {0} front (chunk (k + header_size + n) false ∷ back));
      first = v.first;
      positive = v.positive;
      aligned_start = v.aligned_start;
      bounded = v.bounded;
      total = v.total;
      count = omega (
        arith,
        v.count,
        count_small h (front ++ chunk k false ∷ chunk n false ∷ back) v,
        length-append {0} front (chunk k false ∷ chunk n false ∷ back),
        length-append {0} front (chunk (k + header_size + n) false ∷ back),
      );
      used = omega (
        arith,
        v.used,
        used_bytes-append front (chunk k false ∷ chunk n false ∷ back),
        used_bytes-append front (chunk (k + header_size + n) false ∷ back),
      );
      aligned =
          AllAligned-append front _ align.0 (omega (arith, align.1.0, align.1.1.0), align.1.1.1);
    }
