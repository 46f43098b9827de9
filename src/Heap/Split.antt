-- ===== src/Heap/Split.antt =====
-- `kmalloc` of kernel/src/memory/heap.c carves the request out of the chunk that was found.
use mathlib.Core.Path.{subst}
use deer.Base.{
  update_self, update_other, ℕ, ◌+◌, ◌-◌, ◌%◌, ◌^◌, ◌≤◌, ◌<◌, ◌≡◌, ◌≢◌, inl, inr, refl, ap, ◌∙◌,
  true, false, arith, List, [], ◌∷◌, ◌++◌, if◌then◌else◌, leb, update, u64, sub64, Bool-cases,
  length-append,
}
use deer.Heap.{Block, Heap, header_size, heap_alignment, split_block, take_block, link_prev}
use deer.Heap.Layout.{
  Chunk, chunk, block, next_of, Layout, Front, end_of, last_of, Layout-split, Layout-join,
  Layout-le, Front-frame, Layout-frame, Front-le, Layout-relink, link_prev-other, link_prev-same,
  next_of-cases,
}
use deer.Heap.Shape.{
  IsHeap, used_bytes-append, AllAligned-append, AllAligned-split, NoPair-append, NoPair-split,
  NoPair-true, used_bytes-le, used_bytes-Front,
}

-- What becomes of a free chunk of `n` bytes: the rest stays free if it can hold a header and more.
abbrev pub placed : (size n : ℕ) → List Chunk
placed size n =
    if leb (size + header_size + heap_alignment) n
    then chunk size true ∷ chunk (n - size - header_size) false ∷ []
    else chunk n true ∷ []

-- The store `block->used = true`.
abbrev set_used : ℕ → (ℕ → Block) → ℕ → Block
set_used q m = update m q (record (m q) { used = true })

-- The stores of a split, on the chunk at `q` and what follows it.
module _ (m : ℕ → Block) (stop last q size n : ℕ) (back : List Chunk) (pos : 0 < q)
    (bound : stop < 2 ^ 64) (room : size + header_size ≤ n)
    (l : Layout m stop last q (chunk n false ∷ back)) where
  abbrev after : ℕ
  after = q + header_size + n

  abbrev new : ℕ
  new = q + header_size + size

  abbrev cut : ℕ → Block
  cut = set_used q (split_block q size m)

  after-le : after ≤ stop
  after-le = Layout-le m stop q after back l.1

  abbrev nx : ℕ
  nx = next_of after back

  nx_beyond : (a : ℕ) → a < after → 0 < a → a ≢ nx
  nx_beyond a h k e = ground (arith, next_of-cases after back)

  -- The memory after the first two groups of stores.
  abbrev carved : ℕ → Block
  carved =
      update m new
        (record { size = sub64 (sub64 n size) header_size; used = false; next = nx; prev = q })

  abbrev linked : ℕ → Block
  linked = link_prev nx new carved

  split-eq : split_block q size m ≡ update linked q (record (linked q) { next = new; size = size })
  unfolding split_block
  split-eq = rw l.0

  linked-head : linked q ≡ block n false nx last
  linked-head =
      link_prev-other nx new carved q (nx_beyond q (omega arith) pos)
      ∙ update_other m new q _ (λ (e : q ≡ new). omega arith)
      ∙ l.0

  split-head : split_block q size m q ≡ block size false new last
  split-head =
      ap (λ f. f q) split-eq
      ∙ update_self linked q _
      ∙ ap (λ (b : Block). record b { next = new; size = size }) linked-head

  split-other : (a : ℕ) → a ≢ q → split_block q size m a ≡ linked a
  split-other a ne = ap (λ f. f a) split-eq ∙ update_other linked q a _ ne

  cut-other : (a : ℕ) → a ≢ q → cut a ≡ linked a
  cut-other a ne = update_other (split_block q size m) q a _ ne ∙ split-other a ne

  pub cut-head : cut q ≡ block size true new last
  cut-head =
      update_self (split_block q size m) q _
      ∙ ap (λ (b : Block). record b { used = true }) split-head

  cut-rest : cut new ≡ block (n - size - header_size) false nx q
  cut-rest =
      cut-other new (λ (e : new ≡ q). omega arith)
      ∙ link_prev-other nx new carved new (nx_beyond new (omega arith) (omega arith))
      ∙ update_self m new _
      ∙ ap (λ k. block k false nx q) (omega (arith, after-le))

  cut-behind : (a : ℕ) → after ≤ a → cut a ≡ link_prev nx new m a
  cut-behind a h =
      cut-other a (λ (e : a ≡ q). omega arith)
      ∙ link_prev-same nx new carved m a (update_other m new a _ (λ (e : a ≡ new). omega arith))

  pub cut-front : (a : ℕ) → a < q → 0 < a → cut a ≡ m a
  cut-front a h k =
      cut-other a (λ (e : a ≡ q). omega arith)
      ∙ link_prev-other nx new carved a (nx_beyond a (omega arith) k)
      ∙ update_other m new a _ (λ (e : a ≡ new). omega arith)

  cut-Layout :
      Layout cut stop last q (chunk size true ∷ chunk (n - size - header_size) false ∷ back)
  cut-Layout =
      let meet : after ≡ new + header_size + (n - size - header_size) = omega arith in
      (
        cut-head,
        (
          subst (λ a. cut new ≡ block (n - size - header_size) false (next_of a back) q) meet
              cut-rest,
          subst (λ a. Layout cut stop new a back) meet
              (Layout-relink m cut stop q after back new l.1 (omega arith) cut-behind),
        ),
      )

-- The chunk keeps its size and becomes used.
module _ (m : ℕ → Block) (stop last q n : ℕ) (back : List Chunk) (pos : 0 < q)
    (l : Layout m stop last q (chunk n false ∷ back)) where
  abbrev whole : ℕ → Block
  whole = set_used q m

  whole-Layout : Layout whole stop last q (chunk n true ∷ back)
  whole-Layout = (
    update_self m q _ ∙ ap (λ (b : Block). record b { used = true }) l.0,
    Layout-frame m whole stop q (q + header_size + n) back l.1
        (λ a h. update_other m q a _ (λ (e : a ≡ q). omega arith)),
  )

module _ (h : Heap) (front : List Chunk) (n : ℕ) (back : List Chunk) (size : ℕ)
    (v : IsHeap h (front ++ chunk n false ∷ back)) (room : size ≤ n)
    (even : size % heap_alignment ≡ 0) where
  abbrev at : ℕ
  at = end_of h.start front

  abbrev before : ℕ
  before = last_of 0 h.start front

  parts :
      Front h.blocks 0 h.start front before at
      × Layout h.blocks h.end before at (chunk n false ∷ back)
  parts = Layout-split h.blocks h.end front (chunk n false) back 0 h.start v.layout

  start-le : h.start ≤ at
  start-le = Front-le h.blocks 0 h.start front before at parts.0

  fits_below : at + header_size + n ≤ h.end
  fits_below = Layout-le h.blocks h.end at (at + header_size + n) back parts.1.1

  size_at : (h.blocks at).size ≡ n
  size_at = ap (λ (b : Block). b.size) parts.1.0

  used_small : h.used_size + n < 2 ^ 64
  used_small = omega (
    arith,
    v.used,
    v.bounded,
    used_bytes-append front (chunk n false ∷ back),
    used_bytes-Front h.blocks 0 h.start front before at parts.0,
    used_bytes-le h.blocks h.end at (at + header_size + n) back parts.1.1,
  )

  at_positive : 0 < at
  at_positive = omega (arith, start-le, v.positive)

  -- The sum in the test does not wrap: the heap ends too low for that.
  test_wide :
      leb (u64 (size + header_size + heap_alignment)) (h.blocks at).size
      ≡ leb (size + header_size + heap_alignment) n
  test_wide = rw size_at (
      ap (λ k. leb k n)
        (omega (arith, fits_below, v.bounded, start-le, v.positive, v.aligned_start)))

  wide_eq :
      leb (size + header_size + heap_alignment) n ≡ true
      → (take_block at size h).1 ≡ record h {
        blocks = set_used at (split_block at size h.blocks);
        block_count = h.block_count + 1;
        used_size = u64 (h.used_size + (split_block at size h.blocks at).size);
      }
  unfolding take_block
  wide_eq w = rw (test_wide, w) refl

  take_wide :
      leb (size + header_size + heap_alignment) n ≡ true
      → IsHeap
          (take_block at size h).1
          (front ++ chunk size true ∷ chunk (n - size - header_size) false ∷ back)
  take_wide w =
      let fit : size + header_size ≤ n = ground arith in
      let m = set_used at (split_block at size h.blocks) in
      let used_at : (split_block at size h.blocks at).size ≡ size =
        ap (λ (b : Block). b.size)
          (split-head h.blocks h.end before at size n back at_positive v.bounded fit parts.1) in
      let align = AllAligned-split front (chunk n false ∷ back) v.aligned in
      let apart = NoPair-split true front (chunk n false ∷ back) v.coalesced in
      rw (wide_eq w) (record {
        layout =
            Layout-join m h.end front (chunk size true)
              (chunk (n - size - header_size) false ∷ back) 0 h.start before at
              (Front-frame h.blocks m 0 h.start front before at parts.0 (λ a k j.
                cut-front h.blocks h.end before at size n back at_positive v.bounded fit parts.1 a j
                  (omega (arith, v.positive))))
              (cut-Layout h.blocks h.end before at size n back at_positive v.bounded fit parts.1);
        some_chunk = omega (
          arith,
          length-append {0} front (chunk size true ∷ chunk (n - size - header_size) false ∷ back),
        );
        first = v.first;
        positive = v.positive;
        aligned_start = v.aligned_start;
        bounded = v.bounded;
        total = v.total;
        count = omega (
          arith,
          v.count,
          length-append {0} front (chunk n false ∷ back),
          length-append {0} front (chunk size true ∷ chunk (n - size - header_size) false ∷ back),
        );
        used = omega (
          arith,
          v.used,
          used_at,
          used_small,
          used_bytes-append front (chunk n false ∷ back),
          used_bytes-append front (chunk size true ∷ chunk (n - size - header_size) false ∷ back),
        );
        aligned =
            AllAligned-append front _ align.0 (even, (omega (arith, align.1.0, even), align.1.1));
        coalesced = NoPair-append true front _ apart.0 (ground arith, (refl, apart.1.1));
      })

  narrow_eq :
      leb (size + header_size + heap_alignment) n ≡ false
      → (take_block at size h).1 ≡ record h {
        blocks = set_used at h.blocks;
        used_size = u64 (h.used_size + (h.blocks at).size);
      }
  unfolding take_block
  narrow_eq w = rw (test_wide, w) refl

  take_narrow :
      leb (size + header_size + heap_alignment) n ≡ false
      → IsHeap (take_block at size h).1 (front ++ chunk n true ∷ back)
  take_narrow w =
      let m = set_used at h.blocks in
      let align = AllAligned-split front (chunk n false ∷ back) v.aligned in
      let apart = NoPair-split true front (chunk n false ∷ back) v.coalesced in
      rw (narrow_eq w) (record {
        layout =
            Layout-join m h.end front (chunk n true) back 0 h.start before at
              (Front-frame h.blocks m 0 h.start front before at parts.0
                (λ a k j. update_other h.blocks at a _ (λ (e : a ≡ at). omega arith)))
              (whole-Layout h.blocks h.end before at n back at_positive parts.1);
        some_chunk = omega (arith, length-append {0} front (chunk n true ∷ back));
        first = v.first;
        positive = v.positive;
        aligned_start = v.aligned_start;
        bounded = v.bounded;
        total = v.total;
        count = omega (
          arith,
          v.count,
          length-append {0} front (chunk n false ∷ back),
          length-append {0} front (chunk n true ∷ back),
        );
        used = omega (
          arith,
          v.used,
          size_at,
          used_small,
          used_bytes-append front (chunk n false ∷ back),
          used_bytes-append front (chunk n true ∷ back),
        );
        aligned = AllAligned-append front _ align.0 align.1;
        coalesced =
            NoPair-append true front _ apart.0 (ground arith, NoPair-true false back apart.1.1);
      })

  -- Whether the chunk is split or taken whole, the heap stays a heap.
  pub take_block-IsHeap : IsHeap (take_block at size h).1 (front ++ (placed size n ++ back))
  take_block-IsHeap = elim (Bool-cases (leb (size + header_size + heap_alignment) n)) [
    | inl w ↦ rw w (take_wide w)
    | inr w ↦ rw w (take_narrow w)
  ]
