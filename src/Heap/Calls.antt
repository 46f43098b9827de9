-- ===== src/Heap/Calls.antt =====
-- The calls of kernel/src/memory/heap.c: what `kmalloc` returns, and that `kfree` undoes it.
use mathlib.Core.Path.{subst, subst₂}
use deer.Base.{
  ℕ, ◌+◌, ◌-◌, ◌*◌, ◌/◌, ◌%◌, ◌^◌, ◌≤◌, ◌<◌, ◌≡◌, ◌≢◌, ◌⊎◌, inl, inr, refl, ap, sym, ◌∙◌, true,
  false, arith, bit_and, List, [], ◌∷◌, ◌++◌, length, if◌then◌else◌, leb, ltb, ◌==◌, update, u64,
  sub64, Bool-cases, some,
}
use deer.Bits.{and-high, and-ones}
use deer.Heap.{
  Block, Heap, header_size, heap_alignment, round_size, allocate, allocate_cleared, kmalloc,
  kcalloc, kfree, find_free_block, find_loop, take_block, merge_prev, merge_next, mark_free,
  link_prev,
}
use deer.Heap.Layout.{Chunk, chunk, end_of, next_of, Front-le, Layout-split}
use deer.Heap.Search.{IsBest, NoneFits, find_loop-IsBest}
use deer.Heap.Shape.{IsHeap, NoPair, NoPair-split}
use deer.Heap.Split.{placed, take_block-IsHeap}
use deer.Heap.Release.{attach, coalesce, coalesce-NoPair, kfree-IsHeap}

-- `& ~7` rounds down to a multiple of eight.
and_not_seven : (x : ℕ) → x < 2 ^ 64 → bit_and x (2 ^ 64 - heap_alignment) ≡ x / 8 * 8
and_not_seven x h =
    and-high 3 x (2 ^ 61 - 1) ∙ ap (λ (t : ℕ). t * 8) (and-ones 61 (x / 8) ∙ omega arith)

pub round_size-eq :
    (size : ℕ)
    → round_size size ≡ (
        let aligned = u64 (size + 7) / 8 * 8 in
        if ltb aligned header_size then header_size else aligned)
unfolding round_size
round_size-eq size =
    rw (and_not_seven (u64 (size + heap_alignment - 1)) (omega arith)) (ground arith)

pub round_size-aligned : (size : ℕ) → round_size size % heap_alignment ≡ 0
round_size-aligned size = rw (round_size-eq size) (ground arith)

-- The rounded size covers the request unless the rounding wraps.
pub le-round_size : (size : ℕ) → size ≤ 2 ^ 64 - 8 → size ≤ round_size size
le-round_size size h = rw (round_size-eq size) (ground arith)

-- A block found for a request, and the heap after it is taken.
pub record IsServed (need : ℕ) (h : Heap) (cs : List Chunk) (ptr : ℕ) (w : Heap) : Type 0 where
  pub block : ℕ
  pub best : IsBest need h.start cs block
  pub pointer : ptr ≡ block + header_size
  pub heap : IsHeap w (best.front ++ (placed need best.width ++ best.back))
  pub start_same : w.start ≡ h.start

take_block-start : (b size : ℕ) (h : Heap) → (take_block b size h).1.start ≡ h.start
unfolding take_block
take_block-start b size h = refl

take_block-pointer : (b size : ℕ) (h : Heap) → (take_block b size h).0 ≡ b + header_size
unfolding take_block
take_block-pointer b size h = refl

next_of-cons : (p : ℕ) (cs : List Chunk) → 0 < length cs → next_of p cs ≡ p
next_of-cons p [] h = absurd (omega arith)
next_of-cons p (c ∷ cs) h = refl

find_eq :
    (need : ℕ) (h : Heap) (cs : List Chunk)
    → IsHeap h cs
    → find_free_block need h ≡ find_loop h.blocks need (h.block_count + 1) (next_of h.start cs) 0
unfolding find_free_block
find_eq need h cs v =
    ap (λ p. find_loop h.blocks need (h.block_count + 1) p 0)
      (v.first ∙ sym (next_of-cons h.start cs v.some_chunk))

-- The search is for the rounded size.
pub kmalloc-rounded :
    (size : ℕ) (h : Heap) (cs : List Chunk)
    → IsHeap h cs
    → size ≢ 0
    → ((ptr : ℕ) × (w : Heap) × (kmalloc size h ≡ some (ptr, w))
        × IsServed (round_size size) h cs ptr w)
      ⊎ ((kmalloc size h ≡ some (0, h)) × NoneFits (round_size size) cs)
unfolding kmalloc
kmalloc-rounded size h cs v asked =
    let need = round_size size in
    let positive : (size == 0) ≡ false = ground arith in
    let at_first = find_eq need h cs v in
    rw positive
      (elim (find_loop-IsBest h.blocks h.end need (h.block_count + 1) 0 h.start cs v.positive
        (omega (arith, v.count)) v.layout) [
          | inl (e, nothing) ↦ inr (rw (at_first ∙ e, allocate) refl, nothing)
          | inr (b, e, best) ↦
              let w = subst (IsHeap h) best.split v in
              let parts =
                Layout-split h.blocks h.end best.front (chunk best.width false) best.back 0 h.start
                  w.layout in
              let low = Front-le h.blocks 0 h.start best.front _ _ parts.0 in
              let present : (b == 0) ≡ false = ground (arith, v.positive, best.address) in
              inl (
                (take_block b need h).0,
                (take_block b need h).1,
                rw (at_first ∙ e, allocate, present) refl,
                record {
                  block = b;
                  best = best;
                  pointer = take_block-pointer b need h;
                  heap =
                      subst
                        (λ a.
                          IsHeap (take_block a need h).1
                            (best.front ++ (placed need best.width ++ best.back)))
                        (sym best.address)
                        (take_block-IsHeap h best.front best.width best.back need w best.enough
                          (round_size-aligned size));
                  start_same = take_block-start b need h;
                },
              )
        ])

-- The least size of a chunk that a request can be served with: a multiple of 8 that has room for a
-- header.
pub record IsLeast (size need : ℕ) : Type 0 where
  pub covers : size ≤ need
  pub header : 32 ≤ need
  pub whole : need % 8 ≡ 0
  pub least : (n : ℕ) → size ≤ n → 32 ≤ n → n % 8 ≡ 0 → need ≤ n

round_size-IsLeast : (size : ℕ) → size ≤ 2 ^ 64 - 8 → IsLeast size (round_size size)
round_size-IsLeast size h = record {
  covers = le-round_size size h;
  header = rw (round_size-eq size) (ground arith);
  whole = round_size-aligned size;
  least = λ n a b c. rw (round_size-eq size) (ground arith);
}

-- In a heap, a request for at least one byte and at most 2 ^ 64 - 8 ends. For the least multiple of 8
-- that covers the request and a header, it gives the tightest free chunk that has so many bytes,
-- split if the rest can be a chunk, and the heap stays a heap; or no free chunk has so many bytes,
-- and it gives NULL and changes nothing.
pub kmalloc-Served_or_refused :
    (size : ℕ) (h : Heap) (cs : List Chunk)
    → IsHeap h cs
    → size ≢ 0
    → size ≤ 2 ^ 64 - 8
    → (need : ℕ) × IsLeast size need
      × (((ptr : ℕ) × (w : Heap) × (kmalloc size h ≡ some (ptr, w)) × IsServed need h cs ptr w)
          ⊎ ((kmalloc size h ≡ some (0, h)) × NoneFits need cs))
kmalloc-Served_or_refused size h cs v asked fits =
    (round_size size, round_size-IsLeast size fits, kmalloc-rounded size h cs v asked)

coalesce-rest :
    (front xs ys : List Chunk)
    → coalesce xs ≡ coalesce ys
    → coalesce (front ++ xs) ≡ coalesce (front ++ ys)
coalesce-rest [] xs ys e = e
coalesce-rest (c ∷ front) xs ys e = ap (attach c) (coalesce-rest front xs ys e)

NoPair-attach :
    (n : ℕ) (back : List Chunk)
    → NoPair false back
    → attach (chunk n false) back ≡ chunk n false ∷ back
NoPair-attach n [] a = refl
NoPair-attach n (c ∷ back) a = rw a.0

-- Giving back what was carved out of a chunk makes the chunk whole again.
placed-coalesce :
    (size n : ℕ) (back : List Chunk)
    → NoPair false back
    → leb (size + header_size + heap_alignment) n ≡ true
    → coalesce (chunk size false ∷ chunk (n - size - header_size) false ∷ back)
      ≡ coalesce (chunk n false ∷ back)
placed-coalesce size n back apart wide =
    let rest = n - size - header_size in
    let shut = coalesce-NoPair false back apart in
    ap (λ ds. attach (chunk size false) (attach (chunk rest false) ds)) shut
    ∙ ap (attach (chunk size false)) (NoPair-attach rest back apart)
    ∙ ap (λ s. chunk s false ∷ back) (ground arith)
    ∙ sym (NoPair-attach n back apart)
    ∙ sym (ap (attach (chunk n false)) shut)

kfree-served :
    (need : ℕ) (h w : Heap) (cs : List Chunk) (ptr : ℕ)
    → IsHeap h cs
    → IsServed need h cs ptr w
    → IsHeap (kfree ptr w) cs
kfree-served need h w cs ptr v g =
    let n = g.best.width in
    let front = g.best.front in
    let back = g.best.back in
    let before = subst (IsHeap h) g.best.split v in
    let apart = (NoPair-split true front (chunk n false ∷ back) before.coalesced).1 in
    let back_to : coalesce (front ++ chunk n false ∷ back) ≡ cs =
      coalesce-NoPair true _ before.coalesced ∙ sym g.best.split in
    let pointer : ptr ≡ end_of w.start front + header_size =
      g.pointer
      ∙ ap (λ a. a + header_size) (g.best.address ∙ ap (λ s. end_of s front) (sym g.start_same)) in
    elim (Bool-cases (leb (need + header_size + heap_alignment) n)) [
      | inl wide ↦
          let here =
            subst
              (λ b. IsHeap w (
                front
                ++ ((if b
                      then chunk need true ∷ chunk (n - need - header_size) false ∷ []
                      else chunk n true ∷ [])
                    ++ back)))
              wide g.heap in
          subst₂ (λ p ds. IsHeap (kfree p w) ds) (sym pointer)
            (coalesce-rest front _ _ (placed-coalesce need n back apart.1 wide) ∙ back_to)
            (kfree-IsHeap w front need (chunk (n - need - header_size) false ∷ back) here)
      | inr narrow ↦
          let here =
            subst
              (λ b. IsHeap w (
                front
                ++ ((if b
                      then chunk need true ∷ chunk (n - need - header_size) false ∷ []
                      else chunk n true ∷ [])
                    ++ back)))
              narrow g.heap in
          subst₂ (λ p ds. IsHeap (kfree p w) ds) (sym pointer) back_to
            (kfree-IsHeap w front n back here)
    ]

-- Freeing what `kmalloc` has just returned leaves a heap of the very same chunks.
pub kfree-kmalloc :
    (size : ℕ) (h w : Heap) (cs : List Chunk) (ptr : ℕ)
    → IsHeap h cs
    → size ≢ 0
    → kmalloc size h ≡ some (ptr, w)
    → ptr ≢ 0
    → IsHeap (kfree ptr w) cs
kfree-kmalloc size h w cs ptr v asked e nonnull = elim (kmalloc-rounded size h cs v asked) [
  | inl (p, u, f, g) ↦
      let same : p ≡ ptr = ground (arith, e, f) in
      let same_heap : u ≡ w = cc (e, f) in
      subst₂ (λ a b. IsHeap (kfree a b) cs) same same_heap
        (kfree-served (round_size size) h u cs p v g)
  | inr (f, nothing) ↦ absurd (nonnull (ground (arith, e, f)))
]

-- A request of the last seven sizes wraps in the rounding and is served as one of 32 bytes.
pub kmalloc-oversize :
    (size : ℕ) (h : Heap) → 2 ^ 64 - 7 ≤ size → size < 2 ^ 64 → kmalloc size h ≡ kmalloc 32 h
unfolding kmalloc
kmalloc-oversize size h low high =
    let positive : (size == 0) ≡ false = ground arith in
    let rounds : round_size size ≡ round_size 32 =
      rw (round_size-eq size, round_size-eq 32) (ground arith) in
    rw positive (ap (λ need. allocate need h) rounds)

-- `kcalloc` of two numbers is `kcalloc` of their product reduced modulo 2 ^ 64.
pub kcalloc-wraps : (num size : ℕ) (h : Heap) → kcalloc num size h ≡ kcalloc 1 (u64 (num * size)) h
unfolding kcalloc
kcalloc-wraps num size h =
    let same : u64 (num * size) ≡ u64 (1 * u64 (num * size)) = omega arith in
    ap (λ total. allocate_cleared total h) same

-- The stores of `kfree` change `used` at the freed block alone.
link_prev-used : (next prev a : ℕ) (m : ℕ → Block) → (link_prev next prev m a).used ≡ (m a).used
unfolding link_prev
link_prev-used next prev a m = ground arith

merge_prev-used : (b a : ℕ) (h : Heap) → ((merge_prev b h).1.blocks a).used ≡ (h.blocks a).used
unfolding merge_prev
merge_prev-used b a h =
    let p = (h.blocks b).prev in
    let m1 = update h.blocks p (record (h.blocks p) {
      size = u64 ((h.blocks p).size + ((h.blocks b).size + header_size));
      next = (h.blocks b).next;
    }) in
    ground (arith, link_prev-used (h.blocks b).next p a m1)

merge_next-used : (b a : ℕ) (h : Heap) → ((merge_next b h).blocks a).used ≡ (h.blocks a).used
unfolding merge_next
merge_next-used b a h =
    let n = h.blocks (h.blocks b).next in
    let m1 = update h.blocks b (record (h.blocks b) {
      size = u64 ((h.blocks b).size + (n.size + header_size));
      next = n.next;
    }) in
    ground (arith, link_prev-used n.next b a m1)

kfree-marks :
    (ptr : ℕ) (h : Heap) → ptr ≢ 0 → ((kfree ptr h).blocks (sub64 ptr header_size)).used ≡ false
unfolding kfree mark_free
kfree-marks ptr h nonnull =
    let b = sub64 ptr header_size in
    let present : (ptr == 0) ≡ false = ground arith in
    elim (Bool-cases (h.blocks b).used) [
      | inl taken ↦
          let freed = mark_free b h in
          rw (present, taken)
            (merge_next-used (merge_prev b freed).0 b (merge_prev b freed).1
              ∙ merge_prev-used b b freed
              ∙ ground arith)
      | inr free ↦ rw (present, free) free
    ]

-- Whatever the heap, freeing a pointer twice does what freeing it once does.
pub kfree-kfree : (ptr : ℕ) (h : Heap) → kfree ptr (kfree ptr h) ≡ kfree ptr h
kfree-kfree ptr h = elim (Bool-cases (ptr == 0)) [
  | inl null ↦ kfree-null ptr (kfree ptr h) null
  | inr present ↦ kfree-free_block ptr (kfree ptr h) present (kfree-marks ptr h (ground arith))
]
  where
    kfree-null : (ptr : ℕ) (h : Heap) → (ptr == 0) ≡ true → kfree ptr h ≡ h
    kfree-null ptr h e = unfold kfree in rw e refl

    kfree-free_block :
        (ptr : ℕ) (h : Heap)
        → (ptr == 0) ≡ false
        → (h.blocks (sub64 ptr header_size)).used ≡ false
        → kfree ptr h ≡ h
    kfree-free_block ptr h e f = unfold kfree in rw (e, f) refl
