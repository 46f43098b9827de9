-- ===== src/Heap/Shape.antt =====
-- The invariant of kernel/src/memory/heap.c: the chunks that the heap consists of, and what the
-- counters and the alignment owe them.
use deer.Base.{
  ℕ, ◌+◌, ◌%◌, ◌^◌, ◌≤◌, ◌<◌, ◌≡◌, refl, Bool, true, ◌||◌, arith, List, [], ◌∷◌, ◌++◌, length,
  if◌then◌else◌,
}
use deer.Heap.{Block, Heap, header_size, heap_alignment}
use deer.Heap.Layout.{Chunk, Layout, Front, end_of}

abbrev pub used_bytes : List Chunk → ℕ
used_bytes [] = 0
used_bytes (c ∷ cs) = (if c.used then c.size else 0) + used_bytes cs

abbrev pub AllAligned : List Chunk → Type 0
AllAligned [] = Unit
AllAligned (c ∷ cs) = (c.size % heap_alignment ≡ 0) × AllAligned cs

-- No two free chunks side by side, the first chunk following one that is in use or not.
abbrev pub NoPair : Bool → List Chunk → Type 0
NoPair before [] = Unit
NoPair before (c ∷ cs) = ((before || c.used) ≡ true) × NoPair c.used cs

pub record IsHeap (h : Heap) (cs : List Chunk) : Type 0 where
  pub layout : Layout h.blocks h.end 0 h.start cs
  pub some_chunk : 0 < length cs
  pub first : h.first_block ≡ h.start
  pub positive : 0 < h.start
  pub aligned_start : h.start % heap_alignment ≡ 0
  pub bounded : h.end < 2 ^ 64
  pub total : h.start + h.total_size ≡ h.end
  pub count : h.block_count ≡ length cs
  pub used : h.used_size ≡ used_bytes cs
  pub aligned : AllAligned cs
  pub coalesced : NoPair true cs

-- The same less the last field: what holds between the two merges of `kfree`.
pub record IsLinked (h : Heap) (cs : List Chunk) : Type 0 where
  pub layout : Layout h.blocks h.end 0 h.start cs
  pub some_chunk : 0 < length cs
  pub first : h.first_block ≡ h.start
  pub positive : 0 < h.start
  pub aligned_start : h.start % heap_alignment ≡ 0
  pub bounded : h.end < 2 ^ 64
  pub total : h.start + h.total_size ≡ h.end
  pub count : h.block_count ≡ length cs
  pub used : h.used_size ≡ used_bytes cs
  pub aligned : AllAligned cs

pub IsHeap-IsLinked : {h : Heap} {cs : List Chunk} → IsHeap h cs → IsLinked h cs
IsHeap-IsLinked v = record {
  layout = v.layout;
  some_chunk = v.some_chunk;
  first = v.first;
  positive = v.positive;
  aligned_start = v.aligned_start;
  bounded = v.bounded;
  total = v.total;
  count = v.count;
  used = v.used;
  aligned = v.aligned;
}

pub IsLinked-IsHeap : {h : Heap} {cs : List Chunk} → IsLinked h cs → NoPair true cs → IsHeap h cs
IsLinked-IsHeap v apart = record {
  layout = v.layout;
  some_chunk = v.some_chunk;
  first = v.first;
  positive = v.positive;
  aligned_start = v.aligned_start;
  bounded = v.bounded;
  total = v.total;
  count = v.count;
  used = v.used;
  aligned = v.aligned;
  coalesced = apart;
}

-- The parts of a heap around a chunk.
pub used_bytes-append : (xs ys : List Chunk) → used_bytes (xs ++ ys) ≡ used_bytes xs + used_bytes ys
used_bytes-append [] ys = omega arith
used_bytes-append (x ∷ xs) ys = omega (arith, used_bytes-append xs ys)

pub AllAligned-append : (xs ys : List Chunk) → AllAligned xs → AllAligned ys → AllAligned (xs ++ ys)
AllAligned-append [] ys a b = b
AllAligned-append (x ∷ xs) ys a b = (a.0, AllAligned-append xs ys a.1 b)

pub AllAligned-split : (xs ys : List Chunk) → AllAligned (xs ++ ys) → AllAligned xs × AllAligned ys
AllAligned-split [] ys a = (tt, a)
AllAligned-split (x ∷ xs) ys a = let rest = AllAligned-split xs ys a.1 in ((a.0, rest.0), rest.1)

-- Whether the chunk in front of the rest is in use.
abbrev pub used_before : Bool → List Chunk → Bool
used_before before [] = before
used_before before (x ∷ xs) = used_before x.used xs

pub NoPair-append :
    (before : Bool) (xs ys : List Chunk)
    → NoPair before xs
    → NoPair (used_before before xs) ys
    → NoPair before (xs ++ ys)
NoPair-append before [] ys a b = b
NoPair-append before (x ∷ xs) ys a b = (a.0, NoPair-append x.used xs ys a.1 b)

pub NoPair-split :
    (before : Bool) (xs ys : List Chunk)
    → NoPair before (xs ++ ys)
    → NoPair before xs × NoPair (used_before before xs) ys
NoPair-split before [] ys a = (tt, a)
NoPair-split before (x ∷ xs) ys a =
    let rest = NoPair-split x.used xs ys a.1 in ((a.0, rest.0), rest.1)

-- Behind a chunk in use anything may follow.
pub NoPair-true : (before : Bool) (ys : List Chunk) → NoPair before ys → NoPair true ys
NoPair-true before [] a = tt
NoPair-true before (y ∷ ys) a = (refl, a.1)

pub end_of-le :
    (m : ℕ → Block) (stop prev p : ℕ) (cs : List Chunk)
    → Layout m stop prev p cs
    → end_of p cs ≡ stop
end_of-le m stop prev p [] l = l
end_of-le m stop prev p (c ∷ cs) l = end_of-le m stop p (p + header_size + c.size) cs l.1

pub used_bytes-le :
    (m : ℕ → Block) (stop prev p : ℕ) (cs : List Chunk)
    → Layout m stop prev p cs
    → p + used_bytes cs ≤ stop
used_bytes-le m stop prev p [] l = omega (arith, l)
used_bytes-le m stop prev p (c ∷ cs) l =
    ground (arith, used_bytes-le m stop p (p + header_size + c.size) cs l.1)

pub used_bytes-Front :
    (m : ℕ → Block) (prev p : ℕ) (cs : List Chunk) (last q : ℕ)
    → Front m prev p cs last q
    → p + used_bytes cs ≤ q
used_bytes-Front m prev p [] last q f = omega (arith, f.1)
used_bytes-Front m prev p (c ∷ cs) last q f =
    ground (arith, used_bytes-Front m p (p + header_size + c.size) cs last q f.1)

pub length-le :
    (m : ℕ → Block) (stop prev p : ℕ) (cs : List Chunk)
    → Layout m stop prev p cs
    → p + length cs ≤ stop
length-le m stop prev p [] l = omega (arith, l)
length-le m stop prev p (c ∷ cs) l =
    omega (arith, length-le m stop p (p + header_size + c.size) cs l.1)

-- The block counter is far from wrapping.
pub count_small : (h : Heap) (cs : List Chunk) → IsLinked h cs → h.block_count < 2 ^ 64
count_small h cs v =
    omega (arith, v.count, v.bounded, length-le h.blocks h.end 0 h.start cs v.layout)
