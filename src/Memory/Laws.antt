-- ===== src/Memory/Laws.antt =====
-- What the routines of kernel/src/libc/string/mem*.c leave at each address.
use deer.Base.{
  ℕ, zero, suc, ◌+◌, ◌-◌, ◌≤◌, ◌<◌, ◌≡◌, ◌⊎◌, inl, inr, Bool, ◌&&◌, arith, ltb, leb, ◌==◌,
  if◌then◌else◌, u8, update, Bool-cases,
}
use deer.Memory.{
  Bytes, fill_up, memset, copy_up, copy_down, memcpy, memmove, Compared, minus_one, equal, plus_one,
  compare_loop, memcmp,
}

-- Address `a` is one of the `n` from `p` on.
abbrev pub in_region : (p n a : ℕ) → Bool
in_region p n a = leb p a && ltb a (p + n)

fill_up-at :
    (p c left i a : ℕ) (m : Bytes)
    → fill_up p c left i m a ≡ (if in_region (p + i) left a then u8 c else m a)
unfolding fill_up
fill_up-at p c zero i a m = ground arith
fill_up-at p c (suc left) i a m =
    ground (arith, fill_up-at p c left (i + 1) a (update m (p + i) (u8 c)))

-- `memset` stores the low byte of `c` in the region and nothing elsewhere.
pub memset-at :
    (s c n a : ℕ) (m : Bytes) → memset s c n m a ≡ (if in_region s n a then u8 c else m a)
unfolding memset
memset-at s c n a m = ground (arith, fill_up-at s c n 0 a m)

-- Copying upwards is right when the destination does not start inside the part still to be read.
copy_up-at :
    (d p left i a : ℕ) (m : Bytes)
    → (d ≤ p) ⊎ (p + i + left ≤ d + i)
    → copy_up d p left i m a ≡ (if in_region (d + i) left a then m (a + p - d) else m a)
unfolding copy_up
copy_up-at d p zero i a m ok = ground arith
copy_up-at d p (suc left) i a m ok =
    ground (arith, copy_up-at d p left (i + 1) a (update m (d + i) (m (p + i))))

copy_down-at :
    (d p i a : ℕ) (m : Bytes)
    → p ≤ d
    → copy_down d p i m a ≡ (if in_region d i a then m (a + p - d) else m a)
unfolding copy_down
copy_down-at d p zero a m ok = ground arith
copy_down-at d p (suc i) a m ok =
    ground (arith, copy_down-at d p i a (update m (d + i) (m (p + i))))

-- `memmove` copies the region as it was, whether or not source and destination overlap.
pub memmove-at :
    (dest src n a : ℕ) (m : Bytes)
    → memmove dest src n m a ≡ (if in_region dest n a then m (a + src - dest) else m a)
unfolding memmove
memmove-at dest src n a m = ground (arith, copy_up-at dest src n 0 a m, copy_down-at dest src n a m)

-- `memcpy` does so when the destination does not start inside the source.
pub memcpy-at :
    (dest src n a : ℕ) (m : Bytes)
    → (dest ≤ src) ⊎ (src + n ≤ dest)
    → memcpy dest src n m a ≡ (if in_region dest n a then m (a + src - dest) else m a)
unfolding memcpy
memcpy-at dest src n a m ok = ground (arith, copy_up-at dest src n 0 a m)

-- The bytes of two regions agree from index `i` up to index `j`.
abbrev pub Agree : (p1 p2 i j : ℕ) → Bytes → Type 0
Agree p1 p2 i j m = (k : ℕ) → i ≤ k → k < j → m (p1 + k) ≡ m (p2 + k)

-- What a result of `memcmp` says of the regions from index `i` up to index `n`.
abbrev pub Says : (p1 p2 i n : ℕ) → Bytes → Compared → Type 0
Says p1 p2 i n m equal = Agree p1 p2 i n m
Says p1 p2 i n m minus_one =
    (k : ℕ) × (i ≤ k) × (k < n) × Agree p1 p2 i k m × (m (p1 + k) < m (p2 + k))
Says p1 p2 i n m plus_one =
    (k : ℕ) × (i ≤ k) × (k < n) × Agree p1 p2 i k m × (m (p2 + k) < m (p1 + k))

Agree-extend :
    (p1 p2 i j : ℕ) (m : Bytes)
    → m (p1 + i) ≡ m (p2 + i)
    → Agree p1 p2 (i + 1) j m
    → Agree p1 p2 i j m
Agree-extend p1 p2 i j m e h k l u = elim (Bool-cases (k == i)) [
  | inl here ↦ ground (arith, e)
  | inr later ↦ h k (ground arith) u
]

Says-extend :
    (p1 p2 i n : ℕ) (m : Bytes) (c : Compared)
    → m (p1 + i) ≡ m (p2 + i)
    → Says p1 p2 (i + 1) n m c
    → Says p1 p2 i n m c
Says-extend p1 p2 i n m equal e h = Agree-extend p1 p2 i n m e h
Says-extend p1 p2 i n m minus_one e (k, l, u, h, lt) =
    (k, omega arith, u, Agree-extend p1 p2 i k m e h, lt)
Says-extend p1 p2 i n m plus_one e (k, l, u, h, lt) =
    (k, omega arith, u, Agree-extend p1 p2 i k m e h, lt)

compare_loop-Says :
    (p1 p2 left i n : ℕ) (m : Bytes) → i + left ≡ n → Says p1 p2 i n m (compare_loop p1 p2 left i m)
unfolding compare_loop
compare_loop-Says p1 p2 zero i n m e = λ k l u. absurd (omega arith)
compare_loop-Says p1 p2 (suc left) i n m e = elim (Bool-cases (m (p1 + i) == m (p2 + i))) [
  | inl same ↦ rw same (
      Says-extend p1 p2 i n m (compare_loop p1 p2 left (i + 1) m) (ground arith)
        (compare_loop-Says p1 p2 left (i + 1) n m (omega arith)))
  | inr differ ↦ elim (Bool-cases (ltb (m (p1 + i)) (m (p2 + i)))) [
    | inl less ↦
        rw (differ, less)
          (i, omega arith, omega arith, (λ k l u. absurd (omega arith)), ground arith)
    | inr more ↦
        rw (differ, more)
          (i, omega arith, omega arith, (λ k l u. absurd (omega arith)), ground arith)
  ]
]

-- `memcmp` tells equal regions, and otherwise orders them by their first differing byte.
pub memcmp-Says : (s1 s2 n : ℕ) (m : Bytes) → Says s1 s2 0 n m (memcmp s1 s2 n m)
unfolding memcmp
memcmp-Says s1 s2 n m = compare_loop-Says s1 s2 n 0 n m (omega arith)
