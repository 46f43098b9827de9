-- ===== src/Memory.antt =====
-- kernel/src/libc/string/mem*.c over a byte-addressed memory. A pointer is an address, and the
-- loops run from `i` with `left` rounds to go.
pub mod Laws
mod Examples
use deer.Base.{ℕ, zero, suc, ◌+◌, ◌-◌, ltb, ◌==◌, if◌then◌else◌, u8, update, Bool, not}

abbrev pub Bytes : Type 0
Bytes = ℕ → ℕ

pub fill_up : (p c left i : ℕ) → Bytes → Bytes
fill_up p c zero i m = m
fill_up p c (suc left) i m = fill_up p c left (i + 1) (update m (p + i) (u8 c))

pub memset : (s c n : ℕ) → Bytes → Bytes
unfolding fill_up
memset s c n m = fill_up s c n 0 m

pub copy_up : (pdest psrc left i : ℕ) → Bytes → Bytes
copy_up pdest psrc zero i m = m
copy_up pdest psrc (suc left) i m =
    copy_up pdest psrc left (i + 1) (update m (pdest + i) (m (psrc + i)))

-- `for (i = n; i > 0; i--)`
pub copy_down : (pdest psrc i : ℕ) → Bytes → Bytes
copy_down pdest psrc zero m = m
copy_down pdest psrc (suc i) m = copy_down pdest psrc i (update m (pdest + i) (m (psrc + i)))

pub memcpy : (dest src n : ℕ) → Bytes → Bytes
unfolding copy_up
memcpy dest src n m = copy_up dest src n 0 m

pub memmove : (dest src n : ℕ) → Bytes → Bytes
unfolding copy_up copy_down
memmove dest src n m =
    if ltb dest src
    then copy_up dest src n 0 m
    else (if ltb src dest then copy_down dest src n m else m)

-- The `int` that `memcmp` returns is one of three.
pub data Compared : Type 0 where
  minus_one equal plus_one : Compared

pub compare_loop : (p1 p2 left i : ℕ) → Bytes → Compared
compare_loop p1 p2 zero i m = equal
compare_loop p1 p2 (suc left) i m =
    let rest = compare_loop p1 p2 left (i + 1) m in
    if not (m (p1 + i) == m (p2 + i))
    then (if ltb (m (p1 + i)) (m (p2 + i)) then minus_one else plus_one)
    else rest

pub memcmp : (s1 s2 n : ℕ) → Bytes → Compared
unfolding compare_loop
memcmp s1 s2 n m = compare_loop s1 s2 n 0 m
