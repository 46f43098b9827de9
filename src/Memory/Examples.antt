-- ===== src/Memory/Examples.antt =====
-- Tests of the routines of kernel/src/libc/string/mem*.c, and their theorems on a small memory.
use deer.Base.{◌+◌, ◌-◌, ◌*◌, ◌≡◌, refl, if◌then◌else◌}
use deer.Memory.{Bytes, memset, memmove, memcmp, minus_one}
use deer.Memory.Laws.{in_region, memmove-at, Says, memcmp-Says}

abbrev squares : Bytes
squares a = a * a

move_test :
    (memmove 12 10 4 squares 13 ≡ 121)
    × (memmove 12 10 4 squares 15 ≡ 169)
    × (memmove 10 12 4 squares 13 ≡ 225)
    × (memset 3 511 2 squares 4 ≡ 255)
    × (memcmp 2 4 3 squares ≡ minus_one)
unfolding memmove memset memcmp
move_test = (refl, refl, refl, refl, refl)

memmove-at_example :
    memmove 12 10 4 squares 15 ≡ (if in_region 12 4 15 then squares (15 + 10 - 12) else squares 15)
memmove-at_example = memmove-at 12 10 4 15 squares

memcmp-Says_example : Says 2 4 0 3 squares (memcmp 2 4 3 squares)
memcmp-Says_example = memcmp-Says 2 4 3 squares
