-- ===== src/Text.antt =====
-- kernel/src/libc/string/{strlen,strcpy,strcat}.c over a byte-addressed memory. The loops run until
-- they read a NUL; on fuel here, and `none` means that it ran out.
pub mod Laws
pub mod Compare
mod Examples
use deer.Base.{ℕ, zero, suc, ◌+◌, ◌||◌, ◌==◌, if◌then◌else◌, Option, none, some, update}
use deer.Memory.{Bytes}

-- `while (str[len] != '\0') len++`
pub len_loop : (fuel str len : ℕ) → Bytes → Option ℕ
len_loop zero str len m = none
len_loop (suc fuel) str len m =
    let rest = len_loop fuel str (len + 1) m in if m (str + len) == 0 then some len else rest

pub strlen : (fuel str : ℕ) → Bytes → Option ℕ
unfolding len_loop
strlen fuel str m = len_loop fuel str 0 m

-- `while (*src != '\0') *ptr++ = *src++; *ptr = '\0'`
pub copy_text : (fuel ptr src : ℕ) → Bytes → Option Bytes
copy_text zero ptr src m = none
copy_text (suc fuel) ptr src m =
    let rest = copy_text fuel (ptr + 1) (src + 1) (update m ptr (m src)) in
    if m src == 0 then some (update m ptr 0) else rest

pub answered : (dest : ℕ) → Option Bytes → Option (ℕ × Bytes)
answered dest none = none
answered dest (some m) = some (dest, m)

-- The result and the memory; 0 is NULL.
pub strcpy : (fuel dest src : ℕ) → Bytes → Option (ℕ × Bytes)
unfolding copy_text answered
strcpy fuel dest src m =
    if dest == 0 || src == 0 then some (0, m) else answered dest (copy_text fuel dest src m)

-- `while (*ptr != '\0') ptr++`
pub end_loop : (fuel ptr : ℕ) → Bytes → Option ℕ
end_loop zero ptr m = none
end_loop (suc fuel) ptr m =
    let rest = end_loop fuel (ptr + 1) m in if m ptr == 0 then some ptr else rest

-- The copy behind the text, once its end is found.
pub append_at : (fuel src : ℕ) → Bytes → Option ℕ → Option Bytes
unfolding copy_text
append_at fuel src m none = none
append_at fuel src m (some ptr) = copy_text fuel ptr src m

pub strcat : (fuel dest src : ℕ) → Bytes → Option Bytes
unfolding end_loop append_at
strcat fuel dest src m = append_at fuel src m (end_loop fuel dest m)
