-- ===== src/Text/Compare.antt =====
-- kernel/src/libc/string/{strcmp,strncmp,strncpy}.c over a byte-addressed memory. A comparison
-- returns the difference of two bytes, which is given here as the pair of them.
use deer.Base.{
  ℕ, zero, suc, ◌+◌, ◌-◌, ◌<◌, ◌≤◌, ◌≡◌, ◌≢◌, refl, sym, ap, ◌∙◌, arith, Bool, true, false, not,
  ◌&&◌, ◌||◌, ltb, leb, Bool-cases, inl, inr, ◌==◌, if◌then◌else◌, Option, none, some, update,
  update_other,
}
use deer.Memory.{Bytes}
use deer.Text.Laws.{IsText}

-- `while (*str1 && (*str1 == *str2))`; `none` means that the fuel ran out.
unfoldable pub strcmp : (fuel str1 str2 : ℕ) → Bytes → Option (ℕ × ℕ)
strcmp zero str1 str2 m = none
strcmp (suc fuel) str1 str2 m =
    let rest = strcmp fuel (str1 + 1) (str2 + 1) m in
    if not (m str1 == 0) && m str1 == m str2 then rest else some (m str1, m str2)

-- `while (n-- > 0)`; the result is 0 where it is `(0, 0)`.
unfoldable pub strncmp : (s1 s2 n : ℕ) → Bytes → ℕ × ℕ
strncmp s1 s2 zero m = (0, 0)
strncmp s1 s2 (suc n) m =
    let rest = strncmp (s1 + 1) (s2 + 1) n m in
    if not (m s1 == m s2) then (m s1, m s2) else (if m s1 == 0 then (0, 0) else rest)

-- `while (i < n) ptr[i] = '\0'`, at index `i` with `left` rounds to go.
unfoldable pub pad : (ptr left i : ℕ) → Bytes → Bytes
pad ptr zero i m = m
pad ptr (suc left) i m = pad ptr left (i + 1) (update m (ptr + i) 0)

-- `while (i < n && src[i] != '\0')`, and the padding behind it.
unfoldable pub copy_bounded : (ptr src left i : ℕ) → Bytes → Bytes
unfolding pad
copy_bounded ptr src zero i m = m
copy_bounded ptr src (suc left) i m =
    let rest = copy_bounded ptr src left (i + 1) (update m (ptr + i) (m (src + i))) in
    if m (src + i) == 0 then pad ptr (suc left) i m else rest

-- `dest` is returned, NULL or not.
unfoldable pub strncpy : (dest src n : ℕ) → Bytes → ℕ × Bytes
unfolding copy_bounded
strncpy dest src n m =
    if dest == 0 || src == 0 then (dest, m) else (dest, copy_bounded dest src n 0 m)

-- The text behind its first character.
IsText-tail : (m : Bytes) (p n : ℕ) → IsText m p (suc n) → IsText m (p + 1) n
IsText-tail m p n t = record {
  full = λ k h z. t.full (suc k) (omega arith) (ap m (omega arith) ∙ z);
  ended = ap m (omega arith) ∙ t.ended;
}

-- One round of either loop, by whether the first byte is 0 and whether the two are equal.
round :
    (zeros same : Bool) (a b : ℕ) (x : Option (ℕ × ℕ)) (y : ℕ × ℕ)
    → (zeros ≡ true → a ≡ 0)
    → (same ≡ true → a ≡ b)
    → (zeros ≡ false → x ≡ some y)
    → (if not zeros && same then x else some (a, b))
      ≡ some (if not same then (a, b) else (if zeros then (0, 0) else y))
round true true a b x y p q r =
    ap (λ c. some (c, b)) (p refl) ∙ ap (λ c. some (0, c)) (sym (q refl) ∙ p refl)
round true false a b x y p q r = refl
round false true a b x y p q r = r refl
round false false a b x y p q r = refl

-- On a text of `l` characters, with more fuel than that and a bound above it, strcmp ends and gives
-- what strncmp gives, whatever bytes the other text has.
pub strcmp-strncmp :
    (fuel s1 s2 l n : ℕ) (m : Bytes)
    → IsText m s1 l
    → l < fuel
    → l < n
    → strcmp fuel s1 s2 m ≡ some (strncmp s1 s2 n m)
unfolding strcmp strncmp
strcmp-strncmp zero s1 s2 l n m t p q = absurd (omega arith)
strcmp-strncmp (suc fuel) s1 s2 l zero m t p q = absurd (omega arith)
strcmp-strncmp (suc fuel) s1 s2 zero (suc n) m t p q =
    round (m s1 == 0) (m s1 == m s2) (m s1) (m s2) (strcmp fuel (s1 + 1) (s2 + 1) m)
      (strncmp (s1 + 1) (s2 + 1) n m) (λ e. ground arith) (λ e. ground arith)
      (λ e. absurd (ground (arith, first)))
  where
    first : m s1 ≡ 0
    first = ap m (omega arith) ∙ t.ended
strcmp-strncmp (suc fuel) s1 s2 (suc l) (suc n) m t p q =
    round (m s1 == 0) (m s1 == m s2) (m s1) (m s2) (strcmp fuel (s1 + 1) (s2 + 1) m)
      (strncmp (s1 + 1) (s2 + 1) n m) (λ e. ground arith) (λ e. ground arith)
      (λ e.
        strcmp-strncmp fuel (s1 + 1) (s2 + 1) l n m (IsText-tail m s1 l t) (omega arith)
          (omega arith))

pad-at :
    (ptr left i a : ℕ) (m : Bytes)
    → pad ptr left i m a ≡ (if leb (ptr + i) a && ltb a (ptr + i + left) then 0 else m a)
unfolding pad
pad-at ptr zero i a m = ground arith
pad-at ptr (suc left) i a m = pad-at ptr left (i + 1) a (update m (ptr + i) 0) ∙ ground arith

-- What is at `a` behind the copy, from index `i` up to `n`, of a text of `l` characters.
abbrev pub bounded_byte : (ptr src l i n a : ℕ) → Bytes → ℕ
bounded_byte ptr src l i n a m =
    if leb (ptr + i) a && ltb a (ptr + n)
    then (if ltb a (ptr + l) then m (src + (a - ptr)) else 0)
    else m a

copy_bounded-at :
    (ptr src l left i a : ℕ) (m : Bytes)
    → IsText m src l
    → i ≤ l
    → ((j k : ℕ) → j < i + left → k ≤ l → ptr + j ≢ src + k)
    → copy_bounded ptr src left i m a ≡ bounded_byte ptr src l i (i + left) a m
unfolding copy_bounded
copy_bounded-at ptr src l zero i a m t h apart = ground arith
copy_bounded-at ptr src l (suc left) i a m t h apart = elim (Bool-cases (i == l)) [
  | inl last ↦
      ap (λ (b : Bool). (if b then pad ptr (suc left) i m else rest) a) (ends last)
      ∙ pad-at ptr (suc left) i a m
      ∙ ground arith
  | inr more ↦
      ap (λ (b : Bool). (if b then pad ptr (suc left) i m else rest) a)
        (goes_on (m (src + i)) (t.full i (ground arith)))
      ∙ copy_bounded-at ptr src l left (i + 1) a (update m (ptr + i) (m (src + i))) kept
          (ground arith) (λ j k b c. apart j k (omega arith) c)
      ∙ ground (arith, λ (b : a - ptr ≤ l). apart i (a - ptr) (omega arith) b)
]
  where
    rest : Bytes
    rest = copy_bounded ptr src left (i + 1) (update m (ptr + i) (m (src + i)))

    ends : (i == l) ≡ true → (m (src + i) == 0) ≡ true
    ends e = ground (arith, ap (λ k. m (src + k)) {x = i} {y = l} (ground arith) ∙ t.ended)

    goes_on : (v : ℕ) → v ≢ 0 → (v == 0) ≡ false
    goes_on v ne = ground arith

    kept : IsText (update m (ptr + i) (m (src + i))) src l
    kept = record {
      full = λ k b z. t.full k b (
          sym (
            update_other m (ptr + i) (src + k) (m (src + i))
              (λ (e : src + k ≡ ptr + i). apart i k (omega arith) (omega arith) (sym e)))
          ∙ z);
      ended =
          update_other m (ptr + i) (src + l) (m (src + i))
            (λ (e : src + l ≡ ptr + i). apart i l (omega arith) (omega arith) (sym e))
          ∙ t.ended;
    }

-- From a text of `l` characters that does not overlap the `n` bytes at `dest`, strncpy stores there
-- its characters, as many as fit, and then zeros, and changes no other byte.
pub strncpy-bounded_byte :
    (dest src n l a : ℕ) (m : Bytes)
    → dest ≢ 0
    → src ≢ 0
    → IsText m src l
    → ((j k : ℕ) → j < n → k ≤ l → dest + j ≢ src + k)
    → (strncpy dest src n m).1 a ≡ bounded_byte dest src l 0 n a m
unfolding strncpy
strncpy-bounded_byte dest src n l a m d s t apart =
    ap
      (λ (b : Bool).
        (if◌then◌else◌ {A = ℕ × Bytes} b (dest, m) (dest, copy_bounded dest src n 0 m)).1 a)
      (both d s)
    ∙ copy_bounded-at dest src l n 0 a m t (omega arith) (λ j k b c. apart j k (omega arith) c)
    ∙ ap (λ x. bounded_byte dest src l 0 x a m) (omega arith)
  where
    both : dest ≢ 0 → src ≢ 0 → (dest == 0 || src == 0) ≡ false
    both d s = ground arith
