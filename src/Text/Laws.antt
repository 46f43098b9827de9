-- ===== src/Text/Laws.antt =====
-- What the routines on NUL-terminated text compute, and that they end.
use deer.Base.{
  ◌||◌, ltb, ℕ, zero, suc, ◌+◌, ◌-◌, ◌<◌, ◌≤◌, ◌≡◌, ◌≢◌, refl, sym, ap, ◌∙◌, arith, Bool, true,
  false, inl, inr, Bool-cases, ◌==◌, if◌then◌else◌, some, update, update_self, update_other,
}
use deer.Memory.{Bytes}
use deer.Text.{strcpy, answered, len_loop, strlen, copy_text, end_loop, append_at, strcat}

-- A text of `n` characters stands at `p`.
pub record IsText (m : Bytes) (p n : ℕ) : Type 0 where
  pub full : (k : ℕ) → k < n → m (p + k) ≢ 0
  pub ended : m (p + n) ≡ 0

-- No byte of the `n + 1` at `p` is one of the `l + 1` at `q`.
abbrev pub Apart : (p n q l : ℕ) → Type 0
Apart p n q l = (j k : ℕ) → j ≤ n → k ≤ l → p + j ≢ q + k

is_zero : (v : ℕ) → v ≡ 0 → (v == 0) ≡ true
is_zero v e = ground arith

not_zero : (v : ℕ) → v ≢ 0 → (v == 0) ≡ false
not_zero v ne = elim (Bool-cases (v == 0)) [ inl a ↦ absurd (ne (ground arith)) | inr a ↦ a ]

len_loop-IsText :
    (fuel p n i : ℕ) (m : Bytes)
    → IsText m p n
    → i ≤ n
    → n < i + fuel
    → len_loop fuel p i m ≡ some n
unfolding len_loop
len_loop-IsText zero p n i m t h enough = absurd (omega arith)
len_loop-IsText (suc fuel) p n i m t h enough = elim (Bool-cases (i == n)) [
  | inl last ↦ rw (is_zero (m (p + i)) (ap m (ground arith) ∙ t.ended)) (ap some (ground arith))
  | inr more ↦
      rw (not_zero (m (p + i)) (t.full i (ground arith)))
        (len_loop-IsText fuel p n (i + 1) m t (ground arith) (omega arith))
]

-- `strlen` ends on a text, with more fuel than it has characters, and gives their number.
pub strlen-IsText : (fuel p n : ℕ) (m : Bytes) → IsText m p n → n < fuel → strlen fuel p m ≡ some n
unfolding strlen
strlen-IsText fuel p n m t enough = len_loop-IsText fuel p n 0 m t (omega arith) (omega arith)

-- The memory after a text of `n` characters is copied from `src` to `ptr`.
pub record IsCopied (m m' : Bytes) (ptr src n : ℕ) : Type 0 where
  pub copy : (k : ℕ) → k ≤ n → m' (ptr + k) ≡ m (src + k)
  pub rest : (a : ℕ) → ((k : ℕ) → k ≤ n → a ≢ ptr + k) → m' a ≡ m a

copy_text-IsCopied :
    (fuel ptr src n : ℕ) (m : Bytes)
    → IsText m src n
    → Apart ptr n src n
    → n < fuel
    → (m' : Bytes) × (copy_text fuel ptr src m ≡ some m') × IsCopied m m' ptr src n
unfolding copy_text
copy_text-IsCopied zero ptr src n m t far enough = absurd (omega arith)
copy_text-IsCopied (suc fuel) ptr src zero m t far enough = (
  update m ptr 0,
  rw (is_zero (m src) at_end) refl,
  record {
    copy = λ k h.
        ap (update m ptr 0) (omega arith) ∙ update_self m ptr 0 ∙ sym at_end ∙ ap m (omega arith);
    rest = λ a out. update_other m ptr a 0 (λ (e : a ≡ ptr). out 0 (omega arith) (omega arith));
  },
)
  where
    at_end : m src ≡ 0
    at_end = ap m (omega arith) ∙ t.ended
copy_text-IsCopied (suc fuel) ptr src (suc n) m t far enough =
    let (m', e, c) =
      copy_text-IsCopied fuel (ptr + 1) (src + 1) n stored (shifted)
        (λ j k p q e. far (suc j) (suc k) (omega arith) (omega arith) (omega arith))
        (omega arith) in
    (
      m',
      rw more e,
      record {
        copy = copied m' c;
        rest = λ a out.
            c.rest a (λ k h q. out (suc k) (omega arith) (omega arith))
            ∙ update_other m ptr a (m src) (λ (q : a ≡ ptr). out 0 (omega arith) (omega arith));
      },
    )
  where
    stored : Bytes
    stored = update m ptr (m src)

    kept : (k : ℕ) → k ≤ suc n → stored (src + k) ≡ m (src + k)
    kept k h =
        update_other m ptr (src + k) (m src)
          (λ (q : src + k ≡ ptr). far 0 k (omega arith) h (omega arith))

    moved : (k : ℕ) → k ≤ n → stored (src + 1 + k) ≡ m (src + suc k)
    moved k h = ap stored (omega arith) ∙ kept (suc k) (omega arith)

    more : (m src == 0) ≡ false
    more = not_zero (m src) (λ z. t.full 0 (omega arith) (ap m (omega arith) ∙ z))

    shifted : IsText stored (src + 1) n
    shifted = record {
      full = λ k h z. t.full (suc k) (omega arith) (sym (moved k (omega arith)) ∙ z);
      ended = moved n (omega arith) ∙ t.ended;
    }

    copied :
        (m' : Bytes)
        → IsCopied stored m' (ptr + 1) (src + 1) n
        → (k : ℕ) → k ≤ suc n
        → m' (ptr + k) ≡ m (src + k)
    copied m' c zero h =
        ap m' (omega arith)
        ∙ c.rest ptr (λ k p q. omega arith)
        ∙ update_self m ptr (m src)
        ∙ ap m (omega arith)
    copied m' c (suc k) h = ap m' (omega arith) ∙ c.copy k (omega arith) ∙ moved k (omega arith)

end_loop-IsText :
    (fuel p n : ℕ) (m : Bytes) → IsText m p n → n < fuel → end_loop fuel p m ≡ some (p + n)
unfolding end_loop
end_loop-IsText zero p n m t enough = absurd (omega arith)
end_loop-IsText (suc fuel) p zero m t enough =
    rw (is_zero (m p) (ap m (omega arith) ∙ t.ended)) (ap some (omega arith))
end_loop-IsText (suc fuel) p (suc n) m t enough =
    rw (not_zero (m p) (λ z. t.full 0 (omega arith) (ap m (omega arith) ∙ z)))
      (end_loop-IsText fuel (p + 1) n m next (omega arith) ∙ ap some (omega arith))
  where
    next : IsText m (p + 1) n
    next = record {
      full = λ k h z. t.full (suc k) (omega arith) (ap m (omega arith) ∙ z);
      ended = ap m (omega arith) ∙ t.ended;
    }

-- On two texts that do not overlap, where the first has room for the second, and with more fuel than
-- either has characters, `strcat` ends: the result is a text of the two lengths together, the first
-- text stands before the second, and no byte outside the copy changes.
pub strcat-IsText :
    (fuel dest a src b : ℕ) (m : Bytes)
    → IsText m dest a
    → IsText m src b
    → Apart (dest + a) b src b
    → a < fuel
    → b < fuel
    → (m' : Bytes) × (strcat fuel dest src m ≡ some m')
      × IsText m' dest (a + b)
      × IsCopied m m' (dest + a) src b
unfolding strcat append_at
strcat-IsText fuel dest a src b m t u far p q =
    let (m', e, c) = copy_text-IsCopied fuel (dest + a) src b m u far q in
    (
      m',
      ap (append_at fuel src m) (end_loop-IsText fuel dest a m t p) ∙ e,
      record { full = joined m' c; ended = ap m' (omega arith) ∙ c.copy b (omega arith) ∙ u.ended },
      c,
    )
  where
    joined : (m' : Bytes) → IsCopied m m' (dest + a) src b → (k : ℕ) → k < a + b → m' (dest + k) ≢ 0
    joined m' c k h z = elim (Bool-cases (ltb k a)) [
      | inl first ↦ t.full k (ground arith) (sym (c.rest (dest + k) (λ j p q. ground arith)) ∙ z)
      | inr second ↦
          u.full (k - a) (ground arith)
            (sym (c.copy (k - a) (ground arith)) ∙ ap m' (ground arith) ∙ z)
    ]

-- `strcpy` to another place that does not overlap with the text ends, with more fuel than there are
-- characters, returns the destination, and leaves a copy of the text with its NUL there and
-- every other byte as it was.
pub strcpy-IsCopied :
    (fuel dest src n : ℕ) (m : Bytes)
    → 0 < dest
    → 0 < src
    → IsText m src n
    → Apart dest n src n
    → n < fuel
    → (m' : Bytes) × (strcpy fuel dest src m ≡ some (dest, m')) × IsCopied m m' dest src n
unfolding strcpy answered
strcpy-IsCopied fuel dest src n m p q t far enough =
    let (m', e, c) = copy_text-IsCopied fuel dest src n m t far enough in
    (
      m',
      ap (λ (b : Bool). if b then some (0, m) else answered dest (copy_text fuel dest src m))
            pointers
          ∙ ap (answered dest) e,
      c,
    )
  where
    pointers : (dest == 0 || src == 0) ≡ false
    pointers = rw (not_zero dest (λ z. omega arith), not_zero src (λ z. omega arith)) refl
