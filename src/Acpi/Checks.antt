-- ===== src/Acpi/Checks.antt =====
-- What the two tests of kernel/src/sys/acpi.c say of a table: that it has the signature, and that its
-- bytes add up to 0.
use deer.Base.{
  ℕ, zero, suc, ◌+◌, ◌%◌, ◌^◌, ◌<◌, ◌≡◌, ◌≢◌, refl, sym, ap, ◌∙◌, arith, Bool, true, false, ◌&&◌,
  not, inl, inr, Bool-cases, ◌==◌, if◌then◌else◌, u8,
}
use deer.Memory.{Bytes}
use deer.Text.Compare.{strncmp}
use deer.Apic.{u32_at}
use deer.Acpi.{sum_loop, acpi_checksum_valid, has_signature, is_table}

-- The sum of `length` bytes.
pub total : (length p : ℕ) → Bytes → ℕ
total zero p m = 0
total (suc length) p m = m p + total length (p + 1) m

sum_loop-total :
    (left p sum : ℕ) (m : Bytes) → sum < 2 ^ 8 → sum_loop left p sum m ≡ u8 (sum + total left p m)
unfolding sum_loop total
sum_loop-total zero p sum m small = omega arith
sum_loop-total (suc left) p sum m small =
    sum_loop-total left (p + 1) (u8 (sum + m p)) m (omega arith) ∙ omega arith

pub checksum-total :
    (length p : ℕ) (m : Bytes) → acpi_checksum_valid p length m ≡ (total length p m % 2 ^ 8 == 0)
unfolding acpi_checksum_valid
checksum-total length p m =
    ap (λ s. s == 0) (sum_loop-total length p 0 m (omega arith) ∙ omega arith)

-- The first `n` bytes at `p` are those at `q`.
pub Alike : (p q n : ℕ) → Bytes → Type 0
Alike p q n m = (k : ℕ) → k < n → m (p + k) ≡ m (q + k)

-- Bytes of a text.
abbrev pub Nonzero : (q n : ℕ) → Bytes → Type 0
Nonzero q n m = (k : ℕ) → k < n → m (q + k) ≢ 0

abbrev pub same_text : (p q n : ℕ) → Bytes → Bool
same_text p q n m = (strncmp p q n m).0 == (strncmp p q n m).1

-- One byte of the comparison, where the second text goes on.
same_text-suc :
    (n p q : ℕ) (m : Bytes)
    → m q ≢ 0
    → same_text p q (suc n) m ≡ ((m p == m q) && same_text (p + 1) (q + 1) n m)
unfolding strncmp
same_text-suc n p q m full = elim (Bool-cases (m p == m q)) [
  | inl same ↦
      ap (λ (b : Bool). tested (outcome b (m p == 0))) same
      ∙ ap (λ (b : Bool). tested (outcome true b)) (first same)
      ∙ ap (λ (b : Bool). b && same_text (p + 1) (q + 1) n m) (sym same)
  | inr other ↦
      ap (λ (b : Bool). tested (outcome b (m p == 0))) other
      ∙ other
      ∙ ap (λ (b : Bool). b && same_text (p + 1) (q + 1) n m) (sym other)
]
  where
    tested : ℕ × ℕ → Bool
    tested r = r.0 == r.1

    outcome : (same zeros : Bool) → ℕ × ℕ
    outcome same zeros =
        if not same then (m p, m q) else (if zeros then (0, 0) else strncmp (p + 1) (q + 1) n m)

    first : (m p == m q) ≡ true → (m p == 0) ≡ false
    first e = ground arith

Nonzero-tail : (q n : ℕ) (m : Bytes) → Nonzero q (suc n) m → Nonzero (q + 1) n m
Nonzero-tail q n m full k h z = full (suc k) (omega arith) (ap m (omega arith) ∙ z)

Alike-suc : (n p q : ℕ) (m : Bytes) → m p ≡ m q → Alike (p + 1) (q + 1) n m → Alike p q (suc n) m
unfolding Alike
Alike-suc n p q m e h zero l = ap m (omega arith) ∙ e ∙ ap m (omega arith)
Alike-suc n p q m e h (suc k) l = ap m (omega arith) ∙ h k (omega arith) ∙ ap m (omega arith)

Alike-tail : (n p q : ℕ) (m : Bytes) → Alike p q (suc n) m → Alike (p + 1) (q + 1) n m
unfolding Alike
Alike-tail n p q m h k l = ap m (omega arith) ∙ h (suc k) (omega arith) ∙ ap m (omega arith)

Alike-first : (n p q : ℕ) (m : Bytes) → Alike p q (suc n) m → m p ≡ m q
unfolding Alike
Alike-first n p q m h = ap m (omega arith) ∙ h 0 (omega arith) ∙ ap m (omega arith)

and_true : (a b : Bool) → (a && b) ≡ true → (a ≡ true) × (b ≡ true)
and_true true b e = (refl, e)
and_true false b e = absurd (ground arith)

true_and : (a b : Bool) → a ≡ true → b ≡ true → (a && b) ≡ true
true_and a b p q = ground arith

first_full : (q n : ℕ) (m : Bytes) → Nonzero q (suc n) m → m q ≢ 0
first_full q n m full z = full 0 (omega arith) (ap m (omega arith) ∙ z)

pub same_text-Alike :
    (n p q : ℕ) (m : Bytes) → Nonzero q n m → same_text p q n m ≡ true → Alike p q n m
unfolding Alike
same_text-Alike zero p q m full e = λ k h. absurd (omega arith)
same_text-Alike (suc n) p q m full e =
    let (same, rest) =
      and_true (m p == m q) (same_text (p + 1) (q + 1) n m)
        (sym (same_text-suc n p q m (first_full q n m full)) ∙ e) in
    Alike-suc n p q m (ground arith)
      (same_text-Alike n (p + 1) (q + 1) m (Nonzero-tail q n m full) rest)

Alike-same_text : (n p q : ℕ) (m : Bytes) → Nonzero q n m → Alike p q n m → same_text p q n m ≡ true
unfolding strncmp
Alike-same_text zero p q m full h = refl
Alike-same_text (suc n) p q m full h =
    same_text-suc n p q m (first_full q n m full)
    ∙ true_and (m p == m q) (same_text (p + 1) (q + 1) n m)
        (equal (m p) (m q) (Alike-first n p q m h))
        (Alike-same_text n (p + 1) (q + 1) m (Nonzero-tail q n m full) (Alike-tail n p q m h))
  where
    equal : (a b : ℕ) → a ≡ b → (a == b) ≡ true
    equal a b e = ground arith

-- A table: it begins with the four characters of the signature, and its bytes, as many as the
-- length that follows them, add up to a multiple of 256.
pub record IsTable (signature table : ℕ) (m : Bytes) : Type 0 where
  pub signed : Alike table signature 4 m
  pub sums : total (u32_at m (table + 4)) table m % 2 ^ 8 ≡ 0

pub is_table-IsTable :
    (signature table : ℕ) (m : Bytes)
    → Nonzero signature 4 m
    → is_table signature table m ≡ true
    → IsTable signature table m
unfolding is_table has_signature
is_table-IsTable signature table m full e =
    let (same, sum) =
      and_true (same_text table signature 4 m) (acpi_checksum_valid table (u32_at m (table + 4)) m)
        e in
    record {
      signed = same_text-Alike 4 table signature m full same;
      sums = zero_sum (sym (checksum-total (u32_at m (table + 4)) table m) ∙ sum);
    }
  where
    zero_sum : {n : ℕ} → (n == 0) ≡ true → n ≡ 0
    zero_sum e = ground arith

pub IsTable-is_table :
    (signature table : ℕ) (m : Bytes)
    → Nonzero signature 4 m
    → IsTable signature table m
    → is_table signature table m ≡ true
unfolding is_table has_signature
IsTable-is_table signature table m full t =
    true_and (same_text table signature 4 m) (acpi_checksum_valid table (u32_at m (table + 4)) m)
      (Alike-same_text 4 table signature m full t.signed)
      (checksum-total (u32_at m (table + 4)) table m
        ∙ zero_test (total (u32_at m (table + 4)) table m % 2 ^ 8) t.sums)
  where
    zero_test : (n : ℕ) → n ≡ 0 → (n == 0) ≡ true
    zero_test n e = ground arith
