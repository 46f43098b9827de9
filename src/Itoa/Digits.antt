-- ===== src/Itoa/Digits.antt =====
-- The loop of digits of kernel/src/libc/string/itoa.c: it ends, and stores the lowest digit first.
use native.Mathlib.Nat.{
  pow-zero, pow-succ', div-div-eq-div-mul, div-one, div-lt_iff_lt-mul, mul_comm,
}
use deer.Base.{
  update_self, update_other, ℕ, zero, suc, ◌+◌, ◌*◌, ◌/◌, ◌%◌, ◌^◌, ◌≤◌, ◌<◌, ◌≡◌, refl, ap, sym,
  ◌∙◌, true, arith, ◌==◌, update, some, Bool-cases, inl, inr,
}
use deer.Memory.{Bytes}
use deer.Itoa.{digit_char, digits_loop}

-- From `end` on stand `len` digits of `value`, lowest first, and nothing else has changed.
pub record AreDigits (value base end : ℕ) (m w : Bytes) (len : ℕ) : Type 0 where
  pub digit : (k : ℕ) → k < len → w (end + k) ≡ digit_char (value / base ^ k % base)
  pub before : (a : ℕ) → a < end → w a ≡ m a
  pub complete : value < base ^ len

shift : (value base k : ℕ) → value / base / base ^ k ≡ value / base ^ suc k
shift value base k =
    div-div-eq-div-mul value base (base ^ k) ∙ ap (λ t. value / t) (sym (pow-succ' base k))

pub AreDigits-cons :
    (value base end len : ℕ) (m w : Bytes)
    → 2 ≤ base
    → AreDigits (value / base) base (end + 1) (update m end (digit_char (value % base))) w len
    → AreDigits value base end m w (suc len)
AreDigits-cons value base end len m w two d = record {
  digit = at;
  before = λ a h. d.before a (omega arith) ∙ update_other m end a _ (λ (e : a ≡ end). omega arith);
  complete =
      rw (pow-succ' base len, mul_comm base (base ^ len))
        ((div-lt_iff_lt-mul (omega arith)).0 d.complete);
}
  where
    at : (k : ℕ) → k < suc len → w (end + k) ≡ digit_char (value / base ^ k % base)
    at zero h =
        ap w (omega arith)
        ∙ d.before end (omega arith)
        ∙ update_self m end (digit_char (value % base))
        ∙ ap (λ t. digit_char (t % base))
            (sym (ap (λ t. value / t) (pow-zero base) ∙ div-one value))
    at (suc k) h =
        ap w (omega arith)
        ∙ d.digit k (omega arith)
        ∙ ap (λ t. digit_char (t % base)) (shift value base k)

half_below : (value base p : ℕ) → 2 ≤ base → value < 2 * p → value / base < p
half_below value base p two h = grind arith

empty : (value : ℕ) → value < 2 ^ 0 → (value == 0) ≡ true
empty value small = ground (arith, pow-zero 2)

-- On fuel `f` and a value below 2 ^ f, in a base of at least 2, the loop of digits ends after at
-- most `f` rounds: it has stored the digits of the value, lowest first, from `end` on, as many as
-- the value needs, and left the bytes before them as they were.
pub digits_loop-AreDigits :
    (fuel value base end : ℕ) (m : Bytes)
    → 2 ≤ base
    → value < 2 ^ fuel
    → (len : ℕ) × (w : Bytes) × (digits_loop fuel value base end m ≡ some (end + len, w))
      × (len ≤ fuel)
      × AreDigits value base end m w len
unfolding digits_loop
digits_loop-AreDigits zero value base end m two small = (
  0,
  m,
  rw (empty value small) (ap (λ e. some (e, m)) (omega arith)),
  omega arith,
  record {
    digit = λ k h. absurd (omega arith);
    before = λ a h. refl;
    complete = rw (pow-zero base) (omega (arith, pow-zero 2, small));
  },
)
digits_loop-AreDigits (suc fuel) value base end m two small = elim (Bool-cases (value == 0)) [
  | inl done ↦ (
    0,
    m,
    rw done (ap (λ e. some (e, m)) (omega arith)),
    omega arith,
    record {
      digit = λ k h. absurd (omega arith);
      before = λ a h. refl;
      complete = rw (pow-zero base) (ground arith);
    },
  )
  | inr more ↦
      let next = update m end (digit_char (value % base)) in
      let (len, w, e, short, d) =
        digits_loop-AreDigits fuel (value / base) base (end + 1) next two
          (half_below value base (2 ^ fuel) two (omega (arith, pow-succ' 2 fuel))) in
      (
        suc len,
        w,
        rw more (e ∙ ap (λ x. some (x, w)) (omega arith)),
        omega arith,
        AreDigits-cons value base end len m w two d,
      )
]
