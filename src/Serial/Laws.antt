-- ===== src/Serial/Laws.antt =====
-- Which characters kernel/src/drivers/serial.c sends.
use mathlib.Core.Path.{subst}
use native.Mathlib.Nat.{pow-succ', div-div-eq-div-mul}
use deer.Base.{
  ℕ, zero, suc, ◌+◌, ◌-◌, ◌*◌, ◌/◌, ◌%◌, ◌^◌, ◌<◌, ◌≡◌, refl, sym, ap, ◌∙◌, arith, Bool, true,
  false, inl, inr, Bool-cases, leb, ◌==◌, if◌then◌else◌, List, [], ◌∷◌, bit_and,
}
use deer.Bits.{and-ones}
use deer.Trace.{Trace, outb}
use deer.Serial.{
  Serial, serial_port, serial_init, send, serial_putc, serial_puts, hex, put_digits,
  serial_put_hex64,
}

-- The characters of a text in the order in which they are sent.
unfoldable pub sent : List ℕ → Trace → Trace
sent [] t = t
sent (c ∷ str) t = sent str (outb serial_port c ∷ t)

-- A text with a `\r` before each line feed.
pub with_returns : List ℕ → List ℕ
with_returns [] = []
with_returns (c ∷ str) = if c == 10 then 13 ∷ 10 ∷ with_returns str else c ∷ with_returns str

-- The port once it is set up.
abbrev pub ready : Trace → Serial
ready t = record { is_initialized = true; trace = t }

putc-sent :
    (c : ℕ) (str : List ℕ) (t : Trace)
    → (if c == 10 then send c (send 13 (ready t)) else send c (ready t))
      ≡ ready (
          if c == 10 then outb serial_port 10 ∷ outb serial_port 13 ∷ t else outb serial_port c ∷ t)
unfolding send serial_init
putc-sent c str t = elim (Bool-cases (c == 10)) [
  | inl e ↦
      ap (λ (b : Bool). if b then send c (send 13 (ready t)) else send c (ready t)) e
      ∙ ap (λ d. ready (outb serial_port d ∷ outb serial_port 13 ∷ t)) (ground arith)
      ∙ ap
          (λ (b : Bool).
            ready
              (if b then outb serial_port 10 ∷ outb serial_port 13 ∷ t else outb serial_port c ∷ t))
          (sym e)
  | inr e ↦
      ap (λ (b : Bool). if b then send c (send 13 (ready t)) else send c (ready t)) e
      ∙ ap
          (λ (b : Bool).
            ready
              (if b then outb serial_port 10 ∷ outb serial_port 13 ∷ t else outb serial_port c ∷ t))
          (sym e)
]

sent-if :
    (b : Bool) (c : ℕ) (str : List ℕ) (t : Trace)
    → sent str (if b then outb serial_port 10 ∷ outb serial_port 13 ∷ t else outb serial_port c ∷ t)
      ≡ sent (if b then 13 ∷ 10 ∷ str else c ∷ str) t
unfolding sent
sent-if true c str t = refl
sent-if false c str t = refl

-- Once the port is set up, a text is sent character by character, with a `\r` before each line feed.
pub serial_puts-sent :
    (str : List ℕ) (t : Trace) → serial_puts str (ready t) ≡ ready (sent (with_returns str) t)
unfolding serial_puts with_returns sent serial_putc
serial_puts-sent [] t = refl
serial_puts-sent (c ∷ str) t =
    ap (serial_puts str) (putc-sent c str t)
    ∙ serial_puts-sent str
        (if c == 10 then outb serial_port 10 ∷ outb serial_port 13 ∷ t else outb serial_port c ∷ t)
    ∙ ap ready (sent-if (c == 10) c (with_returns str) t)

-- The digits of `put_digits`, and the number that a text of such digits stands for.
digits : (left v : ℕ) → List ℕ
digits zero v = []
digits (suc left) v = hex (bit_and (v / 2 ^ (4 * left)) 0xF) ∷ digits left v

pub digit_value : (c : ℕ) → ℕ
digit_value c = if leb c b'9' then c - b'0' else 10 + (c - b'A')

pub hex_value : (so_far : ℕ) → List ℕ → ℕ
unfolding digit_value
hex_value so_far [] = so_far
hex_value so_far (c ∷ str) = hex_value (so_far * 16 + digit_value c) str

digit_value-hex : (d : ℕ) → d < 16 → digit_value (hex d) ≡ d
unfolding digit_value hex
digit_value-hex d h = ground arith

hex_plain : (d : ℕ) → d < 16 → (hex d == 10) ≡ false
unfolding hex
hex_plain d h = ground arith

nibble : (left v : ℕ) → bit_and (v / 2 ^ (4 * left)) 0xF ≡ v / 2 ^ (4 * left) % 16
nibble left v = and-ones 4 (v / 2 ^ (4 * left))

nibble_small : (left v : ℕ) → bit_and (v / 2 ^ (4 * left)) 0xF < 16
nibble_small left v = omega (arith, nibble left v)

put_digits-sent :
    (left v : ℕ) (t : Trace) → put_digits left v (ready t) ≡ ready (sent (digits left v) t)
unfolding put_digits digits sent serial_putc send serial_init
put_digits-sent zero v t = refl
put_digits-sent (suc left) v t =
    ap
      (λ (b : Bool). put_digits left v (if b then send c (send 13 (ready t)) else send c (ready t)))
      (hex_plain (bit_and (v / 2 ^ (4 * left)) 0xF) (nibble_small left v))
    ∙ put_digits-sent left v (outb serial_port c ∷ t)
  where
    c : ℕ
    c = hex (bit_and (v / 2 ^ (4 * left)) 0xF)

pow_sixteen : (left : ℕ) → 2 ^ (4 * suc left) ≡ 2 ^ (4 * left) * 16
pow_sixteen left =
    ap (λ e. 2 ^ e) {x = 4 * suc left} {y = suc (suc (suc (suc (4 * left))))} (omega arith)
    ∙ omega (
      arith,
      pow-succ' 2 (suc (suc (suc (4 * left)))),
      pow-succ' 2 (suc (suc (4 * left))),
      pow-succ' 2 (suc (4 * left)),
      pow-succ' 2 (4 * left),
    )

div-sixteen :
    (left v : ℕ) → v / 2 ^ (4 * left) ≡ v / 2 ^ (4 * suc left) * 16 + v / 2 ^ (4 * left) % 16
div-sixteen left v =
    omega
      (arith, ap (λ d. v / d) (pow_sixteen left) ∙ sym (div-div-eq-div-mul v (2 ^ (4 * left)) 16))

hex_value-digits : (left v : ℕ) → hex_value (v / 2 ^ (4 * left)) (digits left v) ≡ v
unfolding hex_value digits
hex_value-digits zero v = omega arith
hex_value-digits (suc left) v =
    ap (λ n. hex_value n (digits left v))
      (ap (λ n. v / 2 ^ (4 * suc left) * 16 + n)
          (digit_value-hex (bit_and (v / 2 ^ (4 * left)) 0xF) (nibble_small left v) ∙ nibble left v)
        ∙ sym (div-sixteen left v))
    ∙ hex_value-digits left v

-- Once the port is set up, a number of 64 bits is sent as `0x` and digits whose value it is.
pub put_hex64-roundtrip :
    (v : ℕ) (t : Trace)
    → v < 2 ^ 64
    → (str : List ℕ) × (serial_put_hex64 v (ready t) ≡ ready (sent (b'0' ∷ b'x' ∷ str) t))
      × (hex_value 0 str ≡ v)
unfolding serial_put_hex64 serial_puts serial_putc send serial_init sent
put_hex64-roundtrip v t small = (
  digits 16 v,
  put_digits-sent 16 v (outb serial_port b'x' ∷ outb serial_port b'0' ∷ t),
  subst (λ n. hex_value n (digits 16 v) ≡ v) (top v small) (hex_value-digits 16 v),
)
  where
    top : (v : ℕ) → v < 2 ^ 64 → v / 2 ^ (4 * 16) ≡ 0
    top v small = omega arith
