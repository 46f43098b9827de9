-- ===== src/Interrupts/Gates.antt =====
-- The table of gates that `idt_init` of kernel/src/interrupts/idt.c builds.
use mathlib.Core.Path.{subst, subst₂}
use deer.Base.{
  agrees, agrees-eq, ℕ, zero, suc, ◌+◌, ◌-◌, ◌*◌, ◌/◌, ◌^◌, ◌<◌, ◌≤◌, ◌≡◌, refl, sym, ap, ◌∙◌,
  bit_and, arith, Bool, true, List, [], ◌∷◌, inl, inr, Bool-cases, ◌==◌, ◌&&◌, if◌then◌else◌,
  update_self, update_other, ltb,
}
use deer.Bits.{and-ones}
use deer.Trace.{exception_handler}
use deer.Interrupts.{
  Gate, Tables, idt_set_entry, clear_gates, set_stubs, stub_calls, idt_init, kernel_gate, user_gate,
  install_exceptions, isr_install_handler,
}

-- The address that a gate jumps to, by the layout of the processor's manual.
pub gate_offset : Gate → ℕ
gate_offset g = g.base_low + g.base_middle * 2 ^ 16 + g.base_high * 2 ^ 32

offset-of :
    (base : ℕ)
    → base < 2 ^ 64
    → bit_and base 0xFFFF
        + bit_and (base / 2 ^ 16) 0xFFFF * 2 ^ 16
        + bit_and (base / 2 ^ 32) 0xFFFFFFFF * 2 ^ 32
      ≡ base
offset-of base h =
    rw (and-ones 16 base, and-ones 16 (base / 2 ^ 16), and-ones 32 (base / 2 ^ 32)) (omega arith)

-- A gate to `base` with the kernel's code selector.
pub IsGate : (base type_attr : ℕ) → Gate → Type 0
IsGate base type_attr g =
    (gate_offset g ≡ base) × (g.selector ≡ 0x08) × (g.type_attr ≡ type_attr) × (g.ist ≡ 0)

set-IsGate :
    (i base type_attr : ℕ) (idt : ℕ → Gate)
    → base < 2 ^ 64
    → IsGate base type_attr (idt_set_entry i base 0x08 type_attr idt i)
unfolding idt_set_entry IsGate gate_offset
set-IsGate i base type_attr idt h = (
  ap gate_offset (update_self idt i _) ∙ offset-of base h,
  ap (λ (g : Gate). g.selector) (update_self idt i _),
  ap (λ (g : Gate). g.type_attr) (update_self idt i _),
  ap (λ (g : Gate). g.ist) (update_self idt i _),
)

-- The attributes that the calls give to a vector, 0 for none.
attr : ℕ → List (ℕ × ℕ) → ℕ
attr j [] = 0
attr j ((i, a) ∷ rest) = if attr j rest == 0 then (if j == i then a else 0) else attr j rest

-- No call gives a vector the attributes 0.
all_set : List (ℕ × ℕ) → Bool
all_set [] = true
all_set ((i, a) ∷ rest) = ltb 0 a && all_set rest

module _ (s : ℕ → ℕ) (w : (i : ℕ) → s i < 2 ^ 64) (j : ℕ) where
  set_stubs-other :
      (es : List (ℕ × ℕ)) (idt : ℕ → Gate)
      → attr j es ≡ 0
      → all_set es ≡ true
      → set_stubs s es idt j ≡ idt j
  unfolding attr set_stubs all_set idt_set_entry
  set_stubs-other [] idt e all = refl
  set_stubs-other ((i, a) ∷ rest) idt e all = elim (Bool-cases (j == i)) [
    | inl same ↦ absurd (ground arith)
    | inr other ↦
        set_stubs-other rest (idt_set_entry i (s i) 0x08 a idt) (ground arith) (ground arith)
        ∙ update_other idt i j _ (λ (q : j ≡ i). ground arith)
  ]

  set_stubs-IsGate :
      (es : List (ℕ × ℕ)) (idt : ℕ → Gate) (b : ℕ)
      → attr j es ≡ b
      → 0 < b
      → all_set es ≡ true
      → IsGate (s j) b (set_stubs s es idt j)
  unfolding attr set_stubs all_set
  set_stubs-IsGate [] idt b e pos all = absurd (omega arith)
  set_stubs-IsGate ((i, a) ∷ rest) idt b e pos all = elim (Bool-cases (attr j rest == 0)) [
    | inl last ↦
        subst (IsGate (s j) b)
          (sym
            (set_stubs-other rest (idt_set_entry i (s i) 0x08 a idt) (ground arith) (ground arith)))
          (set_here (ground arith) (ground arith))
    | inr more ↦
        set_stubs-IsGate rest (idt_set_entry i (s i) 0x08 a idt) b (ground arith) pos (ground arith)
  ]
    where
      set_here : j ≡ i → b ≡ a → IsGate (s j) b (idt_set_entry i (s i) 0x08 a idt j)
      set_here same same' =
          subst₂ (λ t c. IsGate (s j) c (idt_set_entry t (s t) 0x08 a idt j)) same (sym same')
            (set-IsGate j (s j) a idt (w j))

all_calls_set : all_set stub_calls ≡ true
unfolding all_set stub_calls
all_calls_set = refl

-- The attributes that each vector gets.
abbrev pub wanted : ℕ → ℕ
wanted j =
    if ltb j 48
    then (if j == 3 then user_gate else (if j == 4 then user_gate else kernel_gate))
    else 0

attr-wanted : agrees (λ j. attr j stub_calls) wanted 256 ≡ true
unfolding agrees attr stub_calls
attr-wanted = refl

clear_gates-below : (left i j : ℕ) (idt : ℕ → Gate) → j < i → clear_gates left i idt j ≡ idt j
unfolding clear_gates idt_set_entry
clear_gates-below zero i j idt h = refl
clear_gates-below (suc left) i j idt h =
    clear_gates-below left (i + 1) j (idt_set_entry i 0 0 0 idt) (omega arith)
    ∙ update_other idt i j _ (λ (q : j ≡ i). omega arith)

clear_gates-absent :
    (left i j : ℕ) (idt : ℕ → Gate)
    → i ≤ j
    → j < i + left
    → (clear_gates left i idt j).type_attr ≡ 0
unfolding clear_gates idt_set_entry
clear_gates-absent zero i j idt p q = absurd (omega arith)
clear_gates-absent (suc left) i j idt p q = elim (Bool-cases (j == i)) [
  | inl here ↦
      ap (λ (g : Gate). g.type_attr)
        (clear_gates-below left (i + 1) j (idt_set_entry i 0 0 0 idt) (ground arith))
      ∙ ground arith
  | inr later ↦
      clear_gates-absent left (i + 1) j (idt_set_entry i 0 0 0 idt) (ground arith) (omega arith)
]

installed-idt : (left i : ℕ) (k : Tables) → (install_exceptions left i k).idt ≡ k.idt
unfolding install_exceptions isr_install_handler
installed-idt zero i k = refl
installed-idt (suc left) i k =
    installed-idt left (i + 1) (isr_install_handler i exception_handler k)

-- After `idt_init`, whatever the tables held before, each of the vectors 0 to 47 has a gate to its
-- own stub with the kernel's code selector, open to user code exactly for breakpoint and overflow;
-- the gates 48 to 255 are not present. The stubs' addresses fit 64 bits.
pub idt_init-gates :
    (isr_stub : ℕ → ℕ) (k : Tables) (j : ℕ)
    → ((i : ℕ) → isr_stub i < 2 ^ 64)
    → j < 256
    → (j < 48 → IsGate (isr_stub j) (wanted j) ((idt_init isr_stub k).idt j))
      × (48 ≤ j → ((idt_init isr_stub k).idt j).type_attr ≡ 0)
unfolding idt_init isr_install_handler
idt_init-gates isr_stub k j w h = (
  λ low.
      subst (λ (f : ℕ → Gate). IsGate (isr_stub j) (wanted j) (f j)) (sym gates)
        (set_stubs-IsGate isr_stub w j stub_calls cleared (wanted j) attrs (ground arith)
          all_calls_set),
  λ high.
      ap (λ (f : ℕ → Gate). (f j).type_attr) gates
      ∙ ap (λ (g : Gate). g.type_attr)
          (set_stubs-other isr_stub w j stub_calls cleared (attrs ∙ ground arith) all_calls_set)
      ∙ clear_gates-absent 256 0 j k.idt (omega arith) (omega arith),
)
  where
    cleared : ℕ → Gate
    cleared = clear_gates 256 0 k.idt

    gates : (idt_init isr_stub k).idt ≡ set_stubs isr_stub stub_calls cleared
    gates =
        installed-idt 32 0
          (record k { idt = set_stubs isr_stub stub_calls cleared; limit = 16 * 256 - 1 })

    attrs : attr j stub_calls ≡ wanted j
    attrs = agrees-eq (λ x. attr x stub_calls) wanted j 256 h attr-wanted
