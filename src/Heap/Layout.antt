-- ===== src/Heap/Layout.antt =====
-- The shape of the heap of kernel/src/memory/heap.c: its memory cut, without gaps, into chunks,
-- each a header and a payload, linked both ways in the order of their addresses.
use mathlib.Core.Path.{subst₂}
use deer.Base.{
  ℕ, ◌+◌, ◌≤◌, ◌<◌, ◌≡◌, ◌≢◌, ◌⊎◌, inl, inr, refl, sym, ◌∙◌, Bool, arith, List, [], ◌∷◌, ◌++◌,
}
use deer.Heap.{Block, header_size, link_prev}

-- The size of a payload, and whether it is in use.
pub record Chunk : Type 0 where
  pub size : ℕ
  pub used : Bool

abbrev pub chunk : ℕ → Bool → Chunk
chunk n u = record { size = n; used = u }

abbrev pub block : ℕ → Bool → ℕ → ℕ → Block
block n u next prev = record { size = n; used = u; next = next; prev = prev }

-- The `next` pointer of a block whose memory ends at `a`.
abbrev pub next_of : ℕ → List Chunk → ℕ
next_of a [] = 0
next_of a (c ∷ cs) = a

-- From `p`, whose predecessor is `prev`, the chunks fill the memory up to `stop`.
abbrev pub Layout : (m : ℕ → Block) (stop prev p : ℕ) → List Chunk → Type 0
Layout m stop prev p [] = p ≡ stop
Layout m stop prev p (c ∷ cs) =
    (m p ≡ block c.size c.used (next_of (p + header_size + c.size) cs) prev)
    × Layout m stop p (p + header_size + c.size) cs

-- The chunks in front of the header at `q`, the last of which stands at `last`.
abbrev pub Front : (m : ℕ → Block) (prev p : ℕ) → List Chunk → (last q : ℕ) → Type 0
Front m prev p [] last q = (prev ≡ last) × (p ≡ q)
Front m prev p (c ∷ cs) last q =
    (m p ≡ block c.size c.used (p + header_size + c.size) prev)
    × Front m p (p + header_size + c.size) cs last q

-- Where the header behind the chunks stands, and the one in front of that.
abbrev pub end_of : ℕ → List Chunk → ℕ
end_of p [] = p
end_of p (c ∷ cs) = end_of (p + header_size + c.size) cs

abbrev pub last_of : (prev p : ℕ) → List Chunk → ℕ
last_of prev p [] = prev
last_of prev p (c ∷ cs) = last_of p (p + header_size + c.size) cs

module _ (m : ℕ → Block) (stop : ℕ) where
  pub Layout-split :
      (front : List Chunk) (c : Chunk) (back : List Chunk) (prev p : ℕ)
      → Layout m stop prev p (front ++ c ∷ back)
      → Front m prev p front (last_of prev p front) (end_of p front)
        × Layout m stop (last_of prev p front) (end_of p front) (c ∷ back)
  Layout-split [] c back prev p l = ((refl, refl), l)
  Layout-split (f ∷ []) c back prev p l = ((l.0, (refl, refl)), l.1)
  Layout-split (f ∷ g ∷ front) c back prev p l =
      let rest = Layout-split (g ∷ front) c back p (p + header_size + f.size) l.1 in
      ((l.0, rest.0), rest.1)

  pub Layout-join :
      (front : List Chunk) (c : Chunk) (back : List Chunk) (prev p last q : ℕ)
      → Front m prev p front last q
      → Layout m stop last q (c ∷ back)
      → Layout m stop prev p (front ++ c ∷ back)
  Layout-join [] c back prev p last q f l =
      subst₂ (λ a b. Layout m stop a b (c ∷ back)) (sym f.0) (sym f.1) l
  Layout-join (d ∷ []) c back prev p last q f l =
      (ground (arith, f.0, f.1), Layout-join [] c back p (p + header_size + d.size) last q f.1 l)
  Layout-join (d ∷ g ∷ front) c back prev p last q f l =
      (f.0, Layout-join (g ∷ front) c back p (p + header_size + d.size) last q f.1 l)

  pub le_end_of : (p : ℕ) (cs : List Chunk) → p ≤ end_of p cs
  le_end_of p [] = omega arith
  le_end_of p (c ∷ cs) = omega (arith, le_end_of (p + header_size + c.size) cs)

  pub Layout-le : (prev p : ℕ) (cs : List Chunk) → Layout m stop prev p cs → p ≤ stop
  Layout-le prev p [] l = omega (arith, l)
  Layout-le prev p (c ∷ cs) l = omega (arith, Layout-le p (p + header_size + c.size) cs l.1)

-- What stands outside a part of the heap does not matter to it.
pub Front-le :
    (m : ℕ → Block) (prev p : ℕ) (cs : List Chunk) (last q : ℕ) → Front m prev p cs last q → p ≤ q
Front-le m prev p [] last q f = omega (arith, f.1)
Front-le m prev p (c ∷ cs) last q f =
    omega (arith, Front-le m p (p + header_size + c.size) cs last q f.1)

pub Front-frame :
    (m w : ℕ → Block) (prev p : ℕ) (cs : List Chunk) (last q : ℕ)
    → Front m prev p cs last q
    → ((a : ℕ) → p ≤ a → a < q → w a ≡ m a)
    → Front w prev p cs last q
Front-frame m w prev p [] last q f same = f
Front-frame m w prev p (c ∷ cs) last q f same =
    let after = p + header_size + c.size in
    (
      same p (omega arith) (omega (arith, Front-le m p after cs last q f.1)) ∙ f.0,
      Front-frame m w p after cs last q f.1 (λ a h k. same a (omega arith) k),
    )

pub Layout-frame :
    (m w : ℕ → Block) (stop prev p : ℕ) (cs : List Chunk)
    → Layout m stop prev p cs
    → ((a : ℕ) → p ≤ a → w a ≡ m a)
    → Layout w stop prev p cs
Layout-frame m w stop prev p [] l same = l
Layout-frame m w stop prev p (c ∷ cs) l same = (
  same p (omega arith) ∙ l.0,
  Layout-frame m w stop p (p + header_size + c.size) cs l.1 (λ a h. same a (omega arith)),
)

pub link_prev-other :
    (next prev : ℕ) (m : ℕ → Block) (a : ℕ) → a ≢ next → link_prev next prev m a ≡ m a
unfolding link_prev
link_prev-other next prev m a ne = ground arith

-- The same store on memories that agree at an address gives the same there.
pub link_prev-same :
    (next prev : ℕ) (m w : ℕ → Block) (a : ℕ)
    → m a ≡ w a
    → link_prev next prev m a ≡ link_prev next prev w a
unfolding link_prev
link_prev-same next prev m w a e = ground (arith, e)

link_prev-head :
    (n p : ℕ) (u : Bool) (next old new : ℕ) (m : ℕ → Block)
    → 0 < p
    → m p ≡ block n u next old
    → link_prev p new m p ≡ block n u next new
unfolding link_prev
link_prev-head n p u next old new m pos e = ground (arith, e)

-- Relinking the chunk behind `p` keeps the rest of the layout.
pub Layout-relink :
    (m w : ℕ → Block) (stop prev p : ℕ) (cs : List Chunk) (new : ℕ)
    → Layout m stop prev p cs
    → 0 < p
    → ((a : ℕ) → p ≤ a → w a ≡ link_prev (next_of p cs) new m a)
    → Layout w stop new p cs
Layout-relink m w stop prev p [] new l pos same = l
Layout-relink m w stop prev p (c ∷ cs) new l pos same = (
  same p (omega arith)
      ∙ link_prev-head c.size p c.used (next_of (p + header_size + c.size) cs) prev new m pos l.0,
  Layout-frame m w stop p (p + header_size + c.size) cs l.1
      (λ a h. same a (omega arith) ∙ link_prev-other p new m a (λ (e : a ≡ p). omega arith)),
)

pub next_of-cases : (a : ℕ) (cs : List Chunk) → (next_of a cs ≡ 0) ⊎ (next_of a cs ≡ a)
next_of-cases a [] = inl refl
next_of-cases a (c ∷ cs) = inr refl
