-- ===== src/Paging/Space.antt =====
-- What keeps an address space whole: its tables form a tree, and stand in pages that the allocator
-- counts as used.
use mathlib.Core.Path.{subst}
use deer.Base.{
  leb, ltb, ◌&&◌, ℕ, ◌+◌, ◌-◌, ◌*◌, ◌/◌, ◌%◌, ◌^◌, ◌<◌, ◌≤◌, ◌≡◌, ◌≢◌, refl, sym, ap, ◌∙◌, arith,
  bit_and, bit_or, Bool, true, false, List, length, if◌then◌else◌,
}
use deer.Bits.{and-ones, and-high, or-fields}
use deer.Bits.Digit.{or_digit}
use deer.Pmm.{bitmap_test}
use deer.Pmm.Alloc.{IsValid}
use deer.Paging.{clear_page, Paging, is_present, frame_mask, table_entry}
use deer.Paging.Tree.{table_at, entry_of, Indices, IsTable, IsTree}

pub record IsSpace (offset root : ℕ) (k : Paging) : Type 0 where
  pub tree : IsTree offset root k.words
  pub valid : IsValid k.pmm
  pub base : offset % 4096 ≡ 0
  pub room : k.pmm.total_pages * 4096 + offset ≤ 2 ^ 64
  pub held :
      (p : List ℕ) (t : ℕ)
      → IsTable offset root k.words p t
      → (x : ℕ) × (t ≡ x * 4096 + offset) × (bitmap_test x k.pmm ≡ true)

-- Page `x` is in use and no table stands in it.
abbrev pub Reserved : (offset root : ℕ) → Paging → (x : ℕ) → Type 0
Reserved offset root k x =
    (bitmap_test x k.pmm ≡ true)
    × ((p : List ℕ) (t : ℕ) → IsTable offset root k.words p t → t ≢ x * 4096 + offset)

-- `k'` has all tables of `k`, and every mapping is the same.
pub record IsKept (offset root : ℕ) (k k' : Paging) : Type 0 where
  pub space : IsSpace offset root k'
  pub tables :
      (p : List ℕ) (t : ℕ) → IsTable offset root k.words p t → IsTable offset root k'.words p t
  pub entries :
      (p : List ℕ) (j : ℕ)
      → length p ≡ 3
      → Indices p
      → j < 512
      → entry_of k'.words j (table_at offset root k'.words p)
        ≡ entry_of k.words j (table_at offset root k.words p)
  pub reserved : (x : ℕ) → Reserved offset root k x → Reserved offset root k' x
  pub hhdm : k'.hhdm ≡ k.hhdm
  pub cr3 : k'.cr3 ≡ k.cr3
  pub invalidated : k'.invalidated ≡ k.invalidated

pub IsKept-refl : (offset root : ℕ) (k : Paging) → IsSpace offset root k → IsKept offset root k k
IsKept-refl offset root k s = record {
  space = s;
  tables = λ p t h. h;
  entries = λ p j a b c. refl;
  reserved = λ x r. r;
  hhdm = refl;
  cr3 = refl;
  invalidated = refl;
}

pub IsKept-trans :
    (offset root : ℕ) (k l m : Paging)
    → IsKept offset root k l
    → IsKept offset root l m
    → IsKept offset root k m
IsKept-trans offset root k l m a b = record {
  space = b.space;
  tables = λ p t h. b.tables p t (a.tables p t h);
  entries = λ p j x y z. b.entries p j x y z ∙ a.entries p j x y z;
  reserved = λ x r. b.reserved x (a.reserved x r);
  hhdm = b.hhdm ∙ a.hhdm;
  cr3 = b.cr3 ∙ a.cr3;
  invalidated = b.invalidated ∙ a.invalidated;
}

-- The words of a page that is cleared, and those of every other page.
pub clear_page-inside : (n j : ℕ) (words : ℕ → ℕ) → j < 512 → clear_page n words (n + 8 * j) ≡ 0
clear_page-inside n j words h = ground arith

away :
    (n t j : ℕ)
    → n % 4096 ≡ 0
    → t % 4096 ≡ 0
    → j < 512
    → t ≢ n
    → (leb n (t + 8 * j) && ltb (t + 8 * j) (n + 4096)) ≡ false
away n t j a b c ne = ground arith

pub clear_page-outside :
    (n t j : ℕ) (words : ℕ → ℕ)
    → n % 4096 ≡ 0
    → t % 4096 ≡ 0
    → j < 512
    → t ≢ n
    → clear_page n words (t + 8 * j) ≡ words (t + 8 * j)
clear_page-outside n t j words a b c ne =
    ap (λ (x : Bool). if x then 0 else words (t + 8 * j)) (away n t j a b c ne)

pub masked : (x : ℕ) → x < 2 ^ 64 → bit_and x frame_mask ≡ x / 4096 * 4096
masked x h =
    and-high 12 x (2 ^ 52 - 1) ∙ ap (λ t. t * 2 ^ 12) (and-ones 52 (x / 2 ^ 12) ∙ small x h)
  where
    small : (x : ℕ) → x < 2 ^ 64 → x / 2 ^ 12 % 2 ^ 52 ≡ x / 2 ^ 12
    small x h = omega arith

pub present-odd : (x : ℕ) → x % 2 ≡ 1 → is_present x ≡ true
present-odd x h = rw (and-ones 1 x, h) refl

pub odd-present : (x : ℕ) → is_present x ≡ true → x % 2 ≡ 1
odd-present x h = ground (arith, and-ones 1 x)

-- The entries by which a table below is reached.
abbrev pub IsEntryOf : (phys entry : ℕ) → Type 0
IsEntryOf phys entry = (is_present entry ≡ true) × (bit_and entry frame_mask ≡ phys)

pub flags_entry :
    (x f : ℕ) → x < 2 ^ 52 → f < 4096 → f % 2 ≡ 1 → IsEntryOf (x * 4096) (x * 4096 + f)
flags_entry x f h small odd =
    (present-odd (x * 4096 + f) (omega arith), masked (x * 4096 + f) (omega arith) ∙ omega arith)

-- `| 2` on a number whose second bit is clear.
pub set_second : (x : ℕ) → bit_or (x * 4 + 1) 2 ≡ x * 4 + 3
set_second x = omega (arith, or_digit (x * 4 + 1) 2, halves)
  where
    halves : bit_or ((x * 4 + 1) / 2) (2 / 2) ≡ x * 2 + 1
    halves = ap (λ t. bit_or t 1) (omega arith) ∙ or-fields 1 x 1 (omega arith)

pub table_entry-value : (x : ℕ) → table_entry (x * 4096) ≡ x * 4096 + 3
table_entry-value x =
    ap (λ t. bit_or t 2) (or-fields 12 x 1 (omega arith) ∙ split x)
    ∙ set_second (x * 1024)
    ∙ omega arith
  where
    split : (x : ℕ) → x * 2 ^ 12 + 1 ≡ x * 1024 * 4 + 1
    split x = omega arith

pub table_entry-IsEntryOf : (x : ℕ) → x < 2 ^ 52 → IsEntryOf (x * 4096) (table_entry (x * 4096))
table_entry-IsEntryOf x h =
    subst (IsEntryOf (x * 4096)) (sym (table_entry-value x))
      (flags_entry x 3 h (omega arith) (omega arith))
