-- ===== src/Paging/Sample.antt =====
-- Test data: an address space with an empty root table, over sixteen pages of which one is in use.
use deer.Base.{
  ◌∙◌, ℕ, ◌+◌, ◌≡◌, refl, sym, arith, true, some, List, [], ◌∷◌, ◌==◌, if◌then◌else◌, u64,
}
use deer.Pmm.{Pmm, bitmap_test}
use deer.Pmm.Count.{marked}
use deer.Pmm.Sample.{roomy, roomy_test, roomy-IsValid}
use deer.Paging.{Paging}
use deer.Paging.Tree.{IsTable, IsTable-IsBelow, below-zero, none-some, some_inj, table_at}
use deer.Paging.Space.{IsSpace}

abbrev pub offset : ℕ
offset = 0xFFFF_8000_0000_0000

abbrev pub pages : Pmm
pages = record {
  current_memmap = some (record { base = 0; length = 0x10000; usable = true } ∷ []);
  current_hhdm = some offset;
  bitmap = 1;
  bytes = λ a. if a == 0 then 1 else 0;
  bitmap_size = 2;
  total_pages = 16;
  used_pages = 1;
  total_memory = 0x10000;
}

abbrev pub empty : Paging
empty = record { hhdm = some offset; pmm = pages; words = λ a. 0; cr3 = 0; invalidated = [] }

only_root :
    (root : ℕ) (p : List ℕ) (t : ℕ) → IsTable offset root (λ a. 0) p t → (p ≡ []) × (root ≡ t)
unfolding table_at
only_root root [] t h = (refl, some_inj root t h.found)
only_root root (i ∷ p) t h =
    let b = IsTable-IsBelow offset root (λ a. 0) i p t h in
    absurd (none-some t (sym (below-zero offset (λ a. 0) b.above i refl) ∙ b.link))

pub empty-IsSpace : IsSpace offset (u64 (0 + offset)) empty
empty-IsSpace = record {
  tree = record {
    aligned = λ p t h. omega (arith, (only_root (u64 (0 + offset)) p t h).1);
    solid = λ p t i h high index e. refl;
    alike = λ p q t h h'.
        (only_root (u64 (0 + offset)) p t h).0 ∙ sym ((only_root (u64 (0 + offset)) q t h').0);
  };
  valid = record { sized = omega arith; counted = unfold marked bitmap_test in refl };
  base = refl;
  room = omega arith;
  held = λ p t h.
      (0, omega (arith, (only_root (u64 (0 + offset)) p t h).1), unfold bitmap_test in refl);
}

-- The same over the 512 pages of a machine that has just set up its allocator.
abbrev pub roomy_space : Paging
roomy_space = record { hhdm = some offset; pmm = roomy; words = λ a. 0; cr3 = 0; invalidated = [] }

pub roomy_space-IsSpace : IsSpace offset (u64 (0 + offset)) roomy_space
roomy_space-IsSpace = record {
  tree = empty-IsSpace.tree;
  valid = roomy-IsValid;
  base = refl;
  room = omega (arith, roomy_test.0);
  held = λ p t h. (0, omega (arith, (only_root (u64 (0 + offset)) p t h).1), roomy_test.1);
}
