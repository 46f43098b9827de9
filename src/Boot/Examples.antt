-- ===== src/Boot/Examples.antt =====
-- The start of kernel/src/kernel.c at concrete arguments.
use deer.Base.{ℕ, ◌≡◌, refl, Option, some, none, []}
use deer.Pmm.{pmm_zero}
use deer.Heap.Sample.{small_heap}
use deer.Paging.Sample.{empty}
use deer.Vmm.{Vmm}
use deer.Task.{Task, Tasking, task_init, task_add, last_loop, link_last}
use deer.Boot.{early_malloc, start_tasks}

-- A block, and one that does not fit behind it.
early_block : early_malloc 4096 1000 24 ≡ (4120, 1024)
unfolding early_malloc
early_block = refl

early_refused : early_malloc 4096 65000 1024 ≡ (0, 1024)
unfolding early_malloc
early_refused = refl

-- A size close to 2 ^ 64 is not refused.
early_wrapped : early_malloc 4096 0xFFFF_FFFF_FFFF_FFFF 1024 ≡ (5120, 1023)
unfolding early_malloc
early_wrapped = refl

abbrev no_task : Task
no_task = record {
  r15 = 0;
  r14 = 0;
  r13 = 0;
  r12 = 0;
  r11 = 0;
  r10 = 0;
  r9 = 0;
  r8 = 0;
  rdi = 0;
  rsi = 0;
  rbp = 0;
  rbx = 0;
  rdx = 0;
  rcx = 0;
  rax = 0;
  rip = 0;
  cs = 0;
  rflags = 0;
  rsp = 0;
  ss = 0;
  next = 0;
  id = 0;
  state = 0;
  stack_top = 0;
}

abbrev no_tasks : Tasking
no_tasks = record { tasks = λ t. no_task; task_list = 0; current_task = 0; switches = [] }

-- A field of a task in the result.
abbrev field : (Task → ℕ) → (t : ℕ) → Option Tasking → ℕ
field f t o = elim o [ none ↦ 0 | some k ↦ f (k.tasks t) ]

-- The stack of a block of 0x4000 bytes at 0x10000 begins at 0x18000, behind the block.
stack_behind :
    (field (λ t. t.rsp) 64 (start_tasks 3 64 512 1 2 0x10000 0x20000 no_tasks) ≡ 0x18000)
    × (field (λ t. t.rsp) 512 (start_tasks 3 64 512 1 2 0x10000 0x20000 no_tasks) ≡ 0x28000)
unfolding start_tasks task_init task_add last_loop link_last
stack_behind = (refl, refl)

-- The second task follows the first, and no other.
both_listed :
    (field (λ t. t.next) 64 (start_tasks 3 64 512 1 2 0x10000 0x20000 no_tasks) ≡ 512)
    × (field (λ t. t.next) 512 (start_tasks 3 64 512 1 2 0x10000 0x20000 no_tasks) ≡ 0)
unfolding start_tasks task_init task_add last_loop link_last
both_listed = (refl, refl)

-- The root table is in page 0, which the memory map reserves.
abbrev cold : Vmm
cold = record {
  kernel_space = record { pml4 = 0; hhdm_offset = 0 };
  hhdm_offset = 0;
  paging = record empty { hhdm = none; pmm = pmm_zero };
  heap = small_heap;
  spaces = λ a. record { pml4 = 0; hhdm_offset = 0 };
}
