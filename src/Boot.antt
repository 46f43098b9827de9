-- ===== src/Boot.antt =====
-- kernel/src/kernel.c: the early allocator, the order in which the memory is set up, and the start of
-- the two tasks. Messages are left out; the addresses of the static variables and of the functions
-- of the tasks are arguments.
pub mod Order
mod Examples
use deer.Base.{
  ℕ, ◌+◌, ◌*◌, ◌-◌, ◌^◌, ltb, bit_and, Option, none, some, List, [], ◌∷◌, if◌then◌else◌, u64,
  update,
}
use deer.Pmm.{Entry, pmm_init}
use deer.Heap.{Heap, kmalloc}
use deer.Heap.Init.{heap_init}
use deer.Paging.{paging_init}
use deer.Vmm.{Vmm, vmm_init}
use deer.Task.{Task, Tasking, task_init, task_add, task_state_running}

-- `sizeof(early_heap)`
abbrev pub early_size : ℕ
early_size = 64 * 1024

-- The block, or NULL, and `heap_offset`; the array is at `early_heap`.
pub early_malloc : (early_heap size heap_offset : ℕ) → ℕ × ℕ
early_malloc early_heap size heap_offset =
    if ltb early_size (u64 (heap_offset + size))
    then (0, heap_offset)
    else (early_heap + heap_offset, u64 (heap_offset + size))

-- `heap_init`, between the paging and the spaces.
pub with_heap : Vmm → Vmm
with_heap k = record k {
  heap = (heap_init k.heap k.paging).0;
  paging = (heap_init k.heap k.paging).1;
}

pub initialize_memory_subsystems :
    (memmap_response : Option (List Entry)) (hhdm_response : Option ℕ) → Vmm → Vmm
unfolding with_heap
initialize_memory_subsystems memmap_response hhdm_response k = vmm_init hhdm_response (
    with_heap (record k {
      paging =
          paging_init hhdm_response
            (record k.paging { pmm = pmm_init memmap_response hhdm_response k.paging.pmm });
    }))

abbrev pub task_stack_size : ℕ
task_stack_size = 0x4000

-- `((uintptr_t)raw_stack + TASK_STACK_SIZE) & ~0xF`
abbrev pub stack_end : (raw_stack : ℕ) → ℕ
stack_end raw_stack = bit_and (u64 (raw_stack + task_stack_size)) (2 ^ 64 - 16)

-- Both tasks in the list.
add_both : (fuel task2 : ℕ) → Option Tasking → Option Tasking
add_both fuel task2 none = none
add_both fuel task2 (some k) = task_add fuel task2 k

-- The two tasks on their stacks, the first one running; the second `TASK_STACK_SIZE` is the one of
-- the calls of `task_init`. `fuel` is for the walk of `task_add`.
pub start_tasks :
    (fuel task1 task2 task1_func task2_func raw_stack1 raw_stack2 : ℕ) → Tasking → Option Tasking
unfolding add_both
start_tasks fuel task1 task2 task1_func task2_func raw_stack1 raw_stack2 k =
    let one = task_init task1 task1_func (u64 (stack_end raw_stack1 + task_stack_size)) 1 k in
    let two = task_init task2 task2_func (u64 (stack_end raw_stack2 + task_stack_size)) 2 one in
    add_both fuel task2 (
      task_add fuel task1 (record two {
        current_task = task1;
        tasks = update two.tasks task1 (record (two.tasks task1) { state = task_state_running });
      }))

-- `setup_and_start_tasks`, up to the switch to `current_task`. A stack that kmalloc refuses is used
-- all the same.
pub setup_and_start_tasks :
    (fuel task1 task2 task1_func task2_func : ℕ) → Heap → Tasking → Option (Heap × Tasking)
unfolding start_tasks
setup_and_start_tasks fuel task1 task2 task1_func task2_func h k =
    elim (kmalloc task_stack_size h) [
      | none ↦ none
      | some (raw_stack1, h1) ↦ elim (kmalloc task_stack_size h1) [
        | none ↦ none
        | some (raw_stack2, h2) ↦
            elim (start_tasks fuel task1 task2 task1_func task2_func raw_stack1 raw_stack2 k) [
              | none ↦ none
              | some k' ↦ some (h2, k')
            ]
      ]
    ]
