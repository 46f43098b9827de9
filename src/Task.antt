-- ===== src/Task.antt =====
-- kernel/src/tasking/task.c: the list of tasks and the round-robin scheduler. A task is a record at
-- an address, 0 is NULL. The loops over the list run on fuel, and `none` means that it ran out.
pub mod Chain
pub mod Ready
pub mod Tick
mod Examples
use deer.Base.{
  ℕ, zero, suc, Bool, Option, none, some, List, [], ◌∷◌, ◌==◌, ◌||◌, not, if◌then◌else◌, update,
}

abbrev pub task_state_ready : ℕ
task_state_ready = 0

abbrev pub task_state_running : ℕ
task_state_running = 1

abbrev pub task_state_blocked : ℕ
task_state_blocked = 2

abbrev pub task_state_exited : ℕ
task_state_exited = 3

-- `struct task`
pub record Task : Type 0 where
  pub r15 : ℕ
  pub r14 : ℕ
  pub r13 : ℕ
  pub r12 : ℕ
  pub r11 : ℕ
  pub r10 : ℕ
  pub r9 : ℕ
  pub r8 : ℕ
  pub rdi : ℕ
  pub rsi : ℕ
  pub rbp : ℕ
  pub rbx : ℕ
  pub rdx : ℕ
  pub rcx : ℕ
  pub rax : ℕ
  pub rip : ℕ
  pub cs : ℕ
  pub rflags : ℕ
  pub rsp : ℕ
  pub ss : ℕ
  pub next : ℕ
  pub id : ℕ
  pub state : ℕ
  pub stack_top : ℕ

-- The tasks, `task_list`, `current_task`, and the switches from one task to another so far, newest
-- first: the calls of the assembly routines `save_current_context` and `switch_to_task`.
pub record Tasking : Type 0 where
  pub tasks : ℕ → Task
  pub task_list : ℕ
  pub current_task : ℕ
  pub switches : List (ℕ × ℕ)

unfoldable pub task_init : (t entry stack_top id : ℕ) → Tasking → Tasking
task_init t entry stack_top id k = record k {
  tasks = update k.tasks t (record {
    r15 = 0;
    r14 = 0;
    r13 = 0;
    r12 = 0;
    r11 = 0;
    r10 = 0;
    r9 = 0;
    r8 = 0;
    rdi = 0;
    rsi = 0;
    rbp = 0;
    rbx = 0;
    rdx = 0;
    rcx = 0;
    rax = 0;
    rip = entry;
    cs = 0x08;
    rflags = 0x202;
    rsp = stack_top;
    ss = 0x10;
    next = 0;
    id = id;
    state = task_state_ready;
    stack_top = stack_top;
  });
}

-- `while (last->next) last = last->next`
unfoldable pub last_loop : (fuel last : ℕ) → (ℕ → Task) → Option ℕ
last_loop zero last tasks = none
last_loop (suc fuel) last tasks =
    let rest = last_loop fuel ((tasks last).next) tasks in
    if (tasks last).next == 0 then some last else rest

-- The store `last->next = t`.
unfoldable pub link_last : (t : ℕ) → Option ℕ → Tasking → Option Tasking
link_last t none k = none
link_last t (some last) k =
    some (record k { tasks = update k.tasks last (record (k.tasks last) { next = t }) })

unfoldable pub task_add : (fuel t : ℕ) → Tasking → Option Tasking
unfolding last_loop link_last
task_add fuel t k =
    if k.task_list == 0
    then some (record k { task_list = t })
    else link_last t (last_loop fuel k.task_list k.tasks) k

-- `while (t && t != stop) { if (t->state == TASK_STATE_READY) return t; t = t->next; }`, where NULL
-- is returned for a loop that ends; the first loop has no `stop`, which is `stop` NULL here.
pub ready_loop : (fuel stop t : ℕ) → (ℕ → Task) → Option ℕ
ready_loop zero stop t tasks = none
ready_loop (suc fuel) stop t tasks =
    let rest = ready_loop fuel stop ((tasks t).next) tasks in
    if t == 0 || t == stop
    then some 0
    else (if (tasks t).state == task_state_ready then some t else rest)

-- The second search, when the first found no task.
pub search_again : (fuel : ℕ) → Option ℕ → Tasking → Option ℕ
unfolding ready_loop
search_again fuel none k = none
search_again fuel (some t) k =
    if t == 0 then ready_loop fuel k.current_task k.task_list k.tasks else some t

pub task_get_next_ready : (fuel : ℕ) → Tasking → Option ℕ
unfolding ready_loop search_again
task_get_next_ready fuel k =
    if k.current_task == 0
    then some k.task_list
    else search_again fuel (ready_loop fuel 0 (k.tasks k.current_task).next k.tasks) k

abbrev pub set_state : (t state : ℕ) → (ℕ → Task) → ℕ → Task
set_state t state tasks = update tasks t (record (tasks t) { state = state })

-- The switch to `next`, when it is a task and not the current one. `switch_to_task` ends in `iretq`
-- and does not return, so that the store `current_task = next` behind it is never reached.
pub switch_tasks : (next : ℕ) → Tasking → Tasking
switch_tasks next k = if next == 0 || next == k.current_task then k else record k {
  tasks = set_state next task_state_running (set_state k.current_task task_state_ready k.tasks);
  switches = (k.current_task, next) ∷ k.switches;
}

pub switch_found : Option ℕ → Tasking → Option Tasking
unfolding switch_tasks
switch_found none k = none
switch_found (some next) k = some (switch_tasks next k)

pub task_scheduler_tick : (fuel : ℕ) → Tasking → Option Tasking
unfolding switch_found task_get_next_ready
task_scheduler_tick fuel k =
    if k.current_task == 0 then some k else switch_found (task_get_next_ready fuel k) k
