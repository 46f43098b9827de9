-- ===== src/Task/Examples.antt =====
-- The scheduler on three tasks at the addresses 10, 20 and 30, of which the second is running.
use deer.Base.{ℕ, ◌≡◌, refl, arith, some, [], ◌∷◌, ◌++◌, ◌==◌, if◌then◌else◌}
use deer.Task.{Task, Tasking, task_get_next_ready, task_scheduler_tick}
use deer.Task.Chain.{Chain, Fresh, Distinct}
use deer.Task.Ready.{next_ready, first_ready, get_next_ready-round_robin}
use deer.Task.Tick.{chosen, OneRuns, tick-OneRuns}

abbrev task_at : (next state : ℕ) → Task
task_at next state = record {
  r15 = 0;
  r14 = 0;
  r13 = 0;
  r12 = 0;
  r11 = 0;
  r10 = 0;
  r9 = 0;
  r8 = 0;
  rdi = 0;
  rsi = 0;
  rbp = 0;
  rbx = 0;
  rdx = 0;
  rcx = 0;
  rax = 0;
  rip = 0;
  cs = 0;
  rflags = 0;
  rsp = 0;
  ss = 0;
  next = next;
  id = 0;
  state = state;
  stack_top = 0;
}

-- The state of the current task is `state`.
abbrev three : ℕ → Tasking
three state = record {
  tasks =
      λ a. if a == 10 then task_at 20 0 else (if a == 20 then task_at 30 state else task_at 0 0);
  task_list = 10;
  current_task = 20;
  switches = [];
}

chained : (state : ℕ) → Chain (three state).tasks 10 (10 ∷ 20 ∷ 30 ∷ [])
unfolding Chain
chained state = (refl, omega arith, (refl, omega arith, (refl, omega arith, refl)))

distinct : Distinct (10 ∷ 20 ∷ 30 ∷ [])
unfolding Distinct Fresh
distinct = ((λ e. omega arith, (λ e. omega arith, tt)), ((λ e. omega arith, tt), (tt, tt)))

forty_is_new : Fresh 40 (10 ∷ 20 ∷ 30 ∷ [])
unfolding Fresh
forty_is_new = (λ e. omega arith, (λ e. omega arith, (λ e. omega arith, tt)))

one_runs : OneRuns (three 1).tasks 20 (10 ∷ 20 ∷ 30 ∷ [])
unfolding OneRuns
one_runs = (
  (λ e. omega arith, λ e. omega arith),
  ((λ e. refl, λ e. refl), ((λ e. omega arith, λ e. omega arith), tt)),
)

get_next_ready-round_robin_example :
    task_get_next_ready 3 (three 1) ≡ some (next_ready (three 1).tasks (10 ∷ []) (30 ∷ []))
get_next_ready-round_robin_example =
    get_next_ready-round_robin 3 (three 1) (10 ∷ []) (30 ∷ []) (chained 1) distinct (omega arith)

tick-OneRuns_example :
    let next = chosen (next_ready (three 1).tasks (10 ∷ []) (30 ∷ [])) 20 in
    (k' : Tasking) × (task_scheduler_tick 3 (three 1) ≡ some k')
    × Chain k'.tasks k'.task_list ((10 ∷ []) ++ 20 ∷ 30 ∷ [])
    × (k'.switches ≡ (if next == 20 then [] else (20, next) ∷ []))
    × OneRuns k'.tasks next ((10 ∷ []) ++ 20 ∷ 30 ∷ [])
    × (k'.current_task ≡ 20)
tick-OneRuns_example =
    tick-OneRuns 3 (three 1) (10 ∷ []) (30 ∷ []) (chained 1) distinct (omega arith) one_runs

thirty : (state : ℕ) → next_ready (three state).tasks (10 ∷ []) (30 ∷ []) ≡ 30
unfolding next_ready first_ready
thirty state = refl
