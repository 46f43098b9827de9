-- ===== src/Task/Tick.antt =====
-- What `task_scheduler_tick` of kernel/src/tasking/task.c does to the states of the tasks.
use mathlib.Core.Path.{subst}
use deer.Base.{
  ==_iff, ℕ, ◌≤◌, ◌≡◌, ◌≢◌, ◌↔◌, refl, sym, ap, ◌∙◌, arith, Bool, true, false, some, List, [], ◌∷◌,
  ◌++◌, inl, inr, Bool-cases, ◌==◌, ◌||◌, if◌then◌else◌, length, update_self, update_other,
}
use deer.Task.{
  Task, Tasking, set_state, switch_tasks, switch_found, task_get_next_ready, task_scheduler_tick,
  task_state_ready, task_state_running,
}
use deer.Task.Chain.{Chain, Distinct}
use deer.Task.Ready.{next_ready, Chain-after, get_next_ready-round_robin}

-- Of the tasks in the list the current one is running and no other.
unfoldable pub OneRuns : (ℕ → Task) → (current : ℕ) → List ℕ → Type 0
OneRuns tasks current [] = Unit {0}
OneRuns tasks current (t ∷ ts) =
    ((tasks t).state ≡ task_state_running ↔ (t ≡ current)) × OneRuns tasks current ts

-- The states after a switch.
abbrev switched : (cur n : ℕ) → (ℕ → Task) → ℕ → Task
switched cur n tasks = set_state n task_state_running (set_state cur task_state_ready tasks)

set_state-next :
    (c s : ℕ) (tasks : ℕ → Task) (t : ℕ) → (set_state c s tasks t).next ≡ (tasks t).next
set_state-next c s tasks t = elim (Bool-cases (t == c)) [
  | inl a ↦
      subst (λ y. (set_state c s tasks y).next ≡ (tasks y).next) (sym ((==_iff t c).0 a))
        (ap (λ (x : Task). x.next) (update_self tasks c (record (tasks c) { state = s })))
  | inr a ↦
      ap (λ (x : Task). x.next)
        (update_other tasks c t (record (tasks c) { state = s }) (λ (e : t ≡ c). ground arith))
]

set_state-state :
    (c s : ℕ) (tasks : ℕ → Task) (t : ℕ)
    → (set_state c s tasks t).state ≡ (if t == c then s else (tasks t).state)
set_state-state c s tasks t = elim (Bool-cases (t == c)) [
  | inl a ↦
      subst (λ y. (set_state c s tasks y).state ≡ s) (sym ((==_iff t c).0 a))
        (ap (λ (x : Task). x.state) (update_self tasks c (record (tasks c) { state = s })))
      ∙ sym (ap (λ (b : Bool). if b then s else (tasks t).state) a)
  | inr a ↦
      ap (λ (x : Task). x.state)
        (update_other tasks c t (record (tasks c) { state = s }) (λ (e : t ≡ c). ground arith))
      ∙ sym (ap (λ (b : Bool). if b then s else (tasks t).state) a)
]

switched-next :
    (cur n : ℕ) (tasks : ℕ → Task) (t : ℕ) → (switched cur n tasks t).next ≡ (tasks t).next
switched-next cur n tasks t =
    set_state-next n task_state_running (set_state cur task_state_ready tasks) t
    ∙ set_state-next cur task_state_ready tasks t

switched-state :
    (cur n : ℕ) (tasks : ℕ → Task) (t : ℕ)
    → (switched cur n tasks t).state
      ≡ (if t == n then 1 else (if t == cur then 0 else (tasks t).state))
switched-state cur n tasks t =
    set_state-state n task_state_running (set_state cur task_state_ready tasks) t
    ∙ ap (λ x. if t == n then task_state_running else x)
        (set_state-state cur task_state_ready tasks t)

Chain-same :
    (tasks tasks' : ℕ → Task) (head : ℕ) (ts : List ℕ)
    → ((a : ℕ) → (tasks' a).next ≡ (tasks a).next)
    → Chain tasks head ts
    → Chain tasks' head ts
unfolding Chain
Chain-same tasks tasks' head [] same c = c
Chain-same tasks tasks' head (t ∷ ts) same c = (
  c.0,
  c.1,
  Chain-same tasks tasks' (tasks' t).next ts same
      (subst (λ n. Chain tasks n ts) (sym (same t)) c.2),
)

one_state :
    (t n cur s : ℕ)
    → (s ≡ 1 ↔ (t ≡ cur))
    → (if t == n then 1 else (if t == cur then 0 else s)) ≡ 1 ↔ (t ≡ n)
one_state t n cur s h = (λ e. ground (arith, h.0), λ e. ground arith)

switched-OneRuns :
    (cur n : ℕ) (tasks : ℕ → Task) (ts : List ℕ)
    → OneRuns tasks cur ts
    → OneRuns (switched cur n tasks) n ts
unfolding OneRuns
switched-OneRuns cur n tasks [] h = tt
switched-OneRuns cur n tasks (t ∷ ts) h = (
  subst (λ s. s ≡ 1 ↔ (t ≡ n)) (sym (switched-state cur n tasks t))
      (one_state t n cur (tasks t).state h.0),
  switched-OneRuns cur n tasks ts h.1,
)

-- The task that has the processor after a tick.
abbrev pub chosen : (next current : ℕ) → ℕ
chosen next current = if next == 0 then current else next

stay : (n c : ℕ) → (n == 0 || n == c) ≡ true → c ≡ chosen n c
stay n c h = ground arith

move : (n c : ℕ) → (n == 0 || n == c) ≡ false → n ≡ chosen n c
move n c h = ground arith

stay_test : (n c : ℕ) → (n == 0 || n == c) ≡ true → (chosen n c == c) ≡ true
stay_test n c h = ground arith

move_test : (n c : ℕ) → (n == 0 || n == c) ≡ false → (chosen n c == c) ≡ false
move_test n c h = ground arith

apart : (n c : ℕ) → n ≢ 0 → n ≢ c → (n == 0 || n == c) ≡ false
apart n c p q = elim (Bool-cases (n == 0)) [
  | inl a ↦ absurd (p ((==_iff n 0).0 a))
  | inr a ↦ elim (Bool-cases (n == c)) [
    | inl b ↦ absurd (q ((==_iff n c).0 b))
    | inr b ↦ rw (a, b) refl
  ]
]

requeued : (c n s : ℕ) → c ≢ n → (if c == n then 1 else (if c == c then 0 else s)) ≡ 0
requeued c n s ne = elim (Bool-cases (c == n)) [
  | inl a ↦ absurd (ne ((==_iff c n).0 a))
  | inr a ↦ rw a (ground arith)
]

tick-switches :
    (fuel : ℕ) (k : Tasking) (before after : List ℕ)
    → Chain k.tasks k.task_list (before ++ k.current_task ∷ after)
    → Distinct (before ++ k.current_task ∷ after)
    → length (before ++ k.current_task ∷ after) ≤ fuel
    → task_scheduler_tick fuel k ≡ some (switch_tasks (next_ready k.tasks before after) k)
unfolding task_scheduler_tick switch_found
tick-switches fuel k before after c d enough =
    ap (λ (b : Bool). if b then some k else switch_found (task_get_next_ready fuel k) k) positive
    ∙ ap (λ x. switch_found x k) (get_next_ready-round_robin fuel k before after c d enough)
  where
    positive : (k.current_task == 0) ≡ false
    positive = ground (arith, (Chain-after k.tasks k.task_list k.current_task before after c).0)

-- A tick on a list of distinct tasks that the current one stands in ends, with more fuel than there
-- are tasks. The list stays as it is. The processor goes to the round-robin choice if there is one,
-- and if the current task was the only one running, the task that has the processor then is;
-- `current_task` still names the task that had it before.
pub tick-OneRuns :
    (fuel : ℕ) (k : Tasking) (before after : List ℕ)
    → Chain k.tasks k.task_list (before ++ k.current_task ∷ after)
    → Distinct (before ++ k.current_task ∷ after)
    → length (before ++ k.current_task ∷ after) ≤ fuel
    → OneRuns k.tasks k.current_task (before ++ k.current_task ∷ after)
    → let next = chosen (next_ready k.tasks before after) k.current_task in
      (k' : Tasking) × (task_scheduler_tick fuel k ≡ some k')
      × Chain k'.tasks k'.task_list (before ++ k.current_task ∷ after)
      × (k'.switches
          ≡ (if next == k.current_task then k.switches else (k.current_task, next) ∷ k.switches))
      × OneRuns k'.tasks next (before ++ k.current_task ∷ after)
      × (k'.current_task ≡ k.current_task)
unfolding switch_tasks
tick-OneRuns fuel k before after c d enough one = (
  switch_tasks n k,
  tick-switches fuel k before after c d enough,
  after_switch.0,
  after_switch.1,
  after_switch.2,
  after_switch.3,
)
  where
    n : ℕ
    n = next_ready k.tasks before after

    next : ℕ
    next = chosen n k.current_task

    whole : List ℕ
    whole = before ++ k.current_task ∷ after

    logged : Bool → List (ℕ × ℕ)
    logged b = if b then k.switches else (k.current_task, next) ∷ k.switches

    after_switch :
        Chain (switch_tasks n k).tasks (switch_tasks n k).task_list whole
        × ((switch_tasks n k).switches ≡ logged (next == k.current_task))
        × OneRuns (switch_tasks n k).tasks next whole
        × ((switch_tasks n k).current_task ≡ k.current_task)
    after_switch = elim (Bool-cases (n == 0 || n == k.current_task)) [
      | inl stays ↦ rw stays (
        c,
        sym (ap logged (stay_test n k.current_task stays)),
        subst (λ x. OneRuns k.tasks x whole) (stay n k.current_task stays) one,
        refl,
      )
      | inr moves ↦ rw moves (
        Chain-same k.tasks (switched k.current_task n k.tasks) k.task_list _
            (switched-next k.current_task n k.tasks) c,
        ap (λ x. (k.current_task, x) ∷ k.switches) (move n k.current_task moves)
            ∙ sym (ap logged (move_test n k.current_task moves)),
        subst (λ x. OneRuns (switched k.current_task n k.tasks) x whole)
            (move n k.current_task moves) (switched-OneRuns k.current_task n k.tasks whole one),
        refl,
      )
    ]

-- The tick makes the task that it takes the processor from ready, whatever its state was: a task
-- that had marked itself blocked or exited before the tick is run again.
pub tick-requeues :
    (fuel : ℕ) (k : Tasking) (before after : List ℕ)
    → Chain k.tasks k.task_list (before ++ k.current_task ∷ after)
    → Distinct (before ++ k.current_task ∷ after)
    → length (before ++ k.current_task ∷ after) ≤ fuel
    → next_ready k.tasks before after ≢ 0
    → next_ready k.tasks before after ≢ k.current_task
    → (k' : Tasking) × (task_scheduler_tick fuel k ≡ some k')
      × ((k'.tasks k.current_task).state ≡ task_state_ready)
unfolding switch_tasks
tick-requeues fuel k before after c d enough some_task other = (
  switch_tasks n k,
  tick-switches fuel k before after c d enough,
  rw moves (
      switched-state k.current_task n k.tasks k.current_task
      ∙ requeued k.current_task n (k.tasks k.current_task).state (λ e. other (sym e))),
)
  where
    n : ℕ
    n = next_ready k.tasks before after

    moves : (n == 0 || n == k.current_task) ≡ false
    moves = apart n k.current_task some_task other
