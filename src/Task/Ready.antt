-- ===== src/Task/Ready.antt =====
-- The task that `task_get_next_ready` of kernel/src/tasking/task.c finds.
use deer.Base.{
  ℕ, zero, suc, ◌<◌, ◌≤◌, ◌≡◌, ◌≢◌, refl, sym, ap, ◌∙◌, arith, true, false, some, List, [], ◌∷◌,
  ◌++◌, inl, inr, Bool-cases, ◌==◌, if◌then◌else◌, length, length-append,
}
use deer.Task.{Task, Tasking, ready_loop, search_again, task_get_next_ready, task_state_ready}
use deer.Task.Chain.{Chain, Fresh, Distinct}

-- The first task of a list that is ready, 0 for none.
unfoldable pub first_ready : (ℕ → Task) → List ℕ → ℕ
first_ready tasks [] = 0
first_ready tasks (t ∷ ts) = if (tasks t).state == task_state_ready then t else first_ready tasks ts

-- Round robin: the tasks behind the current one come before those in front of it.
unfoldable pub next_ready : (ℕ → Task) → (before after : List ℕ) → ℕ
next_ready tasks before after =
    if first_ready tasks after == 0 then first_ready tasks before else first_ready tasks after

chosen : (s a b : ℕ) → (if s == 0 then some a else some b) ≡ some (if s == 0 then a else b)
chosen s a b = elim (Bool-cases (s == 0)) [ inl e ↦ rw e refl | inr e ↦ rw e refl ]

==-false : (a b : ℕ) → a ≢ b → (a == b) ≡ false
==-false a b ne = elim (Bool-cases (a == b)) [ inl e ↦ absurd (ne (ground arith)) | inr e ↦ e ]

ready_loop-last :
    (fuel : ℕ) (tasks : ℕ → Task) (head : ℕ) (ts : List ℕ)
    → Chain tasks head ts
    → length ts < fuel
    → ready_loop fuel 0 head tasks ≡ some (first_ready tasks ts)
unfolding ready_loop first_ready Chain
ready_loop-last zero tasks head ts c enough = absurd (omega arith)
ready_loop-last (suc fuel) tasks head [] c enough = rw (ap (λ n. n == 0) c) refl
ready_loop-last (suc fuel) tasks head (t ∷ ts) c enough =
    ap (λ n. ready_loop (suc fuel) 0 n tasks) c.0
    ∙ rw (positive, ready_loop-last fuel tasks (tasks t).next ts c.2 (omega arith))
        (chosen (tasks t).state t (first_ready tasks ts))
  where
    positive : (t == 0) ≡ false
    positive = ground (arith, c.1)

ready_loop-before :
    (fuel cur : ℕ) (tasks : ℕ → Task) (head : ℕ) (before after : List ℕ)
    → Chain tasks head (before ++ cur ∷ after)
    → Fresh cur before
    → length before < fuel
    → ready_loop fuel cur head tasks ≡ some (first_ready tasks before)
unfolding ready_loop first_ready Chain Fresh
ready_loop-before zero cur tasks head before after c f enough = absurd (omega arith)
ready_loop-before (suc fuel) cur tasks head [] after c f enough =
    ap (λ n. ready_loop (suc fuel) cur n tasks) c.0 ∙ rw (itself, positive) refl
  where
    positive : (cur == 0) ≡ false
    positive = ground (arith, c.1)

    itself : (cur == cur) ≡ true
    itself = ground arith
ready_loop-before (suc fuel) cur tasks head (t ∷ ts) after c f enough =
    ap (λ n. ready_loop (suc fuel) cur n tasks) c.0
    ∙ rw
        (
          positive,
          other,
          ready_loop-before fuel cur tasks (tasks t).next ts after c.2 f.1 (omega arith),
        )
        (chosen (tasks t).state t (first_ready tasks ts))
  where
    positive : (t == 0) ≡ false
    positive = ground (arith, c.1)

    other : (t == cur) ≡ false
    other = ==-false t cur (λ e. f.0 (sym e))

-- The rest of a list from one of its tasks on.
pub Chain-after :
    (tasks : ℕ → Task) (head cur : ℕ) (before after : List ℕ)
    → Chain tasks head (before ++ cur ∷ after)
    → (0 < cur) × Chain tasks (tasks cur).next after
unfolding Chain
Chain-after tasks head cur [] after c = (c.1, c.2)
Chain-after tasks head cur (t ∷ ts) after c = Chain-after tasks (tasks t).next cur ts after c.2

length-before : (cur : ℕ) (before after : List ℕ) → length before < length (before ++ cur ∷ after)
length-before cur before after = omega (arith, length-append {0} before (cur ∷ after))

length-after : (cur : ℕ) (before after : List ℕ) → length after < length (before ++ cur ∷ after)
length-after cur before after = omega (arith, length-append {0} before (cur ∷ after))

Fresh-before :
    (cur : ℕ) (before after : List ℕ) → Distinct (before ++ cur ∷ after) → Fresh cur before
unfolding Fresh Distinct
Fresh-before cur [] after d = tt
Fresh-before cur (t ∷ ts) after d = (cur_is_not ts d.0, Fresh-before cur ts after d.1)
  where
    cur_is_not : (rest : List ℕ) → Fresh t (rest ++ cur ∷ after) → cur ≢ t
    cur_is_not [] f = λ e. f.0 (sym e)
    cur_is_not (x ∷ xs) f = cur_is_not xs f.1

search_again-found :
    (fuel a : ℕ) (k : Tasking) (b : ℕ)
    → ready_loop fuel k.current_task k.task_list k.tasks ≡ some b
    → search_again fuel (some a) k ≡ some (if a == 0 then b else a)
unfolding search_again
search_again-found fuel a k b e = ap (λ x. if a == 0 then x else some a) e ∙ chosen a b a

-- In a list of distinct tasks that the current one stands in, with more fuel than there are tasks,
-- the search ends, with the first ready task behind the current one, if there is none with the
-- first in front of it, and with NULL if there is neither.
pub get_next_ready-round_robin :
    (fuel : ℕ) (k : Tasking) (before after : List ℕ)
    → Chain k.tasks k.task_list (before ++ k.current_task ∷ after)
    → Distinct (before ++ k.current_task ∷ after)
    → length (before ++ k.current_task ∷ after) ≤ fuel
    → task_get_next_ready fuel k ≡ some (next_ready k.tasks before after)
unfolding task_get_next_ready next_ready
get_next_ready-round_robin fuel k before after c d enough = rw positive (
    ap (λ x. search_again fuel x k)
      (ready_loop-last fuel k.tasks (k.tasks k.current_task).next after rest.1
        (omega (arith, length-after k.current_task before after)))
    ∙ search_again-found fuel (first_ready k.tasks after) k (first_ready k.tasks before) (
        ready_loop-before fuel k.current_task k.tasks k.task_list before after c
          (Fresh-before k.current_task before after d)
          (omega (arith, length-before k.current_task before after))))
  where
    rest : (0 < k.current_task) × Chain k.tasks (k.tasks k.current_task).next after
    rest = Chain-after k.tasks k.task_list k.current_task before after c

    positive : (k.current_task == 0) ≡ false
    positive = ground (arith, rest.0)
