-- ===== src/Task/Chain.antt =====
-- The list of tasks that kernel/src/tasking/task.c keeps, and what `task_add` does to it.
use mathlib.Core.Path.{subst}
use deer.Base.{
  ℕ, zero, suc, ◌<◌, ◌≡◌, ◌≢◌, refl, sym, ap, ◌∙◌, arith, false, some, List, [], ◌∷◌, ◌++◌, ◌==◌,
  update, update_self, update_other, length,
}
use deer.Task.{Task, Tasking, last_loop, link_last, task_add}

-- From `head`, the `next` pointers go through the list and end in NULL.
unfoldable pub Chain : (ℕ → Task) → (head : ℕ) → List ℕ → Type 0
Chain tasks head [] = head ≡ 0
Chain tasks head (t ∷ ts) = (head ≡ t) × (0 < t) × Chain tasks ((tasks t).next) ts

-- `t` is in no place of the list.
unfoldable pub Fresh : ℕ → List ℕ → Type 0
Fresh t [] = Unit {0}
Fresh t (a ∷ ts) = (t ≢ a) × Fresh t ts

-- No address stands twice.
unfoldable pub Distinct : List ℕ → Type 0
Distinct [] = Unit {0}
Distinct (a ∷ ts) = Fresh a ts × Distinct ts

pub Chain-frame :
    (tasks tasks' : ℕ → Task) (t head : ℕ) (ts : List ℕ)
    → ((a : ℕ) → t ≢ a → (tasks' a).next ≡ (tasks a).next)
    → Fresh t ts
    → Chain tasks head ts
    → Chain tasks' head ts
unfolding Chain Fresh
Chain-frame tasks tasks' t head [] same f c = c
Chain-frame tasks tasks' t head (a ∷ ts) same f c = (
  c.0,
  c.1,
  Chain-frame tasks tasks' t ((tasks' a).next) ts same f.1
      (subst (λ n. Chain tasks n ts) (sym (same a f.0)) c.2),
)

-- Storing `next` in the task at `last`.
abbrev linked : (last t : ℕ) → (ℕ → Task) → ℕ → Task
linked last t tasks = update tasks last (record (tasks last) { next = t })

linked-next :
    (last t : ℕ) (tasks : ℕ → Task) (a : ℕ)
    → last ≢ a
    → (linked last t tasks a).next ≡ (tasks a).next
linked-next last t tasks a ne =
    ap (λ (x : Task). x.next) (update_other tasks last a _ (λ (e : a ≡ last). ne (sym e)))

-- What the loop finds is the end of the list, where a task can be linked.
Linked : (tasks : ℕ → Task) (t head last : ℕ) → List ℕ → Type 0
Linked tasks t head last ts =
    Chain (linked last t tasks) head (ts ++ t ∷ []) × ((x : ℕ) → Fresh x ts → x ≢ last)

last_loop-Linked :
    (fuel : ℕ) (tasks : ℕ → Task) (t a : ℕ) (ts : List ℕ)
    → Chain tasks a (a ∷ ts)
    → Distinct (a ∷ ts)
    → Fresh t (a ∷ ts)
    → 0 < t
    → (tasks t).next ≡ 0
    → length ts < fuel
    → (last : ℕ) × (last_loop fuel a tasks ≡ some last) × Linked tasks t a last (a ∷ ts)
unfolding last_loop Linked Chain Distinct Fresh
last_loop-Linked zero tasks t a ts c d f pos end enough = absurd (omega arith)
last_loop-Linked (suc fuel) tasks t a [] c d f pos end enough = (
  a,
  rw c.2 refl,
  (
    (
      refl,
      c.1,
      (
        ap (λ (x : Task). x.next) (update_self tasks a (record (tasks a) { next = t })),
        pos,
        linked-next a t tasks t (λ e. f.0 (sym e)) ∙ end,
      ),
    ),
    λ x g. g.0,
  ),
)
last_loop-Linked (suc fuel) tasks t a (b ∷ ts) c d f pos end enough =
    let (last, e, l) =
      last_loop-Linked fuel tasks t b ts (refl, c.2.1, c.2.2) d.1 f.1 pos end (omega arith) in
    (
      last,
      rw not-zero (ap (λ n. last_loop fuel n tasks) c.2.0 ∙ e),
      (
        (
          refl,
          c.1,
          subst (λ n. Chain (linked last t tasks) n (b ∷ ts ++ t ∷ []))
              (sym (linked-next last t tasks a (λ q. l.1 a d.0 (sym q)) ∙ c.2.0)) l.0,
        ),
        λ x g. l.1 x g.1,
      ),
    )
  where
    not-zero : ((tasks a).next == 0) ≡ false
    not-zero = ground (arith, c.2.0, c.2.1)

-- From a list of distinct tasks, `task_add` ends and puts a task that is not in the list, and whose
-- `next` is NULL, behind the others, with more fuel than there are tasks; `task_list` is only set
-- when it was NULL.
pub task_add-Chain :
    (fuel t : ℕ) (k : Tasking) (ts : List ℕ)
    → Chain k.tasks k.task_list ts
    → Distinct ts
    → Fresh t ts
    → 0 < t
    → (k.tasks t).next ≡ 0
    → length ts < fuel
    → (k' : Tasking) × (task_add fuel t k ≡ some k')
      × Chain k'.tasks k'.task_list (ts ++ t ∷ [])
      × (k'.current_task ≡ k.current_task)
unfolding task_add link_last Chain Distinct Fresh Linked
task_add-Chain fuel t k [] c d f pos end enough =
    (record k { task_list = t }, rw (ap (λ n. n == 0) c) refl, (refl, pos, end), refl)
task_add-Chain fuel t k (a ∷ ts) c d f pos end enough =
    let (last, e, l) =
      last_loop-Linked fuel k.tasks t a ts (refl, c.1, c.2) d f pos end (omega arith) in
    (
      record k { tasks = linked last t k.tasks },
      rw not_empty (ap (λ x. link_last t x k) (ap (λ n. last_loop fuel n k.tasks) c.0 ∙ e)),
      subst (λ n. Chain (linked last t k.tasks) n (a ∷ ts ++ t ∷ [])) (sym c.0) l.0,
      refl,
    )
  where
    not_empty : (k.task_list == 0) ≡ false
    not_empty = ground (arith, c.0, c.1)
