-- ===== src/TaskManager/Bound.antt =====
-- How many tasks are active, and that `dequeue` ends.
use boson_native.Prelude.{
  ℕ, zero, suc, ◌+◌, ◌≤◌, ◌<◌, some, List, [], ◌∷◌, ◌++◌, length, length-append, ◌≡◌, refl, ap,
  arith, if◌then◌else◌, Bool-cases, Option-cases, List-cases, inl, inr,
}
use boson_native.Task.{Task, Methods, is_finished, start}
use boson_native.TaskManager.{
  TaskManager, remove_if, remove_task, start_task, dequeue, can_start_task, store, max_active_tasks,
}

length-remove_if : (k : ℕ) (is : List ℕ) → length (remove_if k is) ≤ length is
unfolding remove_if
length-remove_if k [] = omega arith
length-remove_if k (i ∷ is) = ground (arith, length-remove_if k is)

-- Starting a task makes neither list longer.
record Starts (m m' : TaskManager) : Type 0 where
  active : length m'.active ≤ length m.active
  waiting : length m'.waiting ≤ length m.waiting

start_task-Starts :
    (rounds now : ℕ) (methods : ℕ → Methods) (k : ℕ) (m m' : TaskManager)
    → start_task rounds now methods k m ≡ some m'
    → Starts m m'
unfolding start_task remove_task
start_task-Starts rounds now methods k m m' e =
    elim (Option-cases (start rounds now (methods k) (m.tasks k))) [
      | inl gone ↦ absurd (ground arith)
      | inr (t, found) ↦
          let stored = store k t m in
          elim (Bool-cases (is_finished t)) [
            | inl over ↦
                let same : remove_task k stored ≡ m' = ground arith in
                rw (← same) (record {
                  active = length-remove_if k m.active;
                  waiting = length-remove_if k m.waiting;
                })
            | inr on ↦
                let same : stored ≡ m' = ground arith in
                rw (← same) (record { active = omega arith; waiting = omega arith })
          ]
    ]

-- A `dequeue` that finds at most seventeen active tasks leaves at most seventeen.
pub dequeue-active :
    (fuel rounds now : ℕ) (methods : ℕ → Methods) (m m' : TaskManager)
    → length m.active ≤ max_active_tasks + 1
    → dequeue fuel rounds now methods m ≡ some m'
    → length m'.active ≤ max_active_tasks + 1
unfolding dequeue can_start_task
dequeue-active zero rounds now methods m m' h e = cc
dequeue-active (suc fuel) rounds now methods m m' h e = elim (List-cases m.waiting) [
  | inl w ↦ ground (arith, w, e, h)
  | inr (k, ks, w) ↦
      let popped = record m { waiting = ks } in
      let entered = record popped { active = m.active ++ k ∷ [] } in
      let size = length-append m.active (k ∷ []) in
      elim (Option-cases (start_task rounds now methods k entered)) [
        | inl gone ↦
            ground (arith, w, e, h, gone, dequeue-active fuel rounds now methods popped m' h)
        | inr (s, found) ↦
            let grows = start_task-Starts rounds now methods k entered s found in
            let bound = grows.active in
            ground (
              arith,
              w,
              e,
              h,
              found,
              dequeue-active fuel rounds now methods popped m' h,
              dequeue-active fuel rounds now methods s m',
            )
      ]
]

start_task_returns :
    (rounds now : ℕ) (methods : ℕ → Methods) (k : ℕ) (n : TaskManager)
    → ((k : ℕ) (t : Task) → (t' : Task) × (start rounds now (methods k) t ≡ some t'))
    → (n' : TaskManager) × (start_task rounds now methods k n ≡ some n')
unfolding start_task
start_task_returns rounds now methods k n s =
    let r = s k (n.tasks k) in
    let stored = store k r.0 n in
    ((if is_finished r.0 then remove_task k stored else stored), ground (arith, r.1))

-- If every task starts, `dequeue` ends after at most one round for each waiting task and one more.
pub dequeue_returns :
    (fuel rounds now : ℕ) (methods : ℕ → Methods) (m : TaskManager)
    → ((k : ℕ) (t : Task) → (t' : Task) × (start rounds now (methods k) t ≡ some t'))
    → length m.waiting < fuel
    → (m' : TaskManager) × (dequeue fuel rounds now methods m ≡ some m')
unfolding dequeue
dequeue_returns zero rounds now methods m s h = elim h [ ]
dequeue_returns (suc fuel) rounds now methods m s h = elim (List-cases m.waiting) [
  | inl w ↦ (m, rw w refl)
  | inr (k, ks, w) ↦
      let popped = record m { waiting = ks } in
      let entered = record popped { active = m.active ++ k ∷ [] } in
      let size = ap length w in
      let started = start_task_returns rounds now methods k entered s in
      let grows = start_task-Starts rounds now methods k entered started.0 started.1 in
      let bound = grows.waiting in
      let skips = dequeue_returns fuel rounds now methods popped s (omega arith) in
      let goes = dequeue_returns fuel rounds now methods started.0 s (omega arith) in
      elim (Bool-cases (can_start_task m)) [
        | inr full ↦ (m, ground (arith, w, full))
        | inl free ↦ elim (Bool-cases (is_finished (m.tasks k))) [
          | inl over ↦ (skips.0, ground (arith, w, free, over, skips.1))
          | inr on ↦ (goes.0, ground (arith, w, free, on, started.1, goes.1))
        ]
      ]
]
