-- ===== src/TaskManager.antt =====
-- src/core/task/task_manager.h and task_manager.cc: the queue of tasks. Tasks are shared objects: the
-- lists hold their numbers, and `tasks` is the store. The mutex is left out: one operation at a time.
pub mod Bound
mod Tests
use boson_native.Prelude.{
  ℕ, zero, suc, ◌+◌, ◌≤◌, Bool, true, false, not, ◌&&◌, ◌||◌, Option, none, some, List, [], ◌∷◌,
  ◌++◌, length, leb, ◌==◌, if◌then◌else◌,
}
use boson_native.Task
use boson_native.Task.{
  Task, State, initial, queued, running, Methods, set_state, is_finished, cancel,
}

pub record TaskManager : Type 0 where
  pub waiting : List ℕ
  pub active : List ℕ
  pub canceling : Bool
  pub tasks : ℕ → Task

abbrev pub max_active_tasks : ℕ
max_active_tasks = 16

abbrev pub store : ℕ → Task → TaskManager → TaskManager
store k t m = record m { tasks = λ i. if i == k then t else m.tasks i }

pub is_running : State → Bool
is_running running = true
is_running s = false

pub add : ℕ → Bool → TaskManager → TaskManager
add k prior m =
    let r = set_state (initial ∷ []) queued (m.tasks k) in
    let m' = store k r.0 m in
    if m.canceling
    then m
    else if is_running (m.tasks k).state
    then record m { active = m.active ++ k ∷ [] }
    else if not r.1
    then m
    else if prior
    then record m' { waiting = k ∷ m.waiting }
    else record m' { waiting = m.waiting ++ k ∷ [] }

pub can_start_task : TaskManager → Bool
can_start_task m = not m.canceling && leb (length m.active) max_active_tasks

pub remove_if : ℕ → List ℕ → List ℕ
remove_if k [] = []
remove_if k (i ∷ is) = let rest = remove_if k is in if i == k then rest else i ∷ rest

pub remove_task : ℕ → TaskManager → TaskManager
remove_task k m = record m { waiting = remove_if k m.waiting; active = remove_if k m.active }

-- `task->start()` inside `dequeue`: a task that is finished at once removes itself.
pub start_task : ℕ → ℕ → (ℕ → Methods) → ℕ → TaskManager → Option TaskManager
start_task rounds now methods k m = elim (Task.start rounds now (methods k) (m.tasks k)) [
  | none ↦ none
  | some t ↦ let m' = store k t m in some (if is_finished t then remove_task k m' else m')
]

-- The loop of `dequeue`, on the tasks that wait. `rounds` bounds the updates of each task.
pub dequeue : ℕ → ℕ → ℕ → (ℕ → Methods) → TaskManager → Option TaskManager
dequeue zero rounds now methods m = none
dequeue (suc fuel) rounds now methods m = elim m.waiting [
  | [] ↦ some m
  | k ∷ ks ↦
      let popped = record m { waiting = ks } in
      let entered = record popped { active = m.active ++ k ∷ [] } in
      let skipped = dequeue fuel rounds now methods popped in
      let started : Option TaskManager = elim (start_task rounds now methods k entered) [
        | none ↦ none
        | some m' ↦ dequeue fuel rounds now methods m'
      ] in
      if not (can_start_task m)
      then some m
      else if is_finished (m.tasks k)
      then skipped
      else started
]

pub cancel_each : ℕ → List ℕ → TaskManager → TaskManager
cancel_each now [] m = m
cancel_each now (k ∷ ks) m = cancel_each now ks (store k (cancel now (m.tasks k)) m)

pub cancel_all : ℕ → TaskManager → TaskManager
cancel_all now m =
    let m1 = cancel_each now m.active (record m { canceling = true }) in
    record (cancel_each now m.waiting m1) { canceling = false }
