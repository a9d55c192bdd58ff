-- ===== src/TaskManager/Tests.antt =====
-- The theorems on the queue of tasks at a concrete queue.
use boson_native.Prelude.{ℕ, ◌≤◌, false, some, [], ◌∷◌, length, ◌≡◌, refl, arith}
use boson_native.Task.{Task, Methods, new_task, is_done_default, start}
use boson_native.Task.Rounds.{start_returns}
use boson_native.TaskManager.{TaskManager, dequeue}
use boson_native.TaskManager.Bound.{dequeue-active, dequeue_returns}

-- A task that makes no call.
abbrev idle_methods : ℕ → Methods
idle_methods k = record { prepare = λ t. t; update = λ t. t; is_done = is_done_default }

idle-start : (k : ℕ) (t : Task) → (t' : Task) × (start 1 5 (idle_methods k) t ≡ some t')
idle-start k t = start_returns 0 5 (idle_methods k) t (λ s. refl)

abbrev two_waiting : TaskManager
two_waiting = record {
  waiting = 1 ∷ 2 ∷ [];
  active = 3 ∷ [];
  canceling = false;
  tasks = λ k. new_task;
}

dequeue_returns_example : (m' : TaskManager) × (dequeue 3 1 5 idle_methods two_waiting ≡ some m')
dequeue_returns_example = dequeue_returns 3 1 5 idle_methods two_waiting idle-start (omega arith)

abbrev dequeued : (m' : TaskManager) × (dequeue 3 1 5 idle_methods two_waiting ≡ some m')
dequeued = dequeue_returns 3 1 5 idle_methods two_waiting idle-start (omega arith)

dequeue-active_example : length dequeued.0.active ≤ 17
dequeue-active_example =
    dequeue-active 3 1 5 idle_methods two_waiting dequeued.0 (omega arith) dequeued.1
