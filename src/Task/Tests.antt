-- ===== src/Task/Tests.antt =====
-- The theorems on tasks at a concrete task.
use boson_native.Prelude.{some, ◌≡◌, refl}
use boson_native.Task.{Task, canceled, Methods, new_task, is_done_default, cancel, start}
use boson_native.Task.Once.{Reported, Honest}
use boson_native.Task.Steps.{starting, cancelling, none_left, step, Steps-Reported, Steps-Follows}
use boson_native.Task.Rounds.{start_returns}

-- A task that makes no call.
abbrev idle_methods : Methods
idle_methods = record { prepare = λ t. t; update = λ t. t; is_done = is_done_default }

idle-Honest : Honest idle_methods
idle-Honest = record { prepare = λ t h. h; update = λ t h. h }

abbrev started : (t' : Task) × (start 1 5 idle_methods new_task ≡ some t')
started = start_returns 0 5 idle_methods new_task (λ s. refl)

new_task-Reported : Reported new_task
unfolding new_task
new_task-Reported = refl

Steps-Reported_example : Reported (cancel 9 started.0)
Steps-Reported_example =
    Steps-Reported idle_methods new_task (cancel 9 started.0) idle-Honest
      (step (starting 1 5 started.1) (step (cancelling 9) none_left)) new_task-Reported

abbrev canceled_task : Task
canceled_task = record new_task { state = canceled; notified = 1 }

Steps-Follows_example : (cancel 9 canceled_task).state ≡ canceled
Steps-Follows_example =
    Steps-Follows idle_methods canceled_task (cancel 9 canceled_task)
      (step (cancelling 9) none_left) refl

new_task-lock : new_task.lock ≡ 0
unfolding new_task
new_task-lock = refl
