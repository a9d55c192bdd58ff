-- ===== src/Task/Steps.antt =====
-- The life of a task as a sequence of steps.
use boson_native.Prelude.{ℕ, true, some, ◌≡◌, refl, ap, ◌∙◌, arith, if◌then◌else◌}
use boson_native.Task.{
  Task, Methods, is_terminal, is_finished, cancel, start, on_call_ended, remove_call,
}
use boson_native.Task.Once.{
  Reported, Follows, Honest, cancel-Reported, cancel-Follows, start-Reported, start-Follows,
  serialized_update-Reported, serialized_update-Follows,
}

-- A step of a task: it is started, cancelled, or a call of it ended, with a handler that completes it
-- no more than its methods do.
pub data Step (m : Methods) : Task → Task → Type 0 where
  starting : (rounds now : ℕ) {t t' : Task} → start rounds now m t ≡ some t' → Step m t t'
  cancelling : (now : ℕ) {t : Task} → Step m t (cancel now t)
  ending :
      (rounds now hash : ℕ) (handler : Task → Task) {t t' : Task}
      → ((s : Task) → Reported s → Reported (handler s))
      → on_call_ended rounds now m handler hash t ≡ some t'
      → Step m t t'

pub data Steps (m : Methods) : Task → Task → Type 0 where
  none_left : {t : Task} → Steps m t t
  step : {t t' t'' : Task} → Step m t t' → Steps m t' t'' → Steps m t t''

on_call_ended-Reported :
    (rounds now : ℕ) (m : Methods) (handler : Task → Task) (hash : ℕ) (t t' : Task)
    → Honest m
    → ((s : Task) → Reported s → Reported (handler s))
    → Reported t
    → on_call_ended rounds now m handler hash t ≡ some t'
    → Reported t'
unfolding on_call_ended is_finished
on_call_ended-Reported rounds now m handler hash t t' k f h e =
    let t1 = record t { in_flight = remove_call hash t.in_flight } in
    let t2 = if is_terminal t1.state then t1 else handler t1 in
    let h1 : Reported t1 = h in
    let h2 : Reported t2 = ground (arith, h1, f t1 h1) in
    serialized_update-Reported rounds now m t2 t' k h2 e

on_call_ended-Follows :
    (rounds now : ℕ) (m : Methods) (handler : Task → Task) (hash : ℕ) (t t' : Task)
    → on_call_ended rounds now m handler hash t ≡ some t'
    → Follows t t'
unfolding on_call_ended is_finished
on_call_ended-Follows rounds now m handler hash t t' e h =
    let t1 = record t { in_flight = remove_call hash t.in_flight } in
    let t2 = if is_terminal t1.state then t1 else handler t1 in
    let same : t2 ≡ t1 = ground (arith, h) in
    let h2 : t2.state ≡ t.state = ap (λ (v : Task). v.state) same in
    serialized_update-Follows rounds now m t2 t' e (ap is_terminal h2 ∙ h) ∙ h2

Step-Reported : (m : Methods) (t t' : Task) → Honest m → Step m t t' → Reported t → Reported t'
Step-Reported m t t' k (starting rounds now e) h = start-Reported rounds now m t t' k h e
Step-Reported m t t' k (cancelling now) h = cancel-Reported now t h
Step-Reported m t t' k (ending rounds now hash handler f e) h =
    on_call_ended-Reported rounds now m handler hash t t' k f h e

-- However a task whose methods and handlers do not complete it themselves is started, cancelled and
-- answered: if its completion listeners were notified once exactly when it was finished or cancelled,
-- as for a new task, that holds afterwards.
pub Steps-Reported :
    (m : Methods) (t t' : Task) → Honest m → Steps m t t' → Reported t → Reported t'
Steps-Reported m t t' k none_left h = h
Steps-Reported m t t' k (step {t' = u} s ss) h =
    Steps-Reported m u t' k ss (Step-Reported m t u k s h)

Step-Follows : (m : Methods) (t t' : Task) → Step m t t' → Follows t t'
Step-Follows m t t' (starting rounds now e) h = start-Follows rounds now m t t' e h
Step-Follows m t t' (cancelling now) h = cancel-Follows now t h
Step-Follows m t t' (ending rounds now hash handler f e) h =
    on_call_ended-Follows rounds now m handler hash t t' e h

-- For a task that is finished or cancelled, no sequence of starts, cancellations and ended calls
-- changes the state.
pub Steps-Follows :
    (m : Methods) (t t' : Task) → Steps m t t' → is_terminal t.state ≡ true → t'.state ≡ t.state
Steps-Follows m t t' none_left h = refl
Steps-Follows m t t' (step {t' = u} s ss) h =
    let first = Step-Follows m t u s h in Steps-Follows m u t' ss (ap is_terminal first ∙ h) ∙ first
