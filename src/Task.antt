-- ===== src/Task.antt =====
-- src/core/task/task.h and task.cc: one task and its states. The methods that the tasks override are
-- a record of functions; the other thread that `lock` guards against is the re-entrant call that
-- `update` makes. Notified listeners are counted. The nested task is left to the caller.
pub mod Once
pub mod Steps
pub mod Rounds
mod Tests
use boson_native.Prelude.{
  ℕ, zero, suc, ◌+◌, ◌-◌, Bool, true, false, not, ◌&&◌, ◌||◌, Option, none, some, List, [], ◌∷◌,
  ◌++◌, length, ltb, leb, ◌==◌, if◌then◌else◌,
}

pub data State : Type 0 where
  initial queued running finished canceled : State

pub record Task : Type 0 where
  pub state : State
  pub start_time : ℕ
  pub finish_time : ℕ
  -- The hashes of the calls that wait for an answer.
  pub in_flight : List ℕ
  pub lock : ℕ
  -- How often the completion listeners were notified.
  pub notified : ℕ

-- The virtual methods.
pub record Methods : Type 0 where
  pub prepare : Task → Task
  pub update : Task → Task
  pub is_done : Task → Bool

abbrev pub max_concurrent_task_requests : ℕ
max_concurrent_task_requests = 10

pub new_task : Task
new_task = record {
  state = initial;
  start_time = 0;
  finish_time = 0;
  in_flight = [];
  lock = 0;
  notified = 0;
}

abbrev pub same_state : State → State → Bool
same_state initial initial = true
same_state queued queued = true
same_state running running = true
same_state finished finished = true
same_state canceled canceled = true
same_state s t = false

abbrev pub one_of : State → List State → Bool
one_of s [] = false
one_of s (t ∷ ts) = same_state t s || one_of s ts

-- The new task, and whether the state was one of those expected.
pub set_state : List State → State → Task → Task × Bool
set_state expected new t =
    if one_of t.state expected then (record t { state = new }, true) else (t, false)

abbrev pub is_terminal : State → Bool
is_terminal finished = true
is_terminal canceled = true
is_terminal s = false

pub is_finished : Task → Bool
is_finished t = is_terminal t.state

pub can_do_request : Task → Bool
can_do_request t = ltb (length t.in_flight) max_concurrent_task_requests

-- `addListener` calls a listener that comes too late.
pub add_listener : Task → Bool
add_listener t = is_terminal t.state

-- `Task::isDone`, which the lookups extend.
pub is_done_default : Task → Bool
is_done_default t = elim t.in_flight [ [] ↦ true | call ∷ calls ↦ is_terminal t.state ]

abbrev pub complete : ℕ → Task → Task
complete now t = record t { finish_time = now; notified = t.notified + 1 }

pub finish : ℕ → Task → Task
unfolding set_state
finish now t =
    let r = set_state (initial ∷ queued ∷ running ∷ []) finished t in
    if r.1 then complete now r.0 else r.0

pub cancel : ℕ → Task → Task
unfolding set_state
cancel now t =
    let r = set_state (initial ∷ queued ∷ running ∷ []) canceled t in
    if r.1 then complete now r.0 else r.0

-- The body of the loop of `serializedUpdate`.
pub update_once : ℕ → Methods → Task → Task
update_once now m t =
    let t1 = if m.is_done t then finish now t else t in
    let t2 = m.update t1 in
    let t3 = if m.is_done t2 then finish now t2 else t2 in
    if can_do_request t1 && not (is_finished t1) then t3 else t1

-- The loop, for `current` requested updates; `none` when the rounds run out.
pub update_loop : ℕ → ℕ → Methods → ℕ → Task → Option Task
update_loop zero now m current t = none
update_loop (suc rounds) now m current t =
    let t1 = update_once now m t in
    let t2 = record t1 { lock = t1.lock - current } in
    let rest = update_loop rounds now m t2.lock t2 in if t2.lock == 0 then some t2 else rest

-- Whether the task is to be removed from the manager is `is_finished` of the result.
pub serialized_update : ℕ → ℕ → Methods → Task → Option Task
serialized_update rounds now m t =
    let t1 = record t { lock = t.lock + 1 } in
    if ltb 1 t1.lock then some t1 else update_loop rounds now m t1.lock t1

pub start : ℕ → ℕ → Methods → Task → Option Task
start rounds now m t =
    let r = set_state (initial ∷ queued ∷ []) running t in
    let t1 = m.prepare (record r.0 { start_time = now }) in
    if r.1 then serialized_update rounds now m t1 else some t

-- `removeCall`.
pub remove_call : ℕ → List ℕ → List ℕ
remove_call h [] = []
remove_call h (c ∷ cs) = let rest = remove_call h cs in if c == h then cs else c ∷ rest

-- `sendCall` up to the call of the server: the task, and whether the call is sent.
pub send_call : ℕ → Task → Task × Bool
send_call hash t =
    if can_do_request t
    then (record t { in_flight = hash ∷ remove_call hash t.in_flight }, true)
    else (t, false)

-- What a call that ended does to the task: `handler` is `callResponsed`, `callError` or `callTimeout`.
pub on_call_ended : ℕ → ℕ → Methods → (Task → Task) → ℕ → Task → Option Task
on_call_ended rounds now m handler hash t =
    let t1 = record t { in_flight = remove_call hash t.in_flight } in
    let t2 = if is_finished t1 then t1 else handler t1 in serialized_update rounds now m t2
