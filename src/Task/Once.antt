-- ===== src/Task/Once.antt =====
-- Completion is final, and is reported once.
use boson_native.Prelude.{
  ℕ, zero, suc, ◌+◌, ◌-◌, true, not, ◌&&◌, some, [], ◌∷◌, ltb, ◌==◌, ◌≡◌, ap, sym, subst, ◌∙◌,
  arith, if◌then◌else◌, Bool-cases, inl, inr,
}
use boson_native.Task.{
  Task, initial, queued, running, Methods, set_state, is_terminal, is_finished, finish, cancel,
  update_once, update_loop, serialized_update, start, can_do_request, one_of,
}

-- The listeners have been notified once if the task is terminal, and not before.
abbrev pub Reported : Task → Type 0
Reported t = t.notified ≡ (if is_terminal t.state then 1 else 0)

-- A terminal task stays in its state.
abbrev pub Follows : Task → Task → Type 0
Follows t t' = is_terminal t.state ≡ true → t'.state ≡ t.state

-- What the methods of a task may do: they do not complete it behind the back of `finish` and
-- `cancel`.
pub record Honest (m : Methods) : Type 0 where
  pub prepare : (t : Task) → Reported t → Reported (m.prepare t)
  pub update : (t : Task) → Reported t → Reported (m.update t)

pub finish-Reported : (now : ℕ) (t : Task) → Reported t → Reported (finish now t)
unfolding finish
finish-Reported now t h = ground arith

pub cancel-Reported : (now : ℕ) (t : Task) → Reported t → Reported (cancel now t)
unfolding cancel
cancel-Reported now t h = ground arith

finish-Follows : (now : ℕ) (t : Task) → Follows t (finish now t)
unfolding finish
finish-Follows now t h = ground arith

-- A cancelled task is not finished afterwards, nor the other way round.
pub cancel-Follows : (now : ℕ) (t : Task) → Follows t (cancel now t)
unfolding cancel
cancel-Follows now t h = ground arith

update_once-Reported :
    (now : ℕ) (m : Methods) (t : Task) → Honest m → Reported t → Reported (update_once now m t)
unfolding update_once
update_once-Reported now m t k h =
    let t1 = if m.is_done t then finish now t else t in
    let h1 : Reported t1 = ground (arith, h, finish-Reported now t h) in
    let h2 : Reported (m.update t1) = k.update t1 h1 in
    let h3 = finish-Reported now (m.update t1) h2 in
    elim (Bool-cases (can_do_request t1 && not (is_finished t1))) [
      | inl goes ↦ elim (Bool-cases (m.is_done (m.update t1))) [
        | inl done ↦ rw (goes, done) h3
        | inr not_done ↦ rw (goes, not_done) h2
      ]
      | inr stops ↦ rw stops h1
    ]

update_once-Follows : (now : ℕ) (m : Methods) (t : Task) → Follows t (update_once now m t)
unfolding update_once is_finished
update_once-Follows now m t h =
    let t1 = if m.is_done t then finish now t else t in
    let h1 : t1.state ≡ t.state = ground (arith, h, finish-Follows now t h) in ground (arith, h, h1)

update_loop-Reported :
    (rounds now : ℕ) (m : Methods) (current : ℕ) (t t' : Task)
    → Honest m
    → Reported t
    → update_loop rounds now m current t ≡ some t'
    → Reported t'
unfolding update_loop
update_loop-Reported zero now m current t t' k h e = cc
update_loop-Reported (suc rounds) now m current t t' k h e =
    let t1 = update_once now m t in
    let t2 = record t1 { lock = t1.lock - current } in
    let h2 : Reported t2 = update_once-Reported now m t k h in
    elim (Bool-cases (t2.lock == 0)) [
      | inl last ↦ let same : t2 ≡ t' = ground arith in subst Reported same h2
      | inr more ↦ update_loop-Reported rounds now m t2.lock t2 t' k h2 (ground arith)
    ]

update_loop-Follows :
    (rounds now : ℕ) (m : Methods) (current : ℕ) (t t' : Task)
    → update_loop rounds now m current t ≡ some t'
    → Follows t t'
unfolding update_loop
update_loop-Follows zero now m current t t' e h = cc
update_loop-Follows (suc rounds) now m current t t' e h =
    let t1 = update_once now m t in
    let t2 = record t1 { lock = t1.lock - current } in
    let h2 : t2.state ≡ t.state = update_once-Follows now m t h in
    elim (Bool-cases (t2.lock == 0)) [
      | inl last ↦ let same : t2 ≡ t' = ground arith in ap (λ (v : Task). v.state) (sym same) ∙ h2
      | inr more ↦
          update_loop-Follows rounds now m t2.lock t2 t' (ground arith) (ap is_terminal h2 ∙ h) ∙ h2
    ]

pub serialized_update-Reported :
    (rounds now : ℕ) (m : Methods) (t t' : Task)
    → Honest m
    → Reported t
    → serialized_update rounds now m t ≡ some t'
    → Reported t'
unfolding serialized_update
serialized_update-Reported rounds now m t t' k h e =
    let t1 = record t { lock = t.lock + 1 } in
    let h1 : Reported t1 = h in
    elim (Bool-cases (ltb 1 t1.lock)) [
      | inl busy ↦ let same : t1 ≡ t' = ground arith in subst Reported same h1
      | inr free ↦ update_loop-Reported rounds now m t1.lock t1 t' k h1 (ground arith)
    ]

pub serialized_update-Follows :
    (rounds now : ℕ) (m : Methods) (t t' : Task)
    → serialized_update rounds now m t ≡ some t'
    → Follows t t'
unfolding serialized_update
serialized_update-Follows rounds now m t t' e h =
    let t1 = record t { lock = t.lock + 1 } in
    elim (Bool-cases (ltb 1 t1.lock)) [
      | inl busy ↦ let same : t1 ≡ t' = ground arith in ap (λ (v : Task). v.state) (sym same)
      | inr free ↦ update_loop-Follows rounds now m t1.lock t1 t' (ground arith) h
    ]

pub start-Reported :
    (rounds now : ℕ) (m : Methods) (t t' : Task)
    → Honest m
    → Reported t
    → start rounds now m t ≡ some t'
    → Reported t'
unfolding start set_state
start-Reported rounds now m t t' k h e =
    let ready = record t { state = running; start_time = now } in
    elim (Bool-cases (one_of t.state (initial ∷ queued ∷ []))) [
      | inl fits ↦
          let h1 : Reported ready = ground (arith, h, fits) in
          serialized_update-Reported rounds now m (m.prepare ready) t' k (k.prepare ready h1)
            (ground arith)
      | inr other ↦ let same : t ≡ t' = ground arith in subst Reported same h
    ]

pub start-Follows :
    (rounds now : ℕ) (m : Methods) (t t' : Task) → start rounds now m t ≡ some t' → Follows t t'
unfolding start set_state
start-Follows rounds now m t t' e h =
    let same : t ≡ t' = ground arith in ap (λ (v : Task). v.state) (sym same)
