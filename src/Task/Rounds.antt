-- ===== src/Task/Rounds.antt =====
-- How many rounds the update loop takes.
use boson_native.Prelude.{
  ℕ, suc, ◌+◌, some, ◌≡◌, arith, [], ◌∷◌, compare-cases, Bool-cases, inl, inr, if◌then◌else◌,
}
use boson_native.Task.{
  Task, initial, queued, running, Methods, set_state, one_of, start, finish, update_once,
  update_loop, serialized_update,
}

finish-lock : (now : ℕ) (t : Task) → (finish now t).lock ≡ t.lock
unfolding finish
finish-lock now t = ground arith

update_once-lock :
    (now : ℕ) (m : Methods) (t : Task)
    → ((s : Task) → (m.update s).lock ≡ s.lock)
    → (update_once now m t).lock ≡ t.lock
unfolding update_once
update_once-lock now m t k =
    let t1 = if m.is_done t then finish now t else t in
    let h1 : t1.lock ≡ t.lock = ground (arith, finish-lock now t) in
    ground (arith, h1, k t1, finish-lock now (m.update t1))

-- If `update` does not request another update, one round of the loop is enough, and the lock is free
-- again.
pub serialized_update_returns :
    (rounds now : ℕ) (m : Methods) (t : Task)
    → ((s : Task) → (m.update s).lock ≡ s.lock)
    → t.lock ≡ 0
    → serialized_update (suc rounds) now m t
      ≡ some (record (update_once now m (record t { lock = 1 })) { lock = 0 })
unfolding serialized_update update_loop
serialized_update_returns rounds now m t k free =
    let t1 = record t { lock = 1 } in
    let h : (update_once now m t1).lock ≡ 1 = update_once-lock now m t1 k in ground (arith, free)

serialized_update-some :
    (rounds now : ℕ) (m : Methods) (t : Task)
    → ((s : Task) → (m.update s).lock ≡ s.lock)
    → (t' : Task) × (serialized_update (suc rounds) now m t ≡ some t')
serialized_update-some rounds now m t k = elim (compare-cases t.lock 0) [
  | inl less ↦ absurd (omega arith)
  | inr (inl free) ↦ (_, serialized_update_returns rounds now m t k free)
  | inr (inr busy) ↦ (record t { lock = t.lock + 1 }, unfold serialized_update in ground arith)
]

pub start_returns :
    (rounds now : ℕ) (m : Methods) (t : Task)
    → ((s : Task) → (m.update s).lock ≡ s.lock)
    → (t' : Task) × (start (suc rounds) now m t ≡ some t')
unfolding start set_state
start_returns rounds now m t k =
    let r =
      serialized_update-some rounds now m
        (m.prepare (record t { state = running; start_time = now })) k in
    elim (Bool-cases (one_of t.state (initial ∷ queued ∷ []))) [
      | inl fits ↦ (r.0, ground (arith, fits, r.1))
      | inr other ↦ (t, ground (arith, other))
    ]
