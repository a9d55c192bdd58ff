-- ===== src/RpcCall/Life.antt =====
-- When a call stalls and times out.
use boson_native.Prelude.{
  ℕ, ◌+◌, ◌-◌, ◌^◌, ◌≤◌, ◌<◌, true, Option, none, some, List, [], ◌∷◌, ◌++◌, ◌≡◌, refl, ap, arith,
  ◌⊎◌, inl, inr, compare-cases,
}
use boson_native.RpcCall.{
  cancel_timer, RpcCall, State, unsent, sent, stalled, timeout, canceled, err, responded, Event,
  state_changed, timed_out, stalled_out, timer_set, timer_cancelled, Message, emit, update_state,
  handle_state, MessageType, request, response, error, on_sent, on_stall, is_sent, on_response,
  check_timeout, is_waiting, time_remains, remaining, elapsed_word, rpc_call_timeout_max,
}

update_state-state : (s : State) (c : RpcCall) → (update_state s c).state ≡ s
unfolding update_state handle_state
update_state-state unsent c = refl
update_state-state sent c = refl
update_state-state stalled c = refl
update_state-state timeout c = refl
update_state-state canceled c = refl
update_state-state err c = refl
update_state-state responded c = refl

-- A check of a call that waits, before ten seconds are over.
pub record Stalls (now : ℕ) (c c' : RpcCall) : Type 0 where
  pub state : c'.state ≡ stalled
  pub events :
      c'.events
      ≡ c.events
        ++ state_changed c.state stalled
          ∷ stalled_out
          ∷ timer_set (c.sent_time + rpc_call_timeout_max - now)
          ∷ []

-- A check after that time.
pub record TimesOut (c c' : RpcCall) : Type 0 where
  pub state : c'.state ≡ timeout
  pub events : c'.events ≡ c.events ++ state_changed c.state timeout ∷ timed_out ∷ []

append_events :
    (es : List Event) (a b c : Event) → ((es ++ a ∷ []) ++ b ∷ []) ++ c ∷ [] ≡ es ++ a ∷ b ∷ c ∷ []
append_events [] a b c = refl
append_events (e ∷ es) a b c = ap (◌∷◌ e) (append_events es a b c)

append_two : (es : List Event) (a b : Event) → (es ++ a ∷ []) ++ b ∷ [] ≡ es ++ a ∷ b ∷ []
append_two [] a b = refl
append_two (e ∷ es) a b = ap (◌∷◌ e) (append_two es a b)

check_timeout-before :
    (now : ℕ) (c : RpcCall)
    → is_waiting c.state ≡ true
    → c.timer ≡ true
    → c.sent_time ≤ now
    → now < c.sent_time + rpc_call_timeout_max
    → now < 2 ^ 64
    → Stalls now c (check_timeout now c)
unfolding check_timeout time_remains update_state handle_state
check_timeout-before now c w t h k s =
    let word : elapsed_word now c ≡ now - c.sent_time = omega arith in
    let rest : remaining (now - c.sent_time) ≡ c.sent_time + rpc_call_timeout_max - now =
      ground arith in
    record {
      state = ground arith;
      events = ground (
        arith,
        append_events c.events (state_changed c.state stalled) stalled_out
            (timer_set (c.sent_time + rpc_call_timeout_max - now)),
      );
    }

check_timeout-after :
    (now : ℕ) (c : RpcCall)
    → is_waiting c.state ≡ true
    → c.sent_time + rpc_call_timeout_max ≤ now
    → now < c.sent_time + 2 ^ 31
    → now < 2 ^ 64
    → TimesOut c (check_timeout now c)
unfolding check_timeout time_remains update_state handle_state
check_timeout-after now c w h k s =
    let word : elapsed_word now c ≡ now - c.sent_time = omega arith in
    record {
      state = ground arith;
      events = ground (arith, append_two c.events (state_changed c.state timeout) timed_out);
    }

-- For a call that waits for its answer and has a timer, checked less than 2^31 ms after it was sent,
-- at a time below 2^64: in the ten seconds after that it stalls, and the timer is set to their end;
-- from their end on it times out.
pub check_timeout_lem :
    (now : ℕ) (c : RpcCall)
    → is_waiting c.state ≡ true
    → c.timer ≡ true
    → c.sent_time ≤ now
    → now < c.sent_time + 2 ^ 31
    → now < 2 ^ 64
    → ((now < c.sent_time + 10000) × Stalls now c (check_timeout now c))
      ⊎ ((c.sent_time + 10000 ≤ now) × TimesOut c (check_timeout now c))
check_timeout_lem now c w t h k s = elim (compare-cases now (c.sent_time + 10000)) [
  | inl before ↦ inl (before, check_timeout-before now c w t h before s)
  | inr after ↦
      let over : c.sent_time + 10000 ≤ now = omega arith in
      inr (over, check_timeout-after now c w over k s)
]

-- Once a call has taken a response or an error message, a later check of its timeout changes nothing,
-- whatever the time.
pub check_timeout-final :
    (now later : ℕ) (m : Message) (c c' : RpcCall)
    → on_response now m c ≡ some c'
    → check_timeout later c' ≡ c'
unfolding on_response check_timeout is_waiting
check_timeout-final now later m c c' h =
    let c1 = record c { answer = some m; response_time = now } in
    let c2 = record (emit timer_cancelled c) { answer = some m; response_time = now } in
    ground (
      arith,
      update_state-state responded c1,
      update_state-state err c1,
      update_state-state responded c2,
      update_state-state err c2,
    )

pub sent-waits : is_waiting sent ≡ true
unfolding is_waiting
sent-waits = refl

-- A call that is sent, and one that is stalled, waits.
pub on_sent-waits : (now : ℕ) (c : RpcCall) → is_waiting (on_sent now c).state ≡ true
unfolding on_sent is_waiting update_state handle_state
on_sent-waits now c = refl

pub on_stall-waits :
    (c : RpcCall) → is_waiting c.state ≡ true → is_waiting (on_stall c).state ≡ true
unfolding on_stall is_waiting update_state handle_state is_sent
on_stall-waits c h = ground (arith, h)

-- A message that is no request answers the call.
pub on_response-cases :
    (now : ℕ) (m : Message) (c : RpcCall)
    → (m.type ≡ request) ⊎ ((c' : RpcCall) × (on_response now m c ≡ some c'))
unfolding on_response
on_response-cases now m c =
    pick m.type (record (cancel_timer c) { answer = some m; response_time = now })
  where
    pick :
        (k : MessageType) (d : RpcCall)
        → (k ≡ request)
          ⊎ ((c' : RpcCall) × ((elim k as (λ k. Option RpcCall) [
            | response ↦ some (update_state responded d)
            | error ↦ some (update_state err d)
            | request ↦ none
          ])
                ≡ some c'))
    pick request d = inl refl
    pick response d = inr (update_state responded d, refl)
    pick error d = inr (update_state err d, refl)
