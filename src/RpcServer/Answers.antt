-- ===== src/RpcServer/Answers.antt =====
-- What an answer does.
use boson_native.Prelude.{
  ℕ, suc, ◌+◌, ◌-◌, ◌*◌, ◌%◌, ◌^◌, true, false, not, ◌&&◌, none, some, List, [], ◌∷◌, ◌++◌, ltb,
  ◌==◌, ◌≡◌, refl, ap, ◌∙◌, arith, Bool-cases, inl, inr,
}
use boson_native.SocketAddress.{addr_eq}
use boson_native.RpcCall
use boson_native.RpcCall.{RpcCall, MessageType, request, response, error}
use boson_native.RpcCall.Life.{on_response-cases}
use boson_native.RpcServer.{
  RpcServer, Packet, Output, delivered, request_sent, error_sent, dht_sending, dht_timeout,
  find_call, erase_call, is_type, handle_answer, handle_packet, check_txid,
}
use boson_native.RpcServer.Map.{find_call-erase_call, find_call-All}
use boson_native.RpcServer.Calls.{
  IsServer, Waits, check_txid-calls, handle_packet-answer, handle_packet-stray,
  handle_answer-matched,
}

-- How many answers the DHT was given with their calls.
pub answers : List Output → ℕ
answers [] = 0
answers (delivered p (some c) ∷ os) = suc (answers os)
answers (delivered p none ∷ os) = answers os
answers (request_sent x a ∷ os) = answers os
answers (error_sent x i a ∷ os) = answers os
answers (dht_sending i ∷ os) = answers os
answers (dht_timeout i ∷ os) = answers os

answers-append : (xs ys : List Output) → answers (xs ++ ys) ≡ answers xs + answers ys
unfolding answers
answers-append [] ys = omega arith
answers-append (delivered p (some c) ∷ os) ys = omega (arith, answers-append os ys)
answers-append (delivered p none ∷ os) ys = answers-append os ys
answers-append (request_sent x a ∷ os) ys = answers-append os ys
answers-append (error_sent x i a ∷ os) ys = answers-append os ys
answers-append (dht_sending i ∷ os) ys = answers-append os ys
answers-append (dht_timeout i ∷ os) ys = answers-append os ys

check_txid-answers :
    (p : Packet) (s : RpcServer) → answers (check_txid p s).outputs ≡ answers s.outputs
unfolding check_txid answers
check_txid-answers p s = elim (Bool-cases (not (is_type p.message.type error) && (p.txid == 0))) [
  | inl bad ↦
      let a = answers-append s.outputs (error_sent p.txid p.message.id p.message.origin ∷ []) in
      rw (check_txid, bad) (omega arith)
  | inr good ↦ rw (check_txid, good) refl
]

-- A call that is answered: the DHT is given the message with the call, and the call has left the map.
pub record IsAnswered (now : ℕ) (p : Packet) (c : RpcCall) (s s' : RpcServer) : Type 0 where
  pub answered : RpcCall
  pub made : RpcCall.on_response now p.message c ≡ some answered
  pub outputs : s'.outputs ≡ s.outputs ++ delivered p (some answered) ∷ []
  pub gone : find_call p.txid s'.calls ≡ none

check_txid-good :
    (p : Packet) (s : RpcServer) → (p.txid == 0) ≡ false → (check_txid p s).outputs ≡ s.outputs
unfolding check_txid
check_txid-good p s n = elim (Bool-cases (is_type p.message.type error)) [
  | inl e ↦ rw (check_txid, e) refl
  | inr o ↦ rw (check_txid, o, n) refl
]

handle_answer-outputs :
    (now : ℕ) (p : Packet) (c c' : RpcCall) (s : RpcServer)
    → addr_eq c.remote_address p.message.origin ≡ true
    → RpcCall.on_response now p.message c ≡ some c'
    → (handle_answer now p c s).outputs ≡ s.outputs ++ delivered p (some c') ∷ []
unfolding handle_answer
handle_answer-outputs now p c c' s m e = rw (handle_answer, m, e) refl

-- A packet that is no request, with the id of a call and from the address of the call's request, gives
-- the DHT its message once, with the call answered, and takes the call out of the map.
pub handle_packet-IsAnswered :
    (now : ℕ) (p : Packet) (c : RpcCall) (s : RpcServer)
    → IsServer s.calls
    → is_type p.message.type request ≡ false
    → find_call p.txid s.calls ≡ some c
    → addr_eq c.remote_address p.message.origin ≡ true
    → IsAnswered now p c s (handle_packet now (some p) s)
unfolding is_type
handle_packet-IsAnswered now p c s h t e m = elim (on_response-cases now p.message c) [
  | inl requested ↦
      let wrong : is_type p.message.type request ≡ true = ap (λ k. is_type k request) requested in
      cc
  | inr (c', made) ↦
      let step = handle_packet-answer now p s c t e in
      let calls = check_txid-calls p s in
      let n = (find_call-All Waits p.txid s.calls c h.waits e).0 in
      record {
        answered = c';
        made = made;
        outputs =
            ap (λ (s : RpcServer). s.outputs) step
            ∙ handle_answer-outputs now p c c' (check_txid p s) m made
            ∙ ap (λ os. os ++ delivered p (some c') ∷ []) (check_txid-good p s n);
        gone =
            ap (λ (s : RpcServer). find_call p.txid s.calls) step
            ∙ ap (find_call p.txid) (handle_answer-matched now p c (check_txid p s) m)
            ∙ ap (λ cs. find_call p.txid (erase_call p.txid cs)) calls
            ∙ find_call-erase_call p.txid s.calls h.distinct;
      }
]

stray-answers :
    (now : ℕ) (p : Packet) (s : RpcServer)
    → is_type p.message.type request ≡ false
    → find_call p.txid s.calls ≡ none
    → answers (handle_packet now (some p) s).outputs ≡ answers s.outputs
unfolding handle_packet answers
stray-answers now p s t e =
    let k = check_txid p s in
    let a = check_txid-answers p s in
    let b = answers-append k.outputs (error_sent p.txid p.message.id p.message.origin ∷ []) in
    let d = answers-append k.outputs (delivered p none ∷ []) in
    let uptime = (now + 2 ^ 64 - s.start_time) % 2 ^ 64 in
    elim (Bool-cases (is_type p.message.type response && ltb (2 * 60 * 1000) uptime)) [
      | inl late ↦ rw (handle_packet, t, e, late) (omega arith)
      | inr fine ↦ elim (Bool-cases (is_type p.message.type error)) [
        | inl err ↦ rw (handle_packet, t, e, fine, err) (omega arith)
        | inr other ↦ rw (handle_packet, t, e, fine, other) a
      ]
    ]

-- A packet that is no request, with the id of a call and from the address of the call's request, gives
-- the DHT one answer with a call; taken again, at any time, it gives none and changes no call.
pub handle_packet-replay :
    (now later : ℕ) (p : Packet) (c : RpcCall) (s : RpcServer)
    → IsServer s.calls
    → is_type p.message.type request ≡ false
    → find_call p.txid s.calls ≡ some c
    → addr_eq c.remote_address p.message.origin ≡ true
    → (answers (handle_packet later (some p) (handle_packet now (some p) s)).outputs
        ≡ answers s.outputs + 1)
      × ((handle_packet later (some p) (handle_packet now (some p) s)).calls
          ≡ (handle_packet now (some p) s).calls)
unfolding answers
handle_packet-replay now later p c s h t e m =
    let first = handle_packet-IsAnswered now p c s h t e m in
    let s' = handle_packet now (some p) s in
    let once =
      ap answers first.outputs
      ∙ answers-append s.outputs (delivered p (some first.answered) ∷ []) in
    (stray-answers later p s' t first.gone ∙ once, handle_packet-stray later p s' first.gone)

-- A call that still waits after a message from elsewhere.
pub record IsKept (p : Packet) (c : RpcCall) (s s' : RpcServer) : Type 0 where
  pub stalled : find_call p.txid s'.calls ≡ some (RpcCall.on_stall c)
  pub answers : answers s'.outputs ≡ answers s.outputs
