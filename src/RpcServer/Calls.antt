-- ===== src/RpcServer/Calls.antt =====
-- The calls of the server over sequences of its operations.
use boson_native.Prelude.{
  ℕ, true, false, not, ◌&&◌, Option, none, some, List, [], ◌∷◌, All, ◌==◌, ◌≡◌, refl, sym, subst,
  arith, Bool-cases, Option-cases, inl, inr,
}
use boson_native.SocketAddress.{addr_eq}
use boson_native.RpcCall
use boson_native.RpcCall.{RpcCall, State, MessageType, request, response, error}
use boson_native.RpcCall.Life.{on_sent-waits, on_stall-waits}
use boson_native.RpcServer.{
  RpcServer, Packet, find_call, erase_call, change_call, new_txid, can_send, send_call, is_type,
  handle_timeout, handle_answer, handle_packet, check_call, check_txid,
}
use boson_native.RpcServer.Map.{
  IsDistinct, erase_call-IsDistinct, change_call-IsDistinct, erase_call-All, find_call-All,
  change_call-All, find_call-change_call, erase_call-change_call,
}

-- A call in the map has an id that is not 0, and waits.
abbrev pub Waits : ℕ × RpcCall → Type 0
Waits (k, c) = ((k == 0) ≡ false) × (RpcCall.is_waiting c.state ≡ true)

pub record IsServer (cs : List (ℕ × RpcCall)) : Type 0 where
  pub distinct : IsDistinct cs
  pub waits : All Waits cs

pub erase_call-IsServer :
    (x : ℕ) (cs : List (ℕ × RpcCall)) → IsServer cs → IsServer (erase_call x cs)
erase_call-IsServer x cs h = record {
  distinct = erase_call-IsDistinct x cs h.distinct;
  waits = erase_call-All Waits x cs h.waits;
}

stall-IsServer :
    (x : ℕ) (cs : List (ℕ × RpcCall)) → IsServer cs → IsServer (change_call RpcCall.on_stall x cs)
stall-IsServer x cs h = record {
  distinct = change_call-IsDistinct RpcCall.on_stall x cs h.distinct;
  waits =
      change_call-All Waits RpcCall.on_stall x cs
        (λ c e. let w = find_call-All Waits x cs c h.waits e in (w.0, on_stall-waits c w.1))
        h.waits;
}

pub new_txid-nonzero : (n : ℕ) → ((new_txid n).0 == 0) ≡ false
unfolding new_txid
new_txid-nonzero n = elim (Bool-cases (n == 0)) [
  | inl zero_id ↦ rw zero_id (ground arith)
  | inr other ↦ rw other other
]

pub send_call-IsServer :
    (now : ℕ) (c : RpcCall) (s : RpcServer)
    → IsServer s.calls
    → IsServer (send_call now c s).0.calls
unfolding send_call
send_call-IsServer now c s h = elim (Option-cases (find_call (new_txid s.next_txid).0 s.calls)) [
  | inl free ↦
      let server : IsServer (((new_txid s.next_txid).0, RpcCall.on_sent now c) ∷ s.calls) = record {
        distinct = (free, h.distinct);
        waits = ((new_txid-nonzero s.next_txid, on_sent-waits now c), h.waits);
      } in
      elim (Bool-cases (can_send c.remote_address s)) [
        | inl fine ↦ rw (send_call, free, fine) server
        | inr thrown ↦ rw (send_call, free, thrown) server
      ]
  | inr (d, used) ↦ rw (send_call, used) h
]

handle_timeout-IsServer :
    (x : ℕ) (s : RpcServer) → IsServer s.calls → IsServer (handle_timeout x s).calls
unfolding handle_timeout
handle_timeout-IsServer x s h = elim (Option-cases (find_call x s.calls)) [
  | inl gone ↦ rw (handle_timeout, gone) h
  | inr (c, e) ↦ rw (handle_timeout, e) (erase_call-IsServer x s.calls h)
]

-- What an answer does to the map: the call leaves it, or stalls in it if the answer is from another
-- address.
pub handle_answer-matched :
    (now : ℕ) (p : Packet) (c : RpcCall) (s : RpcServer)
    → addr_eq c.remote_address p.message.origin ≡ true
    → (handle_answer now p c s).calls ≡ erase_call p.txid s.calls
unfolding handle_answer
handle_answer-matched now p c s m = elim (Option-cases (RpcCall.on_response now p.message c)) [
  | inl wrong ↦ rw (handle_answer, m, wrong) refl
  | inr (c', e) ↦ rw (handle_answer, m, e) refl
]

pub handle_answer-mismatched :
    (now : ℕ) (p : Packet) (c : RpcCall) (s : RpcServer)
    → addr_eq c.remote_address p.message.origin ≡ false
    → (handle_answer now p c s).calls ≡ change_call RpcCall.on_stall p.txid s.calls
unfolding handle_answer
handle_answer-mismatched now p c s m = rw (handle_answer, m) refl

handle_answer-IsServer :
    (now : ℕ) (p : Packet) (c : RpcCall) (s : RpcServer)
    → IsServer s.calls
    → IsServer (handle_answer now p c s).calls
handle_answer-IsServer now p c s h = elim (Bool-cases (addr_eq c.remote_address p.message.origin)) [
  | inl m ↦
      subst IsServer (sym (handle_answer-matched now p c s m))
        (erase_call-IsServer p.txid s.calls h)
  | inr m ↦
      subst IsServer (sym (handle_answer-mismatched now p c s m)) (stall-IsServer p.txid s.calls h)
]

pub check_txid-calls : (p : Packet) (s : RpcServer) → (check_txid p s).calls ≡ s.calls
unfolding check_txid
check_txid-calls p s = elim (Bool-cases (not (is_type p.message.type error) && (p.txid == 0))) [
  | inl bad ↦ rw (check_txid, bad) refl
  | inr good ↦ rw (check_txid, good) refl
]

-- A packet with a call is an answer; with none, or as a request, it leaves the map alone.
pub handle_packet-answer :
    (now : ℕ) (p : Packet) (s : RpcServer) (c : RpcCall)
    → is_type p.message.type request ≡ false
    → find_call p.txid s.calls ≡ some c
    → handle_packet now (some p) s ≡ handle_answer now p c (check_txid p s)
unfolding handle_packet
handle_packet-answer now p s c t e = rw (handle_packet, t, e) refl

pub handle_packet-stray :
    (now : ℕ) (p : Packet) (s : RpcServer)
    → find_call p.txid s.calls ≡ none
    → (handle_packet now (some p) s).calls ≡ s.calls
unfolding handle_packet
handle_packet-stray now p s e =
    let same = check_txid-calls p s in rw (handle_packet, e) (ground (arith, same))

pub handle_packet-request :
    (now : ℕ) (p : Packet) (s : RpcServer)
    → is_type p.message.type request ≡ true
    → (handle_packet now (some p) s).calls ≡ s.calls
unfolding handle_packet
handle_packet-request now p s t = rw (handle_packet, t) (check_txid-calls p s)

pub handle_packet-IsServer :
    (now : ℕ) (o : Option Packet) (s : RpcServer)
    → IsServer s.calls
    → IsServer (handle_packet now o s).calls
unfolding handle_packet
handle_packet-IsServer now none s h = h
handle_packet-IsServer now (some p) s h = elim (Bool-cases (is_type p.message.type request)) [
  | inl t ↦ subst IsServer (sym (handle_packet-request now p s t)) h
  | inr t ↦ elim (Option-cases (find_call p.txid s.calls)) [
    | inl e ↦ subst IsServer (sym (handle_packet-stray now p s e)) h
    | inr (c, e) ↦
        let k =
          handle_answer-IsServer now p c (check_txid p s)
            (subst IsServer (sym (check_txid-calls p s)) h) in
        subst (λ (s : RpcServer). IsServer s.calls) (sym (handle_packet-answer now p s c t e)) k
  ]
]

-- What the timer leaves in the map waits.
check_call-IsServer :
    (now x : ℕ) (s : RpcServer) → IsServer s.calls → IsServer (check_call now x s).calls
unfolding check_call handle_timeout
check_call-IsServer now x s h = elim (Option-cases (find_call x s.calls)) [
  | inl gone ↦ rw (check_call, gone) h
  | inr (c, e) ↦
      let f = RpcCall.check_timeout now in
      let d = change_call-IsDistinct f x s.calls h.distinct in
      elim (Bool-cases (RpcCall.is_waiting (f c).state)) [
        | inl waits ↦
            rw (check_call, e, waits)
              (record {
                distinct = d;
                waits =
                    change_call-All Waits f x s.calls
                      (λ b k. kept c b waits (find_call-All Waits x s.calls c h.waits e).0 e k)
                      h.waits;
              })
        | inr over ↦ rw (check_call, e, over) (over_IsServer f c e d)
      ]
]
  where
    kept :
        (c b : RpcCall)
        → RpcCall.is_waiting (RpcCall.check_timeout now c).state ≡ true
        → (x == 0) ≡ false
        → find_call x s.calls ≡ some c
        → find_call x s.calls ≡ some b
        → Waits (x, RpcCall.check_timeout now b)
    kept c b w n e k =
        let same : c ≡ b = cc in
        (
          n,
          subst (λ (c : RpcCall). RpcCall.is_waiting (RpcCall.check_timeout now c).state ≡ true)
              same w,
        )

    -- The handler erases what has timed out.
    over_IsServer :
        (f : RpcCall → RpcCall) (c : RpcCall)
        → find_call x s.calls ≡ some c
        → IsDistinct (change_call f x s.calls)
        → IsServer (handle_timeout x (record s { calls = change_call f x s.calls })).calls
    over_IsServer f c e d =
        let found = find_call-change_call f x s.calls c e in
        let same = erase_call-change_call f x s.calls in
        rw (handle_timeout, found) (subst IsServer (sym same) (erase_call-IsServer x s.calls h))

-- What the server is asked to do: to send a call, to take a packet, and to look at a call's time.
pub data Operation : Type 0 where
  calling : RpcCall → Operation
  receiving : Option Packet → Operation
  timing : ℕ → Operation

pub apply : ℕ → Operation → RpcServer → RpcServer
apply now (calling c) s = (send_call now c s).0
apply now (receiving o) s = handle_packet now o s
apply now (timing x) s = check_call now x s

pub run : List (ℕ × Operation) → RpcServer → RpcServer
run [] s = s
run ((now, op) ∷ ops) s = run ops (apply now op s)

apply-IsServer :
    (now : ℕ) (op : Operation) (s : RpcServer) → IsServer s.calls → IsServer (apply now op s).calls
unfolding apply
apply-IsServer now (calling c) s h = send_call-IsServer now c s h
apply-IsServer now (receiving o) s h = handle_packet-IsServer now o s h
apply-IsServer now (timing x) s h = check_call-IsServer now x s h

-- If the server's calls have distinct ids other than 0 and all wait for an answer, they do so after any
-- sequence of calls sent, packets taken and timers run.
pub run-IsServer :
    (ops : List (ℕ × Operation)) (s : RpcServer) → IsServer s.calls → IsServer (run ops s).calls
unfolding run
run-IsServer [] s h = h
run-IsServer ((now, op) ∷ ops) s h = run-IsServer ops (apply now op s) (apply-IsServer now op s h)
