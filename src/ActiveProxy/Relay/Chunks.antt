-- ===== src/ActiveProxy/Relay/Chunks.antt =====
-- Whole connections: a stream of packets that arrives in any number of chunks.
use boson_native.Prelude.{
  ℕ, ◌≤◌, ◌<◌, List, [], ◌∷◌, ◌++◌, length, drop, All, Option, none, Option-cases, length-append,
  compare-cases, ◌≡◌, inl, inr, refl, sym, ap, ap₂, ◌∙◌, arith,
}
use mathlib.Core.List.{append_assoc, append-nil}
use boson_native.ActiveProxy.Relay.{
  packet_size, flag, terminated, reading, on_relay_read, read_chunks,
}
use boson_native.ActiveProxy.Relay.Frames.{
  IsFrame, IsPartial, stream, joined, packet_size-append, and_then, process_all, left_with,
}
use boson_native.ActiveProxy.Relay.Reassembly.{on_relay_read-stream}

split_prefix :
    (p rest xs ys : List ℕ)
    → length p ≤ length xs
    → xs ++ ys ≡ p ++ rest
    → (xs ≡ p ++ drop (length p) xs) × (drop (length p) xs ++ ys ≡ rest)
split_prefix [] rest xs ys h e = (refl, e)
split_prefix (a ∷ p) rest [] ys h e = absurd (omega arith)
split_prefix (a ∷ p) rest (x ∷ xs) ys h e =
    let head : x ≡ a = cc in
    let later = split_prefix p rest xs ys (omega arith) (cc) in (ap₂ ◌∷◌ head later.0, later.1)

-- The packets of a stream that are complete after a part of its bytes, and those that are not.
record Cut (xs ys : List ℕ) (ps : List (List ℕ)) (tail : List ℕ) : Type 0 where
  done : List (List ℕ)
  todo : List (List ℕ)
  rest : List ℕ
  all : ps ≡ done ++ todo
  before : xs ≡ stream done rest
  after : rest ++ ys ≡ stream todo tail
  partial : IsPartial rest
  done_frames : All IsFrame done
  todo_frames : All IsFrame todo

cut :
    (xs ys : List ℕ) (ps : List (List ℕ)) (tail : List ℕ)
    → All IsFrame ps
    → IsPartial tail
    → xs ++ ys ≡ stream ps tail
    → Cut xs ys ps tail
cut xs ys [] tail f t e = record {
  done = [];
  todo = [];
  rest = xs;
  all = refl;
  before = refl;
  after = e;
  partial = elim (compare-cases (length xs) 3) [
    | inl short ↦ inl short
    | inr long ↦
        let size = sym (packet_size-append xs ys (omega arith)) ∙ ap packet_size e in
        let whole = ap length e in ground (arith, length-append xs ys)
  ];
  done_frames = tt;
  todo_frames = tt;
}
cut xs ys (p ∷ ps) tail f t e = elim (compare-cases (length xs) (length p)) [
  | inl less ↦ record {
    done = [];
    todo = p ∷ ps;
    rest = xs;
    all = refl;
    before = refl;
    after = e;
    partial = elim (compare-cases (length xs) 3) [
      | inl short ↦ inl short
      | inr long ↦
          let size = sym (packet_size-append xs ys (omega arith)) ∙ ap packet_size e in
          let frame = packet_size-append p (stream ps tail) (omega arith) in inr (omega arith)
    ];
    done_frames = tt;
    todo_frames = f;
  }
  | inr more ↦
      let enough : length p ≤ length xs = omega arith in
      let (front, back) = split_prefix p (stream ps tail) xs ys enough e in
      let later = cut (drop (length p) xs) ys ps tail f.1 t back in
      record {
        done = p ∷ later.done;
        todo = later.todo;
        rest = later.rest;
        all = ap (◌∷◌ p) later.all;
        before = front ∙ ap (◌++◌ p) later.before;
        after = later.after;
        partial = later.partial;
        done_frames = (f.0, later.done_frames);
        todo_frames = later.todo_frames;
      }
]

-- A partial packet is not a stream that holds a packet.
partial-stream :
    (s : List ℕ) (ps : List (List ℕ)) (tail : List ℕ)
    → IsPartial s
    → All IsFrame ps
    → s ≡ stream ps tail
    → (ps ≡ []) × (s ≡ tail)
partial-stream s [] tail i f e = (refl, e)
partial-stream s (p ∷ ps) tail i f e =
    let size = ap packet_size e ∙ packet_size-append p (stream ps tail) (omega arith) in
    let whole = ap length e in absurd (omega (arith, length-append p (stream ps tail)))

module _ {ℓ} {S : Type ℓ} (process : ℕ → List ℕ → S → Option S) where
  process_all-append :
      (xs ys : List (List ℕ)) (s : S)
      → process_all process (xs ++ ys) s
        ≡ and_then (process_all process xs s) (process_all process ys)
  process_all-append [] ys s = refl
  process_all-append (p ∷ xs) ys s = elim (Option-cases (process (flag p) p s)) [
    | inl ended ↦ rw (ended) refl
    | inr (s', e) ↦ rw (e) (process_all-append xs ys s')
  ]

  read_chunks-from :
      (rounds : ℕ) (st : S) (s : List ℕ) (chunks ps : List (List ℕ)) (tail : List ℕ)
      → IsPartial s
      → All IsFrame ps
      → IsPartial tail
      → length ps < rounds
      → s ++ joined chunks ≡ stream ps tail
      → read_chunks process rounds st s chunks ≡ left_with process tail (process_all process ps st)
  unfolding read_chunks
  read_chunks-from rounds st s [] ps tail i f t r e =
      let (none_left, rest) = partial-stream s ps tail i f (sym (append-nil s) ∙ e) in
      rw (none_left, rest) refl
  read_chunks-from rounds st s (c ∷ cs) ps tail i f t r e =
      let k = cut (s ++ c) (joined cs) ps tail f t (append_assoc s c (joined cs) ∙ e) in
      let parts = ap length k.all in
      let sum = length-append k.done k.todo in
      let step =
        on_relay_read-stream process rounds st s c k.done k.rest i k.done_frames k.partial
          (omega arith) k.before in
      let whole =
        ap (λ qs. process_all process qs st) k.all ∙ process_all-append k.done k.todo st in
      elim (Option-cases (process_all process k.done st)) [
        | inl ended ↦
            let stops : on_relay_read process rounds st s c ≡ terminated =
              step ∙ ap (left_with process k.rest) ended in
            let ends : process_all process ps st ≡ none =
              whole ∙ ap (λ o. and_then o (process_all process k.todo)) ended in
            rw (read_chunks, stops, ends) refl
        | inr (st', e') ↦
            let reads : on_relay_read process rounds st s c ≡ reading st' k.rest =
              step ∙ ap (left_with process k.rest) e' in
            let ends : process_all process ps st ≡ process_all process k.todo st' =
              whole ∙ ap (λ o. and_then o (process_all process k.todo)) e' in
            rw (read_chunks, reads, ends)
              (read_chunks-from rounds st' k.rest cs k.todo tail k.partial k.todo_frames t
                (omega arith) k.after)
      ]

  -- However a stream of well-formed packets and a partial one is cut into chunks, a connection with an
  -- empty sticky buffer that reads the chunks comes to what processing exactly the packets, in order,
  -- comes to, and keeps the partial one: the process is terminated where a packet terminates it. A round
  -- of the loop for each packet and one more is enough.
  pub read_chunks-stream :
      (rounds : ℕ) (st : S) (chunks ps : List (List ℕ)) (tail : List ℕ)
      → All IsFrame ps
      → IsPartial tail
      → length ps < rounds
      → joined chunks ≡ stream ps tail
      → read_chunks process rounds st [] chunks ≡ left_with process tail (process_all process ps st)
  read_chunks-stream rounds st chunks ps tail f t r e =
      read_chunks-from rounds st [] chunks ps tail (inl (omega arith)) f t r e
