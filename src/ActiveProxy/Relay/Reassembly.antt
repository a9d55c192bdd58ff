-- ===== src/ActiveProxy/Relay/Reassembly.antt =====
-- However the stream is cut into chunks, the packets come out whole and in order.
use boson_native.Prelude.{
  ℕ, zero, suc, ◌+◌, ◌-◌, ◌≤◌, ◌<◌, List, [], ◌∷◌, ◌++◌, length, take, drop, All, ltb, true, false,
  Option, length-append, length-take, take-append-drop, compare-cases, ◌≡◌, inl, inr, refl, sym, ap,
  ap₂, ◌∙◌, arith,
}
use native.Mathlib.Nat.{sub-zero, suc-sub-suc}
use mathlib.Core.List.{append_assoc}
use boson_native.ActiveProxy.Relay.{
  packet_header_bytes, packet_size, flag, next, read_packets, complete_packet, on_relay_read,
}
use boson_native.ActiveProxy.Relay.Frames.{
  IsFrame, IsPartial, stream, packet_size-append, take-append, drop-append, process_all, left_with,
  next-left_with, read_packets-stream,
}

take-append_more :
    (xs ys : List ℕ) (n : ℕ) → length xs ≤ n → take n (xs ++ ys) ≡ xs ++ take (n - length xs) ys
take-append_more [] ys n h = rw sub-zero
take-append_more (x ∷ xs) ys zero h = absurd (omega arith)
take-append_more (x ∷ xs) ys (suc n) h =
    rw suc-sub-suc (ap (◌∷◌ x) (take-append_more xs ys n (omega arith)))

drop-append_more :
    (xs ys : List ℕ) (n : ℕ) → length xs ≤ n → drop n (xs ++ ys) ≡ drop (n - length xs) ys
drop-append_more [] ys n h = rw sub-zero
drop-append_more (x ∷ xs) ys zero h = absurd (omega arith)
drop-append_more (x ∷ xs) ys (suc n) h = rw suc-sub-suc (drop-append_more xs ys n (omega arith))

-- The header in the buffer is the header of the stream.
header :
    (s rest : List ℕ) (ps : List (List ℕ)) (tail : List ℕ)
    → 3 ≤ length s
    → All IsFrame ps
    → IsPartial tail
    → s ++ rest ≡ stream ps tail
    → 3 ≤ packet_size s
header s rest [] tail h f t e =
    let size = sym (packet_size-append s rest (omega arith)) ∙ ap packet_size e in
    let long = length-append s rest in let whole = ap length e in ground arith
header s rest (p ∷ ps) tail h f t e =
    let size = sym (packet_size-append s rest (omega arith)) ∙ ap packet_size e in
    let frame = packet_size-append p (stream ps tail) (omega arith) in omega arith

-- Fewer bytes than a header hold no packet.
short-stream :
    (bytes : List ℕ) (ps : List (List ℕ)) (tail : List ℕ)
    → length bytes < 3
    → All IsFrame ps
    → bytes ≡ stream ps tail
    → (ps ≡ []) × (bytes ≡ tail)
short-stream bytes [] tail h f e = (refl, e)
short-stream bytes (p ∷ ps) tail h f e =
    absurd (omega (arith, ap length e, length-append p (stream ps tail), f.0.0))

module _ {ℓ} {S : Type ℓ} (process : ℕ → List ℕ → S → Option S) where
  complete_packet-at :
      (rounds : ℕ) (st : S) (s rest : List ℕ)
      → length s ≤ packet_size s
      → packet_size s - length s ≤ length rest
      → complete_packet process rounds st s rest
        ≡ next
            (process
              (flag (s ++ take (packet_size s - length s) rest))
              (s ++ take (packet_size s - length s) rest)
              st)
            (λ s'. read_packets process rounds s' (drop (packet_size s - length s) rest))
  unfolding complete_packet
  complete_packet-at rounds st s rest k h =
      let fits : ltb (packet_size s) (length s) ≡ false = ground arith in
      let enough : ltb (length rest) (packet_size s - length s) ≡ false = ground arith in
      rw (complete_packet, fits, enough) refl

  complete_packet-stream :
      (rounds : ℕ) (st : S) (s rest : List ℕ) (ps : List (List ℕ)) (tail : List ℕ)
      → 3 ≤ length s
      → length s ≤ packet_size s
      → All IsFrame ps
      → IsPartial tail
      → length ps < rounds
      → s ++ rest ≡ stream ps tail
      → complete_packet process rounds st s rest
        ≡ left_with process tail (process_all process ps st)
  unfolding complete_packet
  complete_packet-stream rounds st s rest [] tail h k f t r e =
      let size = sym (packet_size-append s rest (omega arith)) ∙ ap packet_size e in
      let long = length-append s rest in let whole = ap length e in ground arith
  complete_packet-stream rounds st s rest (p ∷ ps) tail h k f t r e =
      complete_packet-at rounds st s rest k (omega (arith, frame, long, long', whole))
      ∙ ap₂ (λ x y. next (process (flag x) x st) (λ s'. read_packets process rounds s' y)) body
          behind
      ∙ next-left_with process (process (flag p) p st) ps tail
          (λ s'. read_packets process rounds s' (stream ps tail))
          (λ s'. read_packets-stream process rounds s' ps tail f.1 t (omega arith))
    where
      frame : packet_size s ≡ length p
      frame =
          sym (packet_size-append s rest (omega arith))
          ∙ ap packet_size e
          ∙ packet_size-append p (stream ps tail) (omega arith)
          ∙ f.0.1

      long : length (s ++ rest) ≡ length s + length rest
      long = length-append s rest

      long' : length (p ++ stream ps tail) ≡ length p + length (stream ps tail)
      long' = length-append p (stream ps tail)

      whole : length (s ++ rest) ≡ length (p ++ stream ps tail)
      whole = ap length e

      body : s ++ take (packet_size s - length s) rest ≡ p
      body =
          sym (take-append_more s rest (packet_size s) k)
          ∙ ap₂ take frame e
          ∙ take-append p (stream ps tail)

      behind : drop (packet_size s - length s) rest ≡ stream ps tail
      behind =
          sym (drop-append_more s rest (packet_size s) k)
          ∙ ap₂ drop frame e
          ∙ drop-append p (stream ps tail)

  -- A buffer that is short of a header, and a chunk that fills the header up.
  filled-stream :
      (rounds : ℕ) (st : S) (s chunk : List ℕ) (ps : List (List ℕ)) (tail : List ℕ)
      → length s < 3
      → 3 - length s ≤ length chunk
      → All IsFrame ps
      → IsPartial tail
      → length ps < rounds
      → s ++ chunk ≡ stream ps tail
      → complete_packet process rounds st
          (s ++ take (3 - length s) chunk)
          (drop (3 - length s) chunk)
        ≡ left_with process tail (process_all process ps st)
  filled-stream rounds st s chunk ps tail short enough f t r e =
      complete_packet-stream rounds st filled (drop (3 - length s) chunk) ps tail
        (omega (arith, size)) (omega (arith, size, filled_header)) f t r whole
    where
      filled : List ℕ
      filled = s ++ take (3 - length s) chunk

      size : length filled ≡ 3
      size =
          omega
            (arith, length-append s (take (3 - length s) chunk), length-take (3 - length s) chunk)

      whole : filled ++ drop (3 - length s) chunk ≡ stream ps tail
      whole =
          append_assoc s (take (3 - length s) chunk) (drop (3 - length s) chunk)
          ∙ ap (◌++◌ s) (take-append-drop (3 - length s) chunk)
          ∙ e

      filled_header : 3 ≤ packet_size filled
      filled_header =
          header filled (drop (3 - length s) chunk) ps tail (omega (arith, size)) f t whole

  -- For a partial packet in the sticky buffer, a chunk that completes well-formed packets and leaves a
  -- partial one behind makes `onRelayRead` process exactly those packets, in order, and keep that rest.
  pub on_relay_read-stream :
      (rounds : ℕ) (st : S) (s chunk : List ℕ) (ps : List (List ℕ)) (tail : List ℕ)
      → IsPartial s
      → All IsFrame ps
      → IsPartial tail
      → length ps < rounds
      → s ++ chunk ≡ stream ps tail
      → on_relay_read process rounds st s chunk ≡ left_with process tail (process_all process ps st)
  unfolding on_relay_read
  on_relay_read-stream rounds st [] chunk ps tail i f t r e =
      ap (read_packets process rounds st) e ∙ read_packets-stream process rounds st ps tail f t r
  on_relay_read-stream rounds st (b ∷ bs) chunk ps tail i f t r e =
      let s = b ∷ bs in
      elim (compare-cases (length s) packet_header_bytes) [
        | inl short ↦
            let brief : ltb (length s) packet_header_bytes ≡ true = ground arith in
            elim (compare-cases (length chunk) (3 - length s)) [
              | inl less ↦
                  let few : ltb (length chunk) (packet_header_bytes - length s) ≡ true =
                    ground arith in
                  let (none_left, rest) =
                    short-stream (s ++ chunk) ps tail (omega (arith, length-append s chunk)) f e in
                  rw (on_relay_read, brief, few, none_left, rest) refl
              | inr enough ↦
                  let fills : ltb (length chunk) (packet_header_bytes - length s) ≡ false =
                    ground arith in
                  rw (on_relay_read, brief, fills)
                    (filled-stream rounds st s chunk ps tail short (omega arith) f t r e)
            ]
        | inr long ↦
            let full : ltb (length s) packet_header_bytes ≡ false = ground arith in
            rw (on_relay_read, full)
              (complete_packet-stream rounds st s chunk ps tail (omega arith) (omega arith) f t r e)
      ]
