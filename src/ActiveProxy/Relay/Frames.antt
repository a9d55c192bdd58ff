-- ===== src/ActiveProxy/Relay/Frames.antt =====
-- Streams of well-formed packets, and how they are cut.
use boson_native.Prelude.{
  ℕ, zero, suc, ◌≤◌, ◌<◌, ltb, false, Option, none, some, List, [], ◌∷◌, ◌++◌, length, take, drop,
  All, length-append, ◌≡◌, ◌⊎◌, refl, ap, ◌∙◌, arith,
}
use boson_native.ActiveProxy.Relay.{
  packet_header_bytes, packet_size, flag, Outcome, terminated, reading, next, read_packets,
}

-- A packet holds its header, and is as long as the header says.
abbrev pub IsFrame : List ℕ → Type 0
IsFrame p = (packet_header_bytes ≤ length p) × (packet_size p ≡ length p)

-- What may stand in the sticky buffer: less than a packet.
abbrev pub IsPartial : List ℕ → Type 0
IsPartial s = (length s < packet_header_bytes) ⊎ (length s < packet_size s)

-- The bytes of a sequence of packets, with a partial packet behind.
abbrev pub stream : List (List ℕ) → List ℕ → List ℕ
stream [] tail = tail
stream (p ∷ ps) tail = p ++ stream ps tail

pub packet_size-append : (p rest : List ℕ) → 2 ≤ length p → packet_size (p ++ rest) ≡ packet_size p
packet_size-append [] rest h = absurd (omega arith)
packet_size-append (a ∷ []) rest h = absurd (omega arith)
packet_size-append (a ∷ b ∷ p) rest h = refl

flag-append : (p rest : List ℕ) → 3 ≤ length p → flag (p ++ rest) ≡ flag p
flag-append [] rest h = absurd (omega arith)
flag-append (a ∷ []) rest h = absurd (omega arith)
flag-append (a ∷ b ∷ []) rest h = absurd (omega arith)
flag-append (a ∷ b ∷ c ∷ p) rest h = refl

pub take-append : (xs ys : List ℕ) → take (length xs) (xs ++ ys) ≡ xs
take-append [] ys = refl
take-append (x ∷ xs) ys = ap (◌∷◌ x) (take-append xs ys)

pub drop-append : (xs ys : List ℕ) → drop (length xs) (xs ++ ys) ≡ ys
drop-append [] ys = refl
drop-append (x ∷ xs) ys = drop-append xs ys

abbrev pub and_then {ℓ} : {S : Type ℓ} → Option S → (S → Option S) → Option S
and_then none f = none
and_then (some s) f = f s

module _ {ℓ} {S : Type ℓ} (process : ℕ → List ℕ → S → Option S) where
  -- Packets that are processed one after another, until one terminates the process.
  abbrev pub process_all : List (List ℕ) → S → Option S
  process_all [] s = some s
  process_all (p ∷ ps) s = and_then (process (flag p) p s) (process_all ps)

  -- What is left then, with a sticky buffer.
  abbrev pub left_with : List ℕ → Option S → Outcome S
  left_with tail none = terminated
  left_with tail (some s) = reading s tail

  pub next-left_with :
      (o : Option S) (ps : List (List ℕ)) (tail : List ℕ) (f : S → Outcome S)
      → ((s : S) → f s ≡ left_with tail (process_all ps s))
      → next o f ≡ left_with tail (and_then o (process_all ps))
  next-left_with none ps tail f h = refl
  next-left_with (some s) ps tail f h = h s

  read_partial :
      (rounds : ℕ) (s : S) (tail : List ℕ)
      → IsPartial tail
      → read_packets process (suc rounds) s tail ≡ reading s tail
  unfolding read_packets
  read_partial rounds s [] h = refl
  read_partial rounds s (b ∷ bs) h = ground arith

  read_frame :
      (rounds : ℕ) (s : S) (p rest : List ℕ)
      → IsFrame p
      → read_packets process (suc rounds) s (p ++ rest)
        ≡ next (process (flag p) p s) (λ s'. read_packets process rounds s' rest)
  unfolding read_packets
  read_frame rounds s [] rest h = absurd (omega arith)
  read_frame rounds s (b ∷ bs) rest h =
      let p = b ∷ bs in
      let size : packet_size (p ++ rest) ≡ length p =
        packet_size-append p rest (omega arith) ∙ h.1 in
      let whole = length-append p rest in
      let kind : flag (p ++ rest) ≡ flag p = flag-append p rest (omega arith) in
      let first : take (packet_size (p ++ rest)) (p ++ rest) ≡ p =
        ap (λ n. take n (p ++ rest)) size ∙ take-append p rest in
      let behind : drop (packet_size (p ++ rest)) (p ++ rest) ≡ rest =
        ap (λ n. drop n (p ++ rest)) size ∙ drop-append p rest in
      let long : ltb (length (p ++ rest)) packet_header_bytes ≡ false = ground arith in
      let enough : ltb (length (p ++ rest)) (packet_size (p ++ rest)) ≡ false = ground arith in
      rw (read_packets, long, enough, first, behind, kind) refl

  -- The loop cuts a stream at the packet boundaries, given a round for each packet and one more.
  pub read_packets-stream :
      (rounds : ℕ) (s : S) (ps : List (List ℕ)) (tail : List ℕ)
      → All IsFrame ps
      → IsPartial tail
      → length ps < rounds
      → read_packets process rounds s (stream ps tail) ≡ left_with tail (process_all ps s)
  read_packets-stream zero s ps tail f t h = elim h [ ]
  read_packets-stream (suc rounds) s [] tail f t h = read_partial rounds s tail t
  read_packets-stream (suc rounds) s (p ∷ ps) tail f t h =
      read_frame rounds s p (stream ps tail) f.0
      ∙ next-left_with (process (flag p) p s) ps tail
          (λ s'. read_packets process rounds s' (stream ps tail))
          (λ s'. read_packets-stream rounds s' ps tail f.1 t (omega arith))

-- All the bytes of a sequence of chunks.
abbrev pub joined : List (List ℕ) → List ℕ
joined [] = []
joined (c ∷ cs) = c ++ joined cs
