-- ===== src/RpcServer/Map.antt =====
-- The map from transaction ids to calls.
use boson_native.Prelude.{
  ℕ, false, none, some, List, [], ◌∷◌, All, ◌==◌, ==_iff, ◌≡◌, refl, sym, ap, subst, ◌∙◌, arith,
  Bool-cases, inl, inr,
}
use boson_native.RpcCall.{RpcCall}
use boson_native.RpcServer.{find_call, erase_call, change_call}

abbrev Entry : Type 0
Entry = ℕ × RpcCall

-- No transaction id is there twice.
abbrev pub IsDistinct : List (ℕ × RpcCall) → Type 0
IsDistinct [] = Unit
IsDistinct ((k, c) ∷ rest) = (find_call k rest ≡ none) × IsDistinct rest

different : (k x : ℕ) → (k == x) ≡ false → (x == k) ≡ false
different k x e = ground arith

pub find_call-erase_call :
    (x : ℕ) (cs : List (ℕ × RpcCall)) → IsDistinct cs → find_call x (erase_call x cs) ≡ none
unfolding find_call erase_call
find_call-erase_call x [] h = refl
find_call-erase_call x ((k, c) ∷ rest) h = elim (Bool-cases (k == x)) [
  | inl hit ↦
      let same : k ≡ x = (==_iff k x).0 hit in rw hit (ap (λ n. find_call n rest) (sym same) ∙ h.0)
  | inr miss ↦ rw (miss, miss) (find_call-erase_call x rest h.1)
]

erase_call-none :
    (x y : ℕ) (cs : List (ℕ × RpcCall))
    → find_call y cs ≡ none
    → find_call y (erase_call x cs) ≡ none
unfolding find_call erase_call
erase_call-none x y [] h = refl
erase_call-none x y ((k, c) ∷ rest) h = elim (Bool-cases (k == y)) [
  | inl hit ↦ ground arith
  | inr miss ↦
      let later : find_call y rest ≡ none = ground arith in
      elim (Bool-cases (k == x)) [
        | inl same ↦ rw same later
        | inr other ↦ rw (other, miss) (erase_call-none x y rest later)
      ]
]

pub erase_call-IsDistinct :
    (x : ℕ) (cs : List (ℕ × RpcCall)) → IsDistinct cs → IsDistinct (erase_call x cs)
unfolding erase_call
erase_call-IsDistinct x [] h = tt
erase_call-IsDistinct x ((k, c) ∷ rest) h = elim (Bool-cases (k == x)) [
  | inl hit ↦ rw hit h.1
  | inr miss ↦ rw miss (erase_call-none x k rest h.0, erase_call-IsDistinct x rest h.1)
]

pub find_call-erase_other :
    (x y : ℕ) (cs : List (ℕ × RpcCall))
    → (x == y) ≡ false
    → find_call y (erase_call x cs) ≡ find_call y cs
unfolding find_call erase_call
find_call-erase_other x y [] e = refl
find_call-erase_other x y ((k, c) ∷ rest) e = elim (Bool-cases (k == x)) [
  | inl hit ↦
      let same : k ≡ x = (==_iff k x).0 hit in
      let other : (k == y) ≡ false = ap (λ n. n == y) same ∙ e in rw (hit, other) refl
  | inr miss ↦ let r = find_call-erase_other x y rest e in rw miss (ground (arith, r))
]

pub find_call-change_call :
    (f : RpcCall → RpcCall) (x : ℕ) (cs : List (ℕ × RpcCall)) (c : RpcCall)
    → find_call x cs ≡ some c
    → find_call x (change_call f x cs) ≡ some (f c)
unfolding find_call change_call
find_call-change_call f x [] c e = cc
find_call-change_call f x ((k, d) ∷ rest) c e = elim (Bool-cases (k == x)) [
  | inl hit ↦ let same : d ≡ c = ground arith in rw (hit, hit) (ap (λ c. some (f c)) same)
  | inr miss ↦
      let later : find_call x rest ≡ some c = ground arith in
      rw (miss, miss) (find_call-change_call f x rest c later)
]

change_call-none :
    (f : RpcCall → RpcCall) (x y : ℕ) (cs : List (ℕ × RpcCall))
    → find_call y cs ≡ none
    → find_call y (change_call f x cs) ≡ none
unfolding find_call change_call
change_call-none f x y [] h = refl
change_call-none f x y ((k, c) ∷ rest) h = elim (Bool-cases (k == y)) [
  | inl hit ↦ ground arith
  | inr miss ↦
      let later : find_call y rest ≡ none = ground arith in
      elim (Bool-cases (k == x)) [
        | inl same ↦ rw (same, miss) later
        | inr other ↦ rw (other, miss) (change_call-none f x y rest later)
      ]
]

pub change_call-IsDistinct :
    (f : RpcCall → RpcCall) (x : ℕ) (cs : List (ℕ × RpcCall))
    → IsDistinct cs
    → IsDistinct (change_call f x cs)
unfolding change_call
change_call-IsDistinct f x [] h = tt
change_call-IsDistinct f x ((k, c) ∷ rest) h = elim (Bool-cases (k == x)) [
  | inl hit ↦ rw hit h
  | inr miss ↦ rw miss (change_call-none f x k rest h.0, change_call-IsDistinct f x rest h.1)
]

pub erase_call-change_call :
    (f : RpcCall → RpcCall) (x : ℕ) (cs : List (ℕ × RpcCall))
    → erase_call x (change_call f x cs) ≡ erase_call x cs
unfolding erase_call change_call
erase_call-change_call f x [] = refl
erase_call-change_call f x ((k, c) ∷ rest) = elim (Bool-cases (k == x)) [
  | inl hit ↦ rw (hit, hit) refl
  | inr miss ↦ rw (miss, miss) (ap (◌∷◌ (k, c)) (erase_call-change_call f x rest))
]

module _ (P : ℕ × RpcCall → Type 0) where
  pub erase_call-All : (x : ℕ) (cs : List (ℕ × RpcCall)) → All P cs → All P (erase_call x cs)
  unfolding erase_call
  erase_call-All x [] h = tt
  erase_call-All x ((k, c) ∷ rest) h = elim (Bool-cases (k == x)) [
    | inl hit ↦ rw hit h.1
    | inr miss ↦ rw miss (h.0, erase_call-All x rest h.1)
  ]

  pub find_call-All :
      (x : ℕ) (cs : List (ℕ × RpcCall)) (c : RpcCall)
      → All P cs
      → find_call x cs ≡ some c
      → P (x, c)
  unfolding find_call
  find_call-All x [] c h e = cc
  find_call-All x ((k, d) ∷ rest) c h e = elim (Bool-cases (k == x)) [
    | inl hit ↦
        let key : k ≡ x = (==_iff k x).0 hit in
        let same : d ≡ c = ground arith in
        subst (λ n. P (n, c)) key (subst (λ d. P (k, d)) same h.0)
    | inr miss ↦
        let later : find_call x rest ≡ some c = ground arith in find_call-All x rest c h.1 later
  ]

-- What holds of a call in the map, and of what is made of the call with the id, holds of all after
-- the change.
pub change_call-All :
    (P : ℕ × RpcCall → Type 0) (f : RpcCall → RpcCall) (x : ℕ) (cs : List (ℕ × RpcCall))
    → ((c : RpcCall) → find_call x cs ≡ some c → P (x, f c))
    → All P cs
    → All P (change_call f x cs)
unfolding find_call change_call
change_call-All P f x [] k h = tt
change_call-All P f x ((y, c) ∷ rest) k h = elim (Bool-cases (y == x)) [
  | inl hit ↦
      let key : y ≡ x = (==_iff y x).0 hit in
      let made : P (x, f c) = k c (rw hit refl) in
      rw hit (subst (λ n. P (n, f c)) (sym key) made, h.1)
  | inr miss ↦ rw miss (h.0, change_call-All P f x rest (λ d e. k d (rw miss e)) h.1)
]
