-- ===== src/RoutingTable/Tiles.antt =====
-- Buckets whose prefixes tile an interval of numbers.
use boson_native.Prelude.{
  ℕ, zero, suc, ◌+◌, ◌≤◌, some, List, [], ◌∷◌, ◌++◌, length, get_elem?, set_at, ◌≡◌, ◌⊎◌, inl, inr,
  refl, sym, ap, subst, ◌∙◌, arith,
}
use boson_native.Prefix.Blunt.{width}
use boson_native.Prefix.Interval.{bits, IsPrefix, low}
use boson_native.KBucket.{KBucket}

-- The end of a bucket's interval.
abbrev pub end : KBucket → ℕ
end b = low b.prefix + width (bits b.prefix)

-- The intervals of the buckets, one after another, are the numbers from `from` to `to`.
abbrev pub Tiles : ℕ → List KBucket → ℕ → Type 0
Tiles from [] to = from ≡ to
Tiles from (b ∷ bs) to = IsPrefix b.prefix × (low b.prefix ≡ from) × Tiles (end b) bs to

pub Tiles-le : (from : ℕ) (bs : List KBucket) (to : ℕ) → Tiles from bs to → from ≤ to
Tiles-le from [] to h = omega arith
Tiles-le from (b ∷ bs) to h =
    let rest = Tiles-le (end b) bs to h.2 in let start = h.1 in omega arith

-- The tiles before and from some place on.
pub Tiles-append :
    (from : ℕ) (xs ys : List KBucket) (to : ℕ)
    → Tiles from (xs ++ ys) to
    → (mid : ℕ) × Tiles from xs mid × Tiles mid ys to
Tiles-append from [] ys to h = (from, refl, h)
Tiles-append from (b ∷ xs) ys to h =
    let r = Tiles-append (end b) xs ys to h.2 in (r.0, (h.0, h.1, r.1), r.2)

pub append-Tiles :
    (from : ℕ) (xs : List KBucket) (mid : ℕ) (ys : List KBucket) (to : ℕ)
    → Tiles from xs mid
    → Tiles mid ys to
    → Tiles from (xs ++ ys) to
append-Tiles from [] mid ys to h k = subst (λ m. Tiles m ys to) (sym h) k
append-Tiles from (b ∷ xs) mid ys to h k = (h.0, h.1, append-Tiles (end b) xs mid ys to h.2 k)

-- A bucket of the list, with the one behind it.
pub record IsTile (bs : List KBucket) (to i : ℕ) (b : KBucket) : Type 0 where
  pub prefix : IsPrefix b.prefix
  pub next :
      ((suc i ≡ length bs) × (end b ≡ to))
      ⊎ ((c : KBucket) × (get_elem? bs (suc i) ≡ some c) × (low c.prefix ≡ end b))

pub tile :
    (from : ℕ) (bs : List KBucket) (to i : ℕ) (b : KBucket)
    → Tiles from bs to
    → get_elem? bs i ≡ some b
    → IsTile bs to i b
tile from [] to i b h e = cc
tile from (x ∷ []) to zero b h e =
    let same : x ≡ b = cc in rw (← same) (record { prefix = h.0; next = inl (omega arith, h.2) })
tile from (x ∷ y ∷ bs) to zero b h e =
    let same : x ≡ b = cc in
    let next = h.2.1 in rw (← same) (record { prefix = h.0; next = inr (y, refl, next) })
tile from (x ∷ bs) to (suc i) b h e =
    let r = tile (end x) bs to i b h.2 e in
    record {
      prefix = r.prefix;
      next = elim r.next [ inl last ↦ inl (ap suc last.0, last.1) | inr later ↦ inr later ];
    }

-- A bucket may be changed for another of its prefix.
pub set_at-Tiles :
    (from : ℕ) (bs : List KBucket) (to i : ℕ) (b c : KBucket)
    → Tiles from bs to
    → get_elem? bs i ≡ some b
    → c.prefix ≡ b.prefix
    → Tiles from (set_at i c bs) to
set_at-Tiles from [] to i b c h e p = h
set_at-Tiles from (x ∷ bs) to zero b c h e p =
    let same : x ≡ b = cc in
    let q : c.prefix ≡ x.prefix = p ∙ ap (λ (k : KBucket). k.prefix) (sym same) in
    subst (λ r. IsPrefix r × (low r ≡ from) × Tiles (low r + width (bits r)) bs to) (sym q) h
set_at-Tiles from (x ∷ bs) to (suc i) b c h e p =
    (h.0, h.1, set_at-Tiles (end x) bs to i b c h.2 e p)
