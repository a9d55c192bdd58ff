-- ===== src/Storage/Newer.antt =====
-- A mutable value is only replaced by a mutable value that is not older.
use boson_native.Prelude.{
  ℕ, ◌+◌, ◌-◌, ◌%◌, ◌^◌, ◌≤◌, ◌<◌, true, false, not, ◌&&◌, none, some, List, [], ◌∷◌, All, ◌≡◌, ◌⊎◌,
  refl, sym, ap, subst, ◌∙◌, arith, Bool-cases, Option-cases, inl, inr, if◌then◌else◌,
}
use boson_native.Prelude.Int.{ℤ, pos, negsuc, int_lt, signed64}
use boson_native.Id.{NodeId, IsId, id_eq}
use boson_native.Id.Order.{compare_to-eq, compare_to_self}
use boson_native.Storage.{
  Value, Row, max_value_age, get_row, get_value, upsert, is_refused, put_value,
}

same_id : (a b : NodeId) → IsId a → IsId b → id_eq a b ≡ true → a ≡ b
same_id a b ha hb e = compare_to-eq a b (ha.size ∙ sym hb.size) (ground (arith, e))

-- The rows have ids of 32 bytes.
abbrev pub HasIds : List Row → Type 0
HasIds rs = All (λ (r : Row). IsId r.value.id) rs

get_row-upsert :
    (id : NodeId) (r : Row) (rs : List Row)
    → IsId id
    → IsId r.value.id
    → HasIds rs
    → get_row id (upsert r rs) ≡ (if id_eq r.value.id id then some r else get_row id rs)
unfolding get_row upsert
get_row-upsert id r [] k kv h = refl
get_row-upsert id r (x ∷ rs) k kv h = elim (Bool-cases (id_eq x.value.id r.value.id)) [
  | inl hit ↦
      let named = same_id x.value.id r.value.id h.0 kv hit in
      let equal : id_eq x.value.id id ≡ id_eq r.value.id id = ap (λ i. id_eq i id) named in
      elim (Bool-cases (id_eq r.value.id id)) [
        | inl there ↦ rw (hit, there) refl
        | inr apart ↦
            let miss : id_eq x.value.id id ≡ false = equal ∙ apart in rw (hit, apart, miss) refl
      ]
  | inr miss ↦ elim (Bool-cases (id_eq x.value.id id)) [
    | inl there ↦
        let named = same_id x.value.id id h.0 k there in
        elim (Bool-cases (id_eq r.value.id id)) [
          | inl both ↦
              let other = same_id r.value.id id kv k both in
              let equal : id_eq x.value.id r.value.id ≡ true =
                ap (id_eq x.value.id) (other ∙ sym named)
                ∙ ground (arith, compare_to_self x.value.id) in
              cc
          | inr apart ↦ rw (miss, there, apart) refl
        ]
    | inr later ↦ rw (miss, later) (get_row-upsert id r rs k kv h.1)
  ]
]

upsert-HasIds : (r : Row) (rs : List Row) → IsId r.value.id → HasIds rs → HasIds (upsert r rs)
unfolding upsert
upsert-HasIds r [] k h = (k, tt)
upsert-HasIds r (x ∷ rs) k h = elim (Bool-cases (id_eq x.value.id r.value.id)) [
  | inl hit ↦ rw hit (k, h.1)
  | inr miss ↦ rw miss (h.0, upsert-HasIds r rs k h.1)
]

int_lt_trans : (a b c : ℤ) → int_lt b a ≡ false → int_lt c b ≡ false → int_lt c a ≡ false
int_lt_trans (pos a) (pos b) (pos c) h k = ground (arith, h, k)
int_lt_trans (pos a) (pos b) (negsuc c) h k = ground (arith, h, k)
int_lt_trans (pos a) (negsuc b) (pos c) h k = ground (arith, h, k)
int_lt_trans (pos a) (negsuc b) (negsuc c) h k = ground (arith, h, k)
int_lt_trans (negsuc a) (pos b) (pos c) h k = ground (arith, h, k)
int_lt_trans (negsuc a) (pos b) (negsuc c) h k = ground (arith, h, k)
int_lt_trans (negsuc a) (negsuc b) (pos c) h k = ground (arith, h, k)
int_lt_trans (negsuc a) (negsuc b) (negsuc c) h k = ground (arith, h, k)

int_lt_self : (a : ℤ) → int_lt a a ≡ false
int_lt_self (pos a) = ground arith
int_lt_self (negsuc a) = ground arith

-- A value that is mutable and not older than another.
pub record IsNewer (old v : Value) : Type 0 where
  pub is_mutable : v.is_mutable ≡ true
  pub later : int_lt v.sequence_number old.sequence_number ≡ false

-- The row that the storage has for an id: of a value that is not older, from the time `since` on.
record Holds (since : ℕ) (id : NodeId) (old : Value) (rs : List Row) : Type 0 where
  row : Row
  here : get_row id rs ≡ some row
  newer : IsNewer old row.value
  fresh : since ≤ row.timestamp
  small : row.timestamp < 2 ^ 63

accepted-IsNewer :
    (v : Value) (expected : ℤ) (old : Value)
    → old.is_mutable ≡ true
    → is_refused v expected old ≡ false
    → IsNewer old v
unfolding is_refused
accepted-IsNewer v expected old m r = record {
  is_mutable = ground (arith, m, r);
  later = ground (arith, m, r);
}

-- What a put leaves, whether it is refused or not.
pub put_or_keep : ℕ → Value → ℤ → List Row → List Row
put_or_keep now v expected rs = elim (put_value now v expected rs) [ none ↦ rs | some rs' ↦ rs' ]

pub puts : List (ℕ × (Value × ℤ)) → List Row → List Row
puts [] rs = rs
puts ((now, (v, expected)) ∷ rest) rs = puts rest (put_or_keep now v expected rs)

put_value-cases :
    (now : ℕ) (v : Value) (expected : ℤ) (rs : List Row)
    → (put_or_keep now v expected rs ≡ rs)
      ⊎ ((put_or_keep now v expected rs ≡ upsert (record { value = v; timestamp = now }) rs)
          × ((get_value now v.id rs ≡ none)
              ⊎ ((old : Value) × (get_value now v.id rs ≡ some old)
                  × (is_refused v expected old ≡ false))))
unfolding put_or_keep put_value
put_value-cases now v expected rs = elim (Bool-cases (v.is_mutable && not v.is_valid)) [
  | inl wrong ↦ inl (rw (put_or_keep, put_value, wrong) refl)
  | inr right ↦ elim (Option-cases (get_value now v.id rs)) [
    | inl free ↦ inr (rw (put_or_keep, put_value, right, free) refl, inl free)
    | inr (old, e) ↦ elim (Bool-cases (is_refused v expected old)) [
      | inl refused ↦ inl (rw (put_or_keep, put_value, right, e, refused) refl)
      | inr taken ↦ inr (rw (put_or_keep, put_value, right, e, taken) refl, inr (old, e, taken))
    ]
  ]
]

put_or_keep-HasIds :
    (now : ℕ) (v : Value) (expected : ℤ) (rs : List Row)
    → IsId v.id
    → HasIds rs
    → HasIds (put_or_keep now v expected rs)
put_or_keep-HasIds now v expected rs k h = elim (put_value-cases now v expected rs) [
  | inl kept ↦ subst HasIds (sym kept) h
  | inr (stored, before) ↦
      subst HasIds (sym stored) (upsert-HasIds (record { value = v; timestamp = now }) rs k h)
]

IsNewer-trans : (a b c : Value) → IsNewer a b → IsNewer b c → IsNewer a c
IsNewer-trans a b c h k = record {
  is_mutable = k.is_mutable;
  later = int_lt_trans a.sequence_number b.sequence_number c.sequence_number h.later k.later;
}

-- A time from `since` on and at most two hours later, below 2^63.
pub record IsWithin (since now : ℕ) : Type 0 where
  pub from : since ≤ now
  pub to : now ≤ since + max_value_age
  pub word : now < 2 ^ 63

pub get_value-fresh :
    (since now : ℕ) (id : NodeId) (rs : List Row) (r : Row)
    → IsWithin since now
    → get_row id rs ≡ some r
    → since ≤ r.timestamp
    → r.timestamp < 2 ^ 63
    → get_value now id rs ≡ some r.value
unfolding get_value
get_value-fresh since now id rs r w e f b =
    let to : now ≤ since + max_value_age = w.to in
    let word : now < 2 ^ 63 = w.word in
    let when = (now + 2 ^ 64 - max_value_age) % 2 ^ 64 in
    let valid : int_lt (signed64 r.timestamp) (signed64 when) ≡ false = ground arith in
    rw (get_value, e, valid) refl

put_or_keep-Holds :
    (since now : ℕ) (id : NodeId) (v : Value) (expected : ℤ) (rs : List Row) (old : Value)
    → IsWithin since now
    → IsId id
    → IsId v.id
    → HasIds rs
    → Holds since id old rs
    → Holds since id old (put_or_keep now v expected rs)
put_or_keep-Holds since now id v expected rs old w k kv h held =
    elim (put_value-cases now v expected rs) [
      | inl kept ↦ subst (Holds since id old) (sym kept) held
      | inr (stored, before) ↦
          subst (Holds since id old) (sym stored) (elim (Bool-cases (id_eq v.id id)) [
            | inr apart ↦ record {
              row = held.row;
              here =
                  get_row-upsert id (record { value = v; timestamp = now }) rs k kv h
                  ∙ ap
                      (λ b.
                        if b then some (record { value = v; timestamp = now }) else get_row id rs)
                      apart
                  ∙ held.here;
              newer = held.newer;
              fresh = held.fresh;
              small = held.small;
            }
            | inl here ↦
                let named = same_id v.id id kv k here in
                let there : get_value now v.id rs ≡ some held.row.value =
                  ap (λ i. get_value now i rs) named
                  ∙ get_value-fresh since now id rs held.row w held.here held.fresh held.small in
                elim before [
                  | inl free ↦ cc
                  | inr (o, e, taken) ↦
                      let same : o ≡ held.row.value = cc in
                      let newer =
                        accepted-IsNewer v expected held.row.value held.newer.is_mutable
                          (subst (λ o. is_refused v expected o ≡ false) same taken) in
                      record {
                        row = record { value = v; timestamp = now };
                        here =
                            get_row-upsert id (record { value = v; timestamp = now }) rs k kv h
                            ∙ ap
                                (λ b.
                                  if b
                                  then some (record { value = v; timestamp = now })
                                  else get_row id rs)
                                here;
                        newer = IsNewer-trans old held.row.value v held.newer newer;
                        fresh = w.from;
                        small = w.word;
                      }
                ]
          ])
    ]

puts-Holds :
    (ps : List (ℕ × (Value × ℤ))) (since : ℕ) (id : NodeId) (old : Value) (rs : List Row)
    → All (λ (p : ℕ × (Value × ℤ)). IsWithin since p.0 × IsId (p.1.0).id) ps
    → IsId id
    → HasIds rs
    → Holds since id old rs
    → Holds since id old (puts ps rs)
unfolding puts
puts-Holds [] since id old rs a k h held = held
puts-Holds ((now, (v, expected)) ∷ ps) since id old rs a k h held =
    puts-Holds ps since id old (put_or_keep now v expected rs) a.1 k
      (put_or_keep-HasIds now v expected rs a.0.1 h)
      (put_or_keep-Holds since now id v expected rs old a.0.0 k a.0.1 h held)

-- When the storage has a mutable value, and values are put, refused ones included, each at a time not
-- before that of the value's row, at most two hours after it and below 2^63: at any such time the storage
-- gives a mutable value for the id, whose sequence number is not smaller. All ids are of 32 bytes.
pub puts-IsNewer :
    (ps : List (ℕ × (Value × ℤ))) (old : Row) (rs : List Row) (now : ℕ)
    → All (λ (p : ℕ × (Value × ℤ)). IsWithin old.timestamp p.0 × IsId (p.1.0).id) ps
    → IsWithin old.timestamp now
    → IsId old.value.id
    → HasIds rs
    → get_row old.value.id rs ≡ some old
    → old.value.is_mutable ≡ true
    → (v : Value) × (get_value now old.value.id (puts ps rs) ≡ some v) × IsNewer old.value v
puts-IsNewer ps old rs now a w k h e m =
    let r = puts-Holds ps old.timestamp old.value.id old.value rs a k h (record {
      row = old;
      here = e;
      newer = record { is_mutable = m; later = int_lt_self old.value.sequence_number };
      fresh = omega arith;
      small = omega (arith, w.from, w.word);
    }) in
    (
      r.row.value,
      get_value-fresh old.timestamp now old.value.id (puts ps rs) r.row w r.here r.fresh r.small,
      r.newer,
    )

-- A value that is not refused for the value that the storage has for its id, if it has one.
abbrev pub Takes : ℕ → Value → ℤ → List Row → Type 0
Takes now v expected rs =
    (old : Value) → get_value now v.id rs ≡ some old → is_refused v expected old ≡ false

pub put_value-taken :
    (now : ℕ) (v : Value) (expected : ℤ) (rs : List Row)
    → v.is_valid ≡ true
    → Takes now v expected rs
    → put_value now v expected rs ≡ some (upsert (record { value = v; timestamp = now }) rs)
unfolding put_value
put_value-taken now v expected rs k free = elim (Option-cases (get_value now v.id rs)) [
  | inl none_held ↦ rw (put_value, none_held, k) (ground arith)
  | inr (old, e) ↦ rw (put_value, e, free old e, k) (ground arith)
]

-- What was stored is found for two hours.
pub get_value-upsert :
    (since now : ℕ) (v : Value) (rs : List Row)
    → IsWithin since now
    → IsId v.id
    → HasIds rs
    → get_value now v.id (upsert (record { value = v; timestamp = since }) rs) ≡ some v
get_value-upsert since now v rs w k h =
    let row : Row = record { value = v; timestamp = since } in
    let same : id_eq v.id v.id ≡ true = ground (arith, compare_to_self v.id) in
    let here =
      get_row-upsert v.id row rs k k h ∙ ap (λ b. if b then some row else get_row v.id rs) same in
    get_value-fresh since now v.id (upsert row rs) row w here (omega arith)
      (omega (arith, w.from, w.word))

-- A value is taken by an empty storage, and an older one refused by one that has a fresh value of its id.
pub put_value-free :
    (now : ℕ) (v : Value) (expected : ℤ)
    → (v.is_mutable && not v.is_valid) ≡ false
    → put_value now v expected [] ≡ some (record { value = v; timestamp = now } ∷ [])
unfolding put_value get_value get_row upsert
put_value-free now v expected k = rw (put_value, k) refl

pub put_value-refused :
    (now : ℕ) (v : Value) (expected : ℤ) (old : Row)
    → IsWithin old.timestamp now
    → (v.is_mutable && not v.is_valid) ≡ false
    → old.value.id ≡ v.id
    → old.value.is_mutable ≡ true
    → int_lt v.sequence_number old.value.sequence_number ≡ true
    → put_value now v expected (old ∷ []) ≡ none
unfolding put_value get_row is_refused
put_value-refused now v expected old w k e m l =
    let here : id_eq old.value.id v.id ≡ true =
      ap (λ i. id_eq i v.id) e ∙ ground (arith, compare_to_self v.id) in
    let row : get_row v.id (old ∷ []) ≡ some old = rw (get_row, here) refl in
    let small : old.timestamp < 2 ^ 63 = omega (arith, w.from, w.word) in
    let held = get_value-fresh old.timestamp now v.id (old ∷ []) old w row (omega arith) small in
    let refused : is_refused v expected old.value ≡ true = ground (arith, m, l) in
    rw (put_value, k, held, refused) refl
