-- ===== src/Postgres/Notifications/Table.antt =====
-- The constraints of the notifications table (internal/adapter/repository/postgres) as an
-- invariant, and what updates do to the row under an ID.
use event_driven_notificatio.Prelude.{
  leb, ◌&&◌, ℕ, String, ◌≡◌, refl, Bool, true, false, not, ◌||◌, Option, none, some, [], ◌∷◌, ◌++◌,
  All, arith, ◌==◌, ==_refl, eq_iff, if◌then◌else◌, Bool-cases, inl, inr, ◌∙◌, ap,
}
use mathlib.Core.Option
use event_driven_notificatio.Domain.Notification.{Notification, is_valid, Uuid}
use event_driven_notificatio.Postgres.Notifications.{
  Rows, same_key, clash, clashes, inserted_row, insert_row, find_row, update_where, contains,
}

-- Distinct IDs, distinct idempotency keys, valid channels.
abbrev pub IsTable : Rows → Type 0
IsTable [] = Unit
IsTable (r ∷ rows) = (clashes r rows ≡ false) × (is_valid r.channel ≡ true) × IsTable rows

same_key_symm : (a b : Option String) → same_key a b ≡ same_key b a
same_key_symm none none = refl
same_key_symm none (some b) = refl
same_key_symm (some a) none = refl
same_key_symm (some a) (some b) = ground (arith, eq_iff a b, eq_iff b a)

clash_symm : (a b : Notification) → clash a b ≡ false → clash b a ≡ false
clash_symm a b h = ground (arith, same_key_symm a.idempotency_key b.idempotency_key)

clashes-append :
    (r n : Notification) (rows : Rows)
    → clashes r rows ≡ false
    → clash n r ≡ false
    → clashes r (rows ++ n ∷ []) ≡ false
clashes-append r n [] h k = ground arith
clashes-append r n (x ∷ rows) h k = ground (arith, clashes-append r n rows)

append-IsTable :
    (n : Notification) (rows : Rows)
    → IsTable rows
    → clashes n rows ≡ false
    → is_valid n.channel ≡ true
    → IsTable (rows ++ n ∷ [])
append-IsTable n [] t c v = (refl, v, tt)
append-IsTable n (r ∷ rows) t c v = (
  clashes-append r n rows t.0 (clash_symm r n (ground arith)),
  t.1,
  append-IsTable n rows t.2 (ground arith) v,
)

clashes_of :
    (n m : Notification) (rows : Rows)
    → n.id ≡ m.id
    → n.idempotency_key ≡ m.idempotency_key
    → clashes n rows ≡ clashes m rows
clashes_of n m [] h k = refl
clashes_of n m (r ∷ rows) h k = rw (h, k, clashes_of n m rows h k)

module _ (p : Notification → Bool) (f : Notification → Notification)
    (id_kept : (r : Notification) → (f r).id ≡ r.id)
    (key_kept : (r : Notification) → (f r).idempotency_key ≡ r.idempotency_key)
    (channel_kept : (r : Notification) → (f r).channel ≡ r.channel) where
  clashes-update_where :
      (n : Notification) (rows : Rows) → clashes n (update_where p f rows) ≡ clashes n rows
  unfolding update_where
  clashes-update_where n [] = refl
  clashes-update_where n (r ∷ rows) = elim (Bool-cases (p r)) [
    | inl y ↦ rw y (rw (id_kept r, key_kept r, clashes-update_where n rows) refl)
    | inr k ↦ rw k (rw (clashes-update_where n rows) refl)
  ]

  pub update_where-IsTable : (rows : Rows) → IsTable rows → IsTable (update_where p f rows)
  unfolding update_where
  update_where-IsTable [] t = tt
  update_where-IsTable (r ∷ rows) t = elim (Bool-cases (p r)) [
    | inl y ↦ rw y (
      rw (clashes-update_where (f r) rows) (clashes_of (f r) r rows (id_kept r) (key_kept r) ∙ t.0),
      rw (channel_kept r) t.1,
      update_where-IsTable rows t.2,
    )
    | inr k ↦ rw k (rw (clashes-update_where r rows) t.0, t.1, update_where-IsTable rows t.2)
  ]

  updated-id : (r : Notification) → (if p r then f r else r).id ≡ r.id
  updated-id r = elim (Bool-cases (p r)) [ inl y ↦ rw y (id_kept r) | inr k ↦ rw k refl ]

  updated-== : (id : Uuid) (r : Notification) → ((if p r then f r else r).id == id) ≡ (r.id == id)
  updated-== id r = ap (λ (i : ℕ). i == id) (updated-id r)

  -- The row under an ID is the updated one if the condition holds of it.
  pub find_row-update_where :
      (id : Uuid) (rows : Rows)
      → find_row id (update_where p f rows)
        ≡ Option.map (λ r. if p r then f r else r) (find_row id rows)
  unfolding find_row update_where
  find_row-update_where id [] = refl
  find_row-update_where id (r ∷ rows) = elim (Bool-cases (r.id == id)) [
    | inl y ↦ rw (updated-== id r) (rw y refl)
    | inr k ↦ rw (updated-== id r) (rw k (find_row-update_where id rows))
  ]

  pub contains-update_where :
      (id : Uuid) (rows : Rows) → contains id (update_where p f rows) ≡ contains id rows
  unfolding update_where
  contains-update_where id [] = refl
  contains-update_where id (r ∷ rows) =
      rw (updated-== id r) (rw (contains-update_where id rows) refl)

-- No row has the ID.
abbrev pub LacksId : Uuid → Rows → Type 0
LacksId id = All (λ c. (c.id == id) ≡ false)

pub clashes-LacksId : (r : Notification) (rows : Rows) → clashes r rows ≡ false → LacksId r.id rows
clashes-LacksId r [] h = tt
clashes-LacksId r (c ∷ rows) h = (ground arith, clashes-LacksId r rows (ground arith))

find_row-tail :
    (r : Notification) (rows rest : Rows)
    → LacksId r.id rest
    → All (λ c. find_row c.id rows ≡ some c) rest
    → All (λ c. find_row c.id (r ∷ rows) ≡ some c) rest
unfolding find_row
find_row-tail r rows [] l h = tt
find_row-tail r rows (c ∷ rest) l h = (ground arith, find_row-tail r rows rest l.1 h.1)

-- In a table each row is the one that is found under its ID.
pub find_row_self : (rows : Rows) → IsTable rows → All (λ c. find_row c.id rows ≡ some c) rows
unfolding find_row
find_row_self [] t = tt
find_row_self (r ∷ rows) t = (
  rw (==_refl r.id),
  find_row-tail r rows rows (clashes-LacksId r rows t.0) (find_row_self rows t.2),
)

-- The rows that INSERT leaves, if it is not refused.
abbrev pub IsTable? : Option Rows → Type 0
IsTable? none = Unit
IsTable? (some rows) = IsTable rows

pub insert_row-IsTable :
    (n : Notification) (rows : Rows) → IsTable rows → IsTable? (insert_row n rows)
unfolding insert_row
insert_row-IsTable n rows t =
    elim (Bool-cases (clashes n rows || not (is_valid n.channel && leb n.priority 2))) [
      | inl y ↦ rw y tt
      | inr k ↦ rw k (
          append-IsTable (inserted_row n) rows t
            (clashes_of (inserted_row n) n rows refl refl ∙ ground arith) (ground arith))
    ]

-- The row that is found has the ID that was looked for.
abbrev pub Hits : Uuid → Option Notification → Type 0
Hits id none = Unit
Hits id (some r) = (r.id == id) ≡ true

pub find_row-Hits : (id : Uuid) (rows : Rows) → Hits id (find_row id rows)
unfolding find_row
find_row-Hits id [] = tt
find_row-Hits id (r ∷ rows) = elim (Bool-cases (r.id == id)) [
  | inl y ↦ rw y y
  | inr k ↦ rw k (find_row-Hits id rows)
]

-- Two updates do the same to it if they do the same to rows with that ID.
pub map-Hits :
    (id : Uuid) (f g : Notification → Notification)
    → ((r : Notification) → (r.id == id) ≡ true → f r ≡ g r)
    → (o : Option Notification) → Hits id o
    → Option.map f o ≡ Option.map g o
map-Hits id f g h none k = refl
map-Hits id f g h (some r) k = ap some (h r k)

pub map-Hits_self :
    (id : Uuid) (f : Notification → Notification)
    → ((r : Notification) → (r.id == id) ≡ true → f r ≡ r)
    → (o : Option Notification) → Hits id o
    → Option.map f o ≡ o
map-Hits_self id f h none k = refl
map-Hits_self id f h (some r) k = ap some (h r k)
