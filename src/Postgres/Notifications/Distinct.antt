-- ===== src/Postgres/Notifications/Distinct.antt =====
-- Lists of rows with distinct IDs (internal/adapter/repository/postgres): as many rows of a table have
-- their IDs as they are long.
use event_driven_notificatio.Prelude.{
  ℕ, zero, suc, ◌≤◌, ◌≡◌, refl, ◌∙◌, Bool, true, false, ◌||◌, [], ◌∷◌, arith, ◌==◌, ==_iff, ==_refl,
  Bool-cases, inl, inr, length, take, filterb, All, sort_by, insert_by, leb,
}
use event_driven_notificatio.Domain.Notification.{Uuid, Notification}
use event_driven_notificatio.Postgres.Notifications.{Rows, contains}
use event_driven_notificatio.Postgres.Notifications.Table.{IsTable, LacksId, clashes-LacksId}

-- No ID stands twice.
abbrev pub AreDistinct : Rows → Type 0
AreDistinct [] = Unit
AreDistinct (r ∷ rows) = (contains r.id rows ≡ false) × AreDistinct rows

LacksId-contains : (id : Uuid) (rows : Rows) → LacksId id rows → contains id rows ≡ false
LacksId-contains id [] l = refl
LacksId-contains id (r ∷ rows) l = ground (arith, LacksId-contains id rows l.1)

pub IsTable-AreDistinct : (rows : Rows) → IsTable rows → AreDistinct rows
IsTable-AreDistinct [] t = tt
IsTable-AreDistinct (r ∷ rows) t =
    (LacksId-contains r.id rows (clashes-LacksId r rows t.0), IsTable-AreDistinct rows t.2)

filterb-lacks :
    (p : Notification → Bool) (id : Uuid) (rows : Rows)
    → contains id rows ≡ false
    → contains id (filterb p rows) ≡ false
filterb-lacks p id [] h = refl
filterb-lacks p id (r ∷ rows) h = elim (Bool-cases (p r)) [
  | inl y ↦ rw y (ground (arith, filterb-lacks p id rows))
  | inr k ↦ rw k (filterb-lacks p id rows (ground arith))
]

pub filterb-AreDistinct :
    (p : Notification → Bool) (rows : Rows) → AreDistinct rows → AreDistinct (filterb p rows)
filterb-AreDistinct p [] d = tt
filterb-AreDistinct p (r ∷ rows) d = elim (Bool-cases (p r)) [
  | inl y ↦ rw y (filterb-lacks p r.id rows d.0, filterb-AreDistinct p rows d.1)
  | inr k ↦ rw k (filterb-AreDistinct p rows d.1)
]

module _ (due : Notification → ℕ) where
  contains-insert_by :
      (id : Uuid) (r : Notification) (rows : Rows)
      → contains id (insert_by due r rows) ≡ (r.id == id || contains id rows)
  unfolding insert_by
  contains-insert_by id r [] = refl
  contains-insert_by id r (x ∷ rows) = elim (Bool-cases (leb (due r) (due x))) [
    | inl y ↦ rw y refl
    | inr k ↦ rw k (ground (arith, contains-insert_by id r rows))
  ]

  contains-sort_by : (id : Uuid) (rows : Rows) → contains id (sort_by due rows) ≡ contains id rows
  unfolding sort_by
  contains-sort_by id [] = refl
  contains-sort_by id (r ∷ rows) =
      contains-insert_by id r (sort_by due rows) ∙ rw (contains-sort_by id rows) refl

  insert_by-AreDistinct :
      (r : Notification) (rows : Rows)
      → contains r.id rows ≡ false
      → AreDistinct rows
      → AreDistinct (insert_by due r rows)
  unfolding insert_by
  insert_by-AreDistinct r [] h d = (refl, tt)
  insert_by-AreDistinct r (x ∷ rows) h d = elim (Bool-cases (leb (due r) (due x))) [
    | inl y ↦ rw y (h, d)
    | inr k ↦ rw k (
      ground (arith, contains-insert_by x.id r rows, d.0),
      insert_by-AreDistinct r rows (ground arith) d.1,
    )
  ]

  pub sort_by-AreDistinct : (rows : Rows) → AreDistinct rows → AreDistinct (sort_by due rows)
  unfolding sort_by
  sort_by-AreDistinct [] d = tt
  sort_by-AreDistinct (r ∷ rows) d =
      insert_by-AreDistinct r (sort_by due rows) (contains-sort_by r.id rows ∙ d.0)
        (sort_by-AreDistinct rows d.1)

take-lacks :
    (n : ℕ) (id : Uuid) (rows : Rows) → contains id rows ≡ false → contains id (take n rows) ≡ false
take-lacks zero id rows h = refl
take-lacks (suc n) id [] h = refl
take-lacks (suc n) id (r ∷ rows) h = ground (arith, take-lacks n id rows)

pub take-AreDistinct : (n : ℕ) (rows : Rows) → AreDistinct rows → AreDistinct (take n rows)
take-AreDistinct zero rows d = tt
take-AreDistinct (suc n) [] d = tt
take-AreDistinct (suc n) (r ∷ rows) d = (take-lacks n r.id rows d.0, take-AreDistinct n rows d.1)

filterb-more :
    (c : Notification) (chosen rows : Rows)
    → length (filterb (λ r. contains r.id chosen) rows)
      ≤ length (filterb (λ r. contains r.id (c ∷ chosen)) rows)
filterb-more c chosen [] = omega arith
filterb-more c chosen (r ∷ rows) = ground (arith, filterb-more c chosen rows)

one_more :
    (c : Notification) (chosen rows : Rows)
    → contains c.id rows ≡ true
    → contains c.id chosen ≡ false
    → suc (length (filterb (λ r. contains r.id chosen) rows))
      ≤ length (filterb (λ r. contains r.id (c ∷ chosen)) rows)
one_more c chosen [] h k = cc
one_more c chosen (r ∷ rows) h k = elim (Bool-cases (r.id == c.id)) [
  | inl y ↦
      let e = (==_iff r.id c.id).0 y in
      let lacks : contains r.id chosen ≡ false = rw e k in
      rw lacks (rw e (rw (==_refl c.id) (omega (arith, filterb-more c chosen rows))))
  | inr n ↦ ground (arith, one_more c chosen rows)
]

pub length-filterb-all :
    (chosen rows : Rows)
    → AreDistinct chosen
    → All (λ c. contains c.id rows ≡ true) chosen
    → length chosen ≤ length (filterb (λ r. contains r.id chosen) rows)
length-filterb-all [] rows d h = omega arith
length-filterb-all (c ∷ chosen) rows d h =
    omega (arith, one_more c chosen rows h.0 d.0, length-filterb-all chosen rows d.1 h.1)
