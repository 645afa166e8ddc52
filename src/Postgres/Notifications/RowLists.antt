-- ===== src/Postgres/Notifications/RowLists.antt =====
-- Lists of rows (internal/adapter/repository/postgres): filters, the IDs that they hold, the first
-- few of a sorted list.
use mathlib.Core.Bool.{false≢true}
use mathlib.Core.Path.{subst}
use event_driven_notificatio.Prelude.{
  ℕ, zero, suc, ◌+◌, ◌≤◌, ◌≡◌, refl, ap, sym, ◌∙◌, Bool, true, false, ◌||◌, ◌&&◌, some, [], ◌∷◌,
  arith, ◌==◌, ==_iff, ==_refl, Bool-cases, some-eq, inl, inr, ◌⊎◌, if◌then◌else◌, length, take,
  filterb, All, IsSortedBy,
}
use event_driven_notificatio.Domain.Notification.{Uuid, Notification}
use event_driven_notificatio.Postgres.Notifications.{Rows, contains, find_row}
use event_driven_notificatio.Postgres.Notifications.Table.{IsTable, LacksId, clashes-LacksId}

pub filterb-All {κ} :
    (P : Notification → Type κ) (p : Notification → Bool) (rows : Rows)
    → All P rows
    → All P (filterb p rows)
filterb-All P p [] h = tt
filterb-All P p (r ∷ rows) h = elim (Bool-cases (p r)) [
  | inl y ↦ rw y (h.0, filterb-All P p rows h.1)
  | inr k ↦ rw k (filterb-All P p rows h.1)
]

pub filterb-holds : (p : Notification → Bool) (rows : Rows) → All (λ r. p r ≡ true) (filterb p rows)
filterb-holds p [] = tt
filterb-holds p (r ∷ rows) = elim (Bool-cases (p r)) [
  | inl y ↦ rw y (y, filterb-holds p rows)
  | inr k ↦ rw k (filterb-holds p rows)
]

pub take-All {κ} :
    (P : Notification → Type κ) (n : ℕ) (rows : Rows) → All P rows → All P (take n rows)
take-All P zero rows h = tt
take-All P (suc n) [] h = tt
take-All P (suc n) (r ∷ rows) h = (h.0, take-All P n rows h.1)

pub All-both {κ μ} :
    (P : Notification → Type κ) (Q : Notification → Type μ) (rows : Rows)
    → All P rows
    → All Q rows
    → All (λ r. P r × Q r) rows
All-both P Q [] h k = tt
All-both P Q (r ∷ rows) h k = ((h.0, k.0), All-both P Q rows h.1 k.1)

-- A row with the ID, if the list has the ID.
pub contains-All {κ} :
    (P : Notification → Type κ) (id : Uuid) (rows : Rows)
    → All P rows
    → contains id rows ≡ true
    → (r : Notification) × ((r.id == id) ≡ true) × P r
contains-All P id [] h c = cc
contains-All P id (r ∷ rows) h c = elim (Bool-cases (r.id == id)) [
  | inl y ↦ (r, y, h.0)
  | inr k ↦ contains-All P id rows h.1 (ground arith)
]

-- The IDs in a list filtered by another list's IDs.
pub contains-filterb :
    (id : Uuid) (chosen rows : Rows)
    → contains id (filterb (λ r. contains r.id chosen) rows)
      ≡ (contains id rows && contains id chosen)
contains-filterb id chosen [] = refl
contains-filterb id chosen (r ∷ rows) = elim (Bool-cases (r.id == id)) [
  | inl y ↦
      let same = ap (λ (i : ℕ). contains i chosen) ((==_iff r.id id).0 y) in
      ground (arith, same, contains-filterb id chosen rows)
  | inr k ↦ ground (arith, contains-filterb id chosen rows)
]

length-filterb-or :
    (p q : Notification → Bool) (rows : Rows)
    → length (filterb (λ r. p r || q r) rows) ≤ length (filterb p rows) + length (filterb q rows)
length-filterb-or p q [] = omega arith
length-filterb-or p q (r ∷ rows) = ground (arith, length-filterb-or p q rows)

filterb-lacking :
    (c : Notification) (rows : Rows) → LacksId c.id rows → filterb (λ r. c.id == r.id) rows ≡ []
filterb-lacking c [] l = refl
filterb-lacking c (r ∷ rows) l = ground (arith, filterb-lacking c rows l.1)

length-filterb-id :
    (c : Notification) (rows : Rows) → IsTable rows → length (filterb (λ r. c.id == r.id) rows) ≤ 1
length-filterb-id c [] t = omega arith
length-filterb-id c (r ∷ rows) t = elim (Bool-cases (c.id == r.id)) [
  | inl y ↦
      let l =
        subst (λ i. LacksId i rows) (sym ((==_iff c.id r.id).0 y)) (clashes-LacksId r rows t.0) in
      rw y (rw (filterb-lacking c rows l) (omega arith))
  | inr k ↦ rw k (length-filterb-id c rows t.2)
]

filterb-none : (rows : Rows) → filterb (λ r. false) rows ≡ []
filterb-none [] = refl
filterb-none (r ∷ rows) = filterb-none rows

-- A table has no more rows under the IDs of a list than the list is long.
pub length-filterb-contains :
    (chosen rows : Rows)
    → IsTable rows
    → length (filterb (λ r. contains r.id chosen) rows) ≤ length chosen
length-filterb-contains [] rows t = rw filterb-none (omega arith)
length-filterb-contains (c ∷ chosen) rows t = omega (
  arith,
  length-filterb-or (λ r. c.id == r.id) (λ r. contains r.id chosen) rows,
  length-filterb-id c rows t,
  length-filterb-contains chosen rows t,
)

pub find_row-All {κ} :
    (P : Notification → Type κ) (id : Uuid) (rows : Rows) (r : Notification)
    → All P rows
    → find_row id rows ≡ some r
    → P r
unfolding find_row
find_row-All P id [] r h e = cc
find_row-All P id (x ∷ rows) r h e = elim (Bool-cases (x.id == id)) [
  | inl y ↦ subst P (some-eq (rw y at e)) h.0
  | inr k ↦ find_row-All P id rows r h.1 (rw k at e)
]

pub find_row-contains :
    (id : Uuid) (rows : Rows) (r : Notification)
    → find_row id rows ≡ some r
    → contains id rows ≡ true
unfolding find_row
find_row-contains id [] r e = cc
find_row-contains id (x ∷ rows) r e = ground (arith, find_row-contains id rows r)

pub filterb-implied {κ} :
    (P : Notification → Type κ) (p : Notification → Bool) (rows : Rows)
    → All (λ r. p r ≡ true → P r) rows
    → All P (filterb p rows)
filterb-implied P p [] h = tt
filterb-implied P p (r ∷ rows) h = elim (Bool-cases (p r)) [
  | inl y ↦ rw y (h.0 y, filterb-implied P p rows h.1)
  | inr k ↦ rw k (filterb-implied P p rows h.1)
]

pub All-filterb {κ} :
    (P : Notification → Type κ) (p : Notification → Bool) (rows : Rows)
    → All P (filterb p rows)
    → All (λ r. p r ≡ true → P r) rows
All-filterb P p [] h = tt
All-filterb P p (r ∷ rows) h = go (p r) refl h (All-filterb P p rows)
  where
    go :
        (b : Bool)
        → p r ≡ b
        → All P (if b then r ∷ filterb p rows else filterb p rows)
        → (All P (filterb p rows) → All (λ x. p x ≡ true → P x) rows)
        → (p r ≡ true → P r) × All (λ x. p x ≡ true → P x) rows
    go true e h ih = ((λ k. h.0), ih h.1)
    go false e h ih = ((λ k. absurd (false≢true (sym e ∙ k))), ih h)

-- Every row of a sorted list is among the first `n`, or due no earlier than each of them.
abbrev pub FirstOrLater : (Notification → ℕ) → ℕ → Rows → Notification → Type 0
FirstOrLater due n l y = (contains y.id (take n l) ≡ true) ⊎ All (λ x. due x ≤ due y) (take n l)

later_cons :
    (due : Notification → ℕ) (n : ℕ) (z : Notification) (l rest : Rows)
    → All (λ y. due z ≤ due y) rest
    → All (FirstOrLater due n l) rest
    → All (FirstOrLater due (suc n) (z ∷ l)) rest
later_cons due n z l [] h k = tt
later_cons due n z l (y ∷ rest) h k = (
  elim k.0 [ inl c ↦ inl (ground arith) | inr a ↦ inr (h.0, a) ],
  later_cons due n z l rest h.1 k.1,
)

all_later : (due : Notification → ℕ) (l rest : Rows) → All (FirstOrLater due 0 l) rest
all_later due l [] = tt
all_later due l (y ∷ rest) = (inr tt, all_later due l rest)

pub first_or_later :
    (due : Notification → ℕ) (n : ℕ) (l : Rows) → IsSortedBy due l → All (FirstOrLater due n l) l
first_or_later due zero l s = all_later due l l
first_or_later due (suc n) [] s = tt
first_or_later due (suc n) (z ∷ l) s =
    (inl (rw (==_refl z.id)), later_cons due n z l l s.0 (first_or_later due n l s.1))
