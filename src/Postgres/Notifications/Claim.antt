-- ===== src/Postgres/Notifications/Claim.antt =====
-- GetScheduledReady and GetRetryReady of internal/adapter/repository/postgres/notification.go: the
-- claims by which the pollers take due notifications.
use mathlib.Core.Bool.{false≢true}
use mathlib.Core.Option
use mathlib.Core.Path.{subst}
use event_driven_notificatio.Prelude.{
  ℕ, ◌≤◌, ◌≡◌, refl, ap, sym, ◌∙◌, Bool, true, false, not, ◌&&◌, some, [], ◌∷◌, arith, ==_iff,
  Bool-cases, some-eq, inl, inr, if◌then◌else◌, length, take, length-take-le, filterb, All, sort_by,
  sort_by-All, All-sort_by, sort_by-IsSorted, length-sort_by, length-take, min,
}
use event_driven_notificatio.Postgres.Notifications.Distinct.{
  IsTable-AreDistinct, filterb-AreDistinct, sort_by-AreDistinct, take-AreDistinct,
  length-filterb-all,
}
use event_driven_notificatio.Domain.Notification.{Uuid, Time, queued, Notification}
use event_driven_notificatio.Postgres.Notifications.{
  Rows, contains, queued_row, update_where, find_row,
}
use event_driven_notificatio.Postgres.Notifications.Table.{
  IsTable, find_row_self, find_row-update_where, find_row-Hits, map-Hits, map-Hits_self,
  update_where-IsTable, contains-update_where,
}
use event_driven_notificatio.Postgres.Notifications.RowLists.{
  filterb-All, filterb-holds, take-All, All-both, contains-All, contains-filterb,
  length-filterb-contains, find_row-All, find_row-contains, All-filterb, filterb-implied,
  FirstOrLater, first_or_later,
}

-- What a claim finds and leaves: as many rows as were ready and not locked by another transaction, but
-- `limit` at most; all are queued now; each was under its ID, ready
-- and not locked by another transaction; the row under an ID is queued if it was found, and else
-- stays as it was; and a row that was ready, not locked and not found is due no earlier than any
-- row found.
pub record IsClaim (ready : Notification → Bool) (due : Notification → ℕ) (locked : Uuid → Bool)
    (limit : ℕ) (now : Time) (rows : Rows) (found rows' : Rows) : Type 0 where
  pub limited : length found ≤ limit
  pub full : length found ≡ min limit (length (filterb (λ r. ready r && not (locked r.id)) rows))
  pub all_queued : All (λ r. r.status ≡ queued) found
  pub was_ready :
      (id : Uuid)
      → contains id found ≡ true
      → (r : Notification) × (find_row id rows ≡ some r) × (ready r ≡ true) × (locked id ≡ false)
  pub effect :
      (id : Uuid)
      → find_row id rows' ≡ (
          if contains id found
          then Option.map (queued_row now) (find_row id rows)
          else find_row id rows)
  pub oldest_first :
      (x y : Notification)
      → find_row x.id rows ≡ some x
      → find_row y.id rows ≡ some y
      → contains x.id found ≡ true
      → contains y.id found ≡ false
      → ready y ≡ true
      → locked y.id ≡ false
      → due x ≤ due y

-- A claim on a table.
module _ (ready : Notification → Bool) (due : Notification → ℕ) (locked : Uuid → Bool) (limit : ℕ)
    (now : Time) (rows : Rows) (t : IsTable rows) where
  abbrev pub eligible : Rows
  eligible = sort_by due (filterb (λ r. ready r && not (locked r.id)) rows)

  abbrev pub chosen : Rows
  chosen = take limit eligible

  abbrev pub claimed : Rows
  claimed = update_where (λ r. contains r.id chosen) (queued_row now) rows

  -- what holds of each chosen row
  abbrev pub Chosen : Notification → Type 0
  Chosen r = (find_row r.id rows ≡ some r) × ((ready r && not (locked r.id)) ≡ true)

  chosen-All : All Chosen chosen
  chosen-All = take-All Chosen limit eligible (
      sort_by-All due Chosen _
        (All-both _ _ _ (filterb-All _ _ rows (find_row_self rows t)) (filterb-holds _ rows)))

  pub claimed-IsTable : IsTable claimed
  unfolding queued_row
  claimed-IsTable =
      update_where-IsTable _ (queued_row now) (λ r. refl) (λ r. refl) (λ r. refl) rows t

  contains-chosen :
      (id : Uuid)
      → contains id chosen ≡ true
      → (r : Notification) × (find_row id rows ≡ some r) × (ready r ≡ true) × (locked id ≡ false)
  contains-chosen id h =
      let (r, same, c) = contains-All Chosen id chosen chosen-All h in
      let e = (==_iff r.id id).0 same in
      let free : locked r.id ≡ false = ground arith in
      (
        r,
        subst (λ i. find_row i rows ≡ some r) e c.0,
        ground arith,
        subst (λ i. locked i ≡ false) e free,
      )

  abbrev pub found : Rows
  found = filterb (λ r. contains r.id chosen) claimed

  contains-found : (id : Uuid) → contains id found ≡ contains id chosen
  contains-found id = elim (Bool-cases (contains id chosen)) [
    | inl y ↦
        let (r, e, _, _) = contains-chosen id y in
        contains-filterb id chosen claimed
        ∙ rw
            (contains-update_where (λ r. contains r.id chosen) (queued_row now)
              (λ r. unfold queued_row in refl) (λ r. unfold queued_row in refl)
              (λ r. unfold queued_row in refl) id rows)
            (rw (find_row-contains id rows r e) refl)
    | inr k ↦ contains-filterb id chosen claimed ∙ rw k (ground arith)
  ]

  found-queued :
      (rest : Rows)
      → All
          (λ r. contains r.id chosen ≡ true → r.status ≡ queued)
          (update_where (λ r. contains r.id chosen) (queued_row now) rest)
  unfolding update_where queued_row
  found-queued [] = tt
  found-queued (r ∷ rest) = elim (Bool-cases (contains r.id chosen)) [
    | inl y ↦ rw y ((λ k. refl), found-queued rest)
    | inr n ↦ rw n ((λ k. absurd (false≢true (sym n ∙ k))), found-queued rest)
  ]

  find_row-claimed :
      (id : Uuid)
      → find_row id claimed ≡ (
          if contains id found
          then Option.map (queued_row now) (find_row id rows)
          else find_row id rows)
  unfolding queued_row
  find_row-claimed id =
      find_row-update_where (λ r. contains r.id chosen) (queued_row now) (λ r. refl) (λ r. refl)
        (λ r. refl) id rows
      ∙ go (contains id chosen) refl
    where
      go :
          (b : Bool)
          → contains id chosen ≡ b
          → Option.map
              (λ r. if contains r.id chosen then queued_row now r else r)
              (find_row id rows)
            ≡ (if contains id found
                then Option.map (queued_row now) (find_row id rows)
                else find_row id rows)
      go true e = rw (contains-found id) (
          rw e (
            map-Hits id _ _
              (λ r h. rw (ap (λ (i : ℕ). contains i chosen) ((==_iff r.id id).0 h) ∙ e) refl) _
              (find_row-Hits id rows)))
      go false e = rw (contains-found id) (
          rw e (
            map-Hits_self id _
              (λ r h. rw (ap (λ (i : ℕ). contains i chosen) ((==_iff r.id id).0 h) ∙ e) refl) _
              (find_row-Hits id rows)))

  later : All (λ y. (ready y && not (locked y.id)) ≡ true → FirstOrLater due limit eligible y) rows
  later = All-filterb (FirstOrLater due limit eligible) _ rows (
      All-sort_by due (FirstOrLater due limit eligible) _
        (first_or_later due limit eligible (sort_by-IsSorted due _)))

  oldest :
      (x y : Notification)
      → find_row x.id rows ≡ some x
      → contains x.id chosen ≡ true
      → contains y.id chosen ≡ false
      → FirstOrLater due limit eligible y
      → due x ≤ due y
  oldest x y fx cx cy (inl c) = absurd (false≢true (sym cy ∙ c))
  oldest x y fx cx cy (inr a) =
      let (r, same, c) =
        contains-All (λ r. Chosen r × (due r ≤ due y)) x.id chosen
          (All-both _ _ chosen chosen-All a) cx in
      let at = subst (λ i. find_row i rows ≡ some r) ((==_iff r.id x.id).0 same) c.0.0 in
      subst (λ z. due z ≤ due y) (some-eq (sym at ∙ fx)) c.1

  contains-claimed : (id : Uuid) → contains id claimed ≡ contains id rows
  unfolding queued_row
  contains-claimed id =
      contains-update_where (λ r. contains r.id chosen) (queued_row now) (λ r. refl) (λ r. refl)
        (λ r. refl) id rows

  claimed_has : (xs : Rows) → All Chosen xs → All (λ c. contains c.id claimed ≡ true) xs
  claimed_has [] h = tt
  claimed_has (x ∷ xs) h =
      (contains-claimed x.id ∙ find_row-contains x.id rows x h.0.0, claimed_has xs h.1)

  -- as many rows as are chosen
  length-found : length found ≡ length chosen
  length-found =
      let d =
        take-AreDistinct limit eligible
          (sort_by-AreDistinct due _ (filterb-AreDistinct _ rows (IsTable-AreDistinct rows t))) in
      omega (
        arith,
        length-filterb-contains chosen claimed claimed-IsTable,
        length-filterb-all chosen claimed d (claimed_has chosen chosen-All),
      )

  pub claimed-IsClaim : IsClaim ready due locked limit now rows found claimed
  claimed-IsClaim = record {
    full = length-found ∙ (length-take limit eligible ∙ ap (min limit) (length-sort_by due _));
    limited = omega (
      arith,
      length-filterb-contains chosen claimed claimed-IsTable,
      length-take-le limit eligible,
    );
    all_queued = filterb-implied _ _ claimed (found-queued rows);
    was_ready = λ id h. contains-chosen id (sym (contains-found id) ∙ h);
    effect = find_row-claimed;
    oldest_first = λ x y fx fy cx cy ry ly.
        oldest x y fx (sym (contains-found x.id) ∙ cx) (sym (contains-found y.id) ∙ cy)
          (find_row-All _ y.id rows y later fy (rw (ry, ly) refl));
  }
