-- ===== src/Postgres/Templates/Rows.antt =====
-- The row under an ID of the templates table, and predicates on all rows.
use event_driven_notificatio.Prelude.{
  ◌≡◌, ◌≢◌, refl, Bool, false, [], ◌∷◌, All, arith, ◌==◌, Bool-cases, inl, inr,
}
use mathlib.Core.Option
use event_driven_notificatio.Domain.Notification.{Uuid}
use event_driven_notificatio.Domain.Template.{Template}
use event_driven_notificatio.Postgres.Templates.{TemplateRows, find_template, change_template}

abbrev pub under : Uuid → Template → Bool
under id r = r.id == id

module _ (id : Uuid) (f : Template → Template) (id_kept : (r : Template) → (f r).id ≡ r.id) where
  pub find-change_self :
      (rows : TemplateRows)
      → find_template (under id) (change_template id f rows)
        ≡ Option.map f (find_template (under id) rows)
  unfolding find_template change_template
  find-change_self [] = refl
  find-change_self (r ∷ rows) = elim (Bool-cases (r.id == id)) [
    | inl y ↦ rw y (rw (id_kept r) (rw y))
    | inr k ↦ rw k (rw k (find-change_self rows))
  ]

  pub find-change_other :
      (other : Uuid) (rows : TemplateRows)
      → other ≢ id
      → find_template (under other) (change_template id f rows) ≡ find_template (under other) rows
  unfolding find_template change_template
  find-change_other other [] ne = refl
  find-change_other other (r ∷ rows) ne = elim (Bool-cases (r.id == id)) [
    | inl y ↦
        let k : (r.id == other) ≡ false = ground arith in
        rw y (rw (id_kept r) (rw k (find-change_other other rows ne)))
    | inr k ↦ rw k (rw (find-change_other other rows ne))
  ]

  pub change-All {κ} :
      (P : Template → Type κ) (rows : TemplateRows)
      → ((r : Template) → P r → P (f r))
      → All P rows
      → All P (change_template id f rows)
  unfolding change_template
  change-All P [] k h = tt
  change-All P (r ∷ rows) k h = elim (Bool-cases (r.id == id)) [
    | inl y ↦ rw y (k r h.0, change-All P rows k h.1)
    | inr n ↦ rw n (h.0, change-All P rows k h.1)
  ]
