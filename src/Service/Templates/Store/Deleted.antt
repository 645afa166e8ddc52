-- ===== src/Service/Templates/Store/Deleted.antt =====
-- What becomes of a template that TemplateService.Delete of internal/service/template.go takes away,
-- for Preview, List and NotificationService.Create.
use event_driven_notificatio.Prelude.{
  ℕ, ◌≡◌, refl, true, false, ◌==◌, Option, none, some, [], ◌∷◌, All, List, leb, sort_by-All,
  take-All, drop-All, reverse-All, ◌^◌, ℤ, Bool-cases, inl, inr, ap, ◌∙◌,
}
use mathlib.Core.Option
use event_driven_notificatio.Domain.Errors.{
  Error, Result, ok, err, panics, sentinel, template_inactive, OfAnswer,
}
use event_driven_notificatio.Domain.Notification.{Uuid, Time, is_valid, Vars}
use event_driven_notificatio.Domain.Template.{Template}
use event_driven_notificatio.Postgres.Pages.{
  page_rows, limit_offset, newest_first, page_of, page_size_of, offset_of,
}
use event_driven_notificatio.Postgres.Templates.{
  TemplateRows, find_template, or_missing, template_by_id, change_template, delete_template,
  retired, active_rows, with_total, list_templates,
}
use event_driven_notificatio.Postgres.Templates.Rows.{under, find-change_self}
use event_driven_notificatio.Service.World.{UuidText}
use event_driven_notificatio.Service.Templates.{Engine, preview}
use event_driven_notificatio.Service.Intake.{CreateNotificationRequest}
use event_driven_notificatio.Service.Create.{Store, CreateOutside, create_notification, filled_in}
use event_driven_notificatio.Service.Templates.Store.{
  get_requested, delete_requested, list_requested,
}

-- No row has the ID.
abbrev pub LacksTemplate : Uuid → List Template → Type 0
LacksTemplate id = All (λ (r : Template). (r.id == id) ≡ false)

retired-active :
    (now : Time) (id : Uuid) (rows : TemplateRows)
    → LacksTemplate id (active_rows (change_template id (retired now) rows))
unfolding change_template retired
retired-active now id [] = tt
retired-active now id (r ∷ rows) = elim (Bool-cases (r.id == id)) [
  | inl y ↦ rw y (retired-active now id rows)
  | inr k ↦ rw k (elim (Bool-cases r.active) [
    | inl a ↦ rw a (k, retired-active now id rows)
    | inr i ↦ rw i (retired-active now id rows)
  ])
]

page_rows-All :
    {A : Type 0} (P : A → Type 0) (key : A → ℕ) (page size : ℕ) (rows : List A)
    → All P rows
    → OfAnswer (All P) (page_rows key page size rows)
unfolding page_rows limit_offset newest_first
page_rows-All P key page size rows h = elim (Bool-cases (leb (2 ^ 63) (offset_of page size))) [
  | inl y ↦ rw y tt
  | inr k ↦ rw k (
      take-All P size _
        (drop-All P (offset_of page size) _ (reverse-All P _ (sort_by-All key P rows h))))
]

with_total-All :
    (P : Template → Type 0) (total : ℕ) (r : Result (List Template))
    → OfAnswer (All P) r
    → OfAnswer (λ a. All P a.0) (with_total total r)
unfolding with_total
with_total-All P total (ok ts) h = h
with_total-All P total (err e) h = tt
with_total-All P total panics h = tt

listed_lacks :
    (fault select_fault : Option Error) (page size : ℤ) (now : Time) (id : Uuid)
    (counted rows : TemplateRows)
    → OfAnswer
        (λ a. LacksTemplate id a.0)
        (list_requested fault select_fault page size counted (delete_requested none now id rows).1)
unfolding list_requested list_templates delete_requested delete_template
listed_lacks (some e) f page size now id counted rows = tt
listed_lacks none (some e) page size now id counted rows = tt
listed_lacks none none page size now id counted rows =
    with_total-All (λ r. (r.id == id) ≡ false) _ _
      (page_rows-All _ _ (page_of page) (page_size_of size) _ (retired-active now id rows))

get_deleted :
    (now : Time) (id : Uuid) (rows : TemplateRows) (t : Template)
    → find_template (under id) rows ≡ some t
    → get_requested none id (delete_requested none now id rows).1 ≡ ok (retired now t)
unfolding get_requested delete_requested template_by_id delete_template
get_deleted now id rows t h = ap or_missing (
    find-change_self id (retired now) (λ r. unfold retired in refl) rows
    ∙ ap (Option.map (retired now)) h)

preview_deleted :
    (engine : Engine) (now : Time) (t : Template) (vars : Option Vars)
    → preview engine (ok (retired now t)) vars ≡ err (sentinel template_inactive)
unfolding preview retired
preview_deleted engine now t vars = refl

create_from_deleted :
    (u : UuidText) (engine : Engine) (o : CreateOutside) (req : CreateNotificationRequest)
    (st : Store) (id : Uuid) (now : Time) (t : Template)
    → is_valid req.channel ≡ true
    → req.template_id ≡ some id
    → o.template id ≡ ok (retired now t)
    → create_notification u engine o req st ≡ (err (sentinel template_inactive), st)
unfolding create_notification filled_in retired
create_from_deleted u engine o req st id now t v i a = rw v (rw i (rw a refl))

module _ (u : UuidText) (engine : Engine) (now : Time) (id : Uuid) (rows : TemplateRows) where
  -- The templates table after a Delete.
  abbrev pub remaining : TemplateRows
  remaining = (delete_requested none now id rows).1

  -- After a Delete of a template that the table has, whatever its other fields: GetByID answers it,
  -- inactive; Preview answers ErrTemplateInactive for any variables, and so does a Create, whose
  -- lookup of templates is this GetByID, of a notification with a valid channel that names it, which
  -- changes nothing; and no answer of List has it.
  pub delete_disables :
      (t : Template) (vars : Option Vars) (o : CreateOutside) (req : CreateNotificationRequest)
      (st : Store) (count_fails select_fails : Option Error) (page size : ℤ)
      (counted : TemplateRows)
      → find_template (under id) rows ≡ some t
      → is_valid req.channel ≡ true
      → req.template_id ≡ some id
      → o.template id ≡ get_requested none id remaining
      → (get_requested none id remaining ≡ ok (retired now t))
        × (preview engine (get_requested none id remaining) vars ≡ err (sentinel template_inactive))
        × (create_notification u engine o req st ≡ (err (sentinel template_inactive), st))
        × OfAnswer
            (λ a. LacksTemplate id a.0)
            (list_requested count_fails select_fails page size counted remaining)
  delete_disables t vars o req st count_fails select_fails page size counted h v i a =
      let g = get_deleted now id rows t h in
      (
        g,
        rw g (preview_deleted engine now t vars),
        create_from_deleted u engine o req st id now t v i (a ∙ g),
        listed_lacks count_fails select_fails page size now id counted rows,
      )
