-- ===== src/Postgres/Templates.antt =====
-- internal/adapter/repository/postgres/template.go and the templates table of
-- migrations/000002_create_templates.up.sql. A failure of the database is an argument of the call.
pub mod Table
pub mod Rows
use event_driven_notificatio.Prelude.{
  ℕ, String, Bool, true, false, not, ◌&&◌, ◌||◌, Option, none, some, List, [], ◌∷◌, ◌++◌, map,
  filterb, length, ◌==◌, str_eq, if◌then◌else◌, ℤ,
}
use event_driven_notificatio.Domain.Errors.{Error, sentinel, not_found, Result, ok, err, panics}
use event_driven_notificatio.Domain.Notification.{Uuid, Time, is_valid}
use event_driven_notificatio.Domain.Template.{Template}
use event_driven_notificatio.Postgres.Notifications.{constraint_error}
use event_driven_notificatio.Postgres.Pages.{page_of, page_size_of, page_rows}

abbrev pub TemplateRows : Type 0
TemplateRows = List Template

-- PRIMARY KEY (id) and UNIQUE (name)
abbrev pub template_clash : Template → Template → Bool
template_clash r t = r.id == t.id || str_eq r.name t.name

abbrev pub template_clashes : Template → TemplateRows → Bool
template_clashes t [] = false
template_clashes t (r ∷ rows) = template_clash r t || template_clashes t rows

-- TemplateRepo.Create, with the CHECK on the channel
unfoldable pub create_template :
    Option Error → Template → TemplateRows → Result (Unit {0}) × TemplateRows
unfolding constraint_error
create_template (some e) t rows = (err e, rows)
create_template none t rows =
    if template_clashes t rows || not (is_valid t.channel)
    then (err constraint_error, rows)
    else (ok tt, rows ++ t ∷ [])

unfoldable pub find_template : (Template → Bool) → TemplateRows → Option Template
find_template p [] = none
find_template p (r ∷ rows) = if p r then some r else find_template p rows

unfoldable pub or_missing : Option Template → Result Template
or_missing none = err (sentinel not_found)
or_missing (some t) = ok t

-- TemplateRepo.GetByID
unfoldable pub template_by_id : Option Error → Uuid → TemplateRows → Result Template
unfolding or_missing
template_by_id (some e) id rows = err e
template_by_id none id rows = or_missing (find_template (λ r. r.id == id) rows)

-- TemplateRepo.GetByName
unfoldable pub template_by_name : Option Error → String → TemplateRows → Result Template
unfolding or_missing
template_by_name (some e) name rows = err e
template_by_name none name rows = or_missing (find_template (λ r. str_eq r.name name) rows)

-- Another row has the name.
abbrev pub name_taken : Template → TemplateRows → Bool
name_taken t [] = false
name_taken t (r ∷ rows) = (not (r.id == t.id) && str_eq r.name t.name) || name_taken t rows

abbrev pub has_template : Uuid → TemplateRows → Bool
has_template id [] = false
has_template id (r ∷ rows) = r.id == id || has_template id rows

-- The columns that Update writes.
unfoldable pub saved_template : Template → Template → Template
saved_template t r = record r {
  name = t.name;
  channel = t.channel;
  subject = t.subject;
  content = t.content;
  variables = t.variables;
  active = t.active;
  updated_at = t.updated_at;
}

-- UPDATE ... WHERE id = $1, with the assignments as a function
unfoldable pub change_template : Uuid → (Template → Template) → TemplateRows → TemplateRows
change_template id f [] = []
change_template id f (r ∷ rows) = (if r.id == id then f r else r) ∷ change_template id f rows

-- The statement of Update: the constraints are checked only if there is a row to write.
unfoldable pub save_template : Template → TemplateRows → Result (Unit {0}) × TemplateRows
unfolding constraint_error saved_template change_template
save_template t rows =
    if has_template t.id rows && (name_taken t rows || not (is_valid t.channel))
    then (err constraint_error, rows)
    else (ok tt, change_template t.id (saved_template t) rows)

-- TemplateRepo.Update: the result, the template with its new `UpdatedAt`, and the rows.
unfoldable pub update_template :
    Option Error → Time → Template → TemplateRows → Result (Unit {0}) × Template × TemplateRows
unfolding save_template
update_template (some e) now t rows = (err e, record t { updated_at = now }, rows)
update_template none now t rows =
    let t' : Template = record t { updated_at = now } in
    let (reply, rows') = save_template t' rows in (reply, t', rows')

unfoldable pub retired : Time → Template → Template
retired now r = record r { active = false; updated_at = now }

-- TemplateRepo.Delete: the row stays, inactive; a missing row is no error.
unfoldable pub delete_template :
    Option Error → Time → Uuid → TemplateRows → Result (Unit {0}) × TemplateRows
unfolding change_template retired
delete_template (some e) now id rows = (err e, rows)
delete_template none now id rows = (ok tt, change_template id (retired now) rows)

abbrev pub active_rows : TemplateRows → TemplateRows
active_rows rows = filterb (λ (r : Template). r.active) rows

unfoldable pub with_total : ℕ → Result (List Template) → Result (List Template × ℕ)
with_total total (err e) = err e
with_total total panics = panics
with_total total (ok ts) = ok (ts, total)

-- the second statement of List
unfoldable pub select_templates :
    Option Error → ℤ → ℤ → ℕ → TemplateRows → Result (List Template × ℕ)
unfolding with_total
select_templates (some e) page page_size total rows = err e
select_templates none page page_size total rows = with_total total (
    page_rows (λ (t : Template). t.created_at) (page_of page) (page_size_of page_size)
      (active_rows rows))

-- TemplateRepo.List: COUNT reads the rows of one moment, SELECT those of a later one, in the order in
-- which it meets them.
unfoldable pub list_templates :
    Option Error → Option Error → ℤ → ℤ → TemplateRows → TemplateRows → Result (List Template × ℕ)
unfolding select_templates
list_templates (some e) select_fails page page_size counted rows = err e
list_templates none select_fails page page_size counted rows =
    select_templates select_fails page page_size (length (active_rows counted)) rows
