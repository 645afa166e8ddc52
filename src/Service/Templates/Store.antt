-- ===== src/Service/Templates/Store.antt =====
-- internal/service/template.go: Create, GetByID, Update, Delete and List of TemplateService, on the
-- rows of the templates table.
pub mod Contents
pub mod History
pub mod Deleted
use Prim.Native.String.{String}
use event_driven_notificatio.Prelude.{Option, none, some, List, if◌then◌else◌, ℤ, ℕ}
use event_driven_notificatio.Domain.Errors.{
  Error, sentinel, wrapped, invalid_channel, Result, ok, err, panics, ◌>>=◌, ◌>>◌,
}
use event_driven_notificatio.Domain.Notification.{Uuid, Time, is_valid}
use event_driven_notificatio.Domain.Template.{TemplateVariable, Template, new_template}
use event_driven_notificatio.Postgres.Templates.{
  TemplateRows, create_template, template_by_id, update_template, delete_template, list_templates,
}
use event_driven_notificatio.Service.Templates.{Engine}

-- CreateTemplateRequest; a nil slice is none.
pub record CreateTemplateRequest : Type 0 where
  pub name : String
  pub channel : String
  pub subject : String
  pub content : String
  pub variables : Option (List TemplateVariable)

-- UpdateTemplateRequest; a field that is left out is none.
pub record UpdateTemplateRequest : Type 0 where
  pub name : Option String
  pub channel : Option String
  pub subject : Option String
  pub content : Option String
  pub variables : Option (List TemplateVariable)

abbrev pub or_old {ℓ} : {A : Type ℓ} → Option A → A → A
or_old none old = old
or_old (some a) old = a

unfoldable pub requested_template : Uuid → Time → CreateTemplateRequest → Template
unfolding new_template
requested_template id now req =
    let t = new_template id now req.name req.channel req.content in
    record t { subject = req.subject; variables = or_old req.variables t.variables }

-- from the result of the repository's Create
unfoldable pub created_template :
    Template → Result (Unit {0}) × TemplateRows → Result Template × TemplateRows
created_template t (err e, rows) = (err e, rows)
created_template t (panics, rows) = (panics, rows)
created_template t (ok _, rows) = (ok t, rows)

-- from the result of the repository's Update, which has set `UpdatedAt` in the template
unfoldable pub updated_template :
    Result (Unit {0}) × Template × TemplateRows → Result Template × TemplateRows
updated_template (err e, t, rows) = (err e, rows)
updated_template (panics, t, rows) = (panics, rows)
updated_template (ok _, t, rows) = (ok t, rows)

unfoldable pub with_channel : Option String → Template → Result Template
with_channel none t = ok t
with_channel (some c) t =
    if is_valid c then ok (record t { channel = c }) else err (sentinel invalid_channel)

-- TemplateService.GetByID
unfoldable pub get_requested : Option Error → Uuid → TemplateRows → Result Template
get_requested fault id rows = template_by_id fault id rows

-- TemplateService.Delete
unfoldable pub delete_requested :
    Option Error → Time → Uuid → TemplateRows → Result (Unit {0}) × TemplateRows
delete_requested fault now id rows = delete_template fault now id rows

-- TemplateService.List
unfoldable pub list_requested :
    Option Error → Option Error → ℤ → ℤ → TemplateRows → TemplateRows → Result (List Template × ℕ)
list_requested count_fails select_fails page page_size counted rows =
    list_templates count_fails select_fails page page_size counted rows

unfoldable pub syntax_result : Option Error → Result (Unit {0})
syntax_result none = ok tt
syntax_result (some e) = err (wrapped "invalid template syntax: " e "")

module _ (engine : Engine) where
  -- the check of the syntax
  unfoldable pub parsed : String → Result (Unit {0})
  unfolding syntax_result
  parsed content = syntax_result (engine.parse_error content)

  unfoldable pub with_content : Option String → Template → Result Template
  unfolding parsed
  with_content none t = ok t
  with_content (some content) t = do parsed content; ok (record t { content = content })

  unfoldable pub stored_template :
      Option Error → Template → Result (Unit {0}) → TemplateRows → Result Template × TemplateRows
  unfolding created_template
  stored_template fault t (err e) rows = (err e, rows)
  stored_template fault t panics rows = (panics, rows)
  stored_template fault t (ok _) rows = created_template t (create_template fault t rows)

  -- TemplateService.Create
  unfoldable pub create_requested :
      Option Error
      → Uuid
      → Time
      → CreateTemplateRequest
      → TemplateRows
      → Result Template × TemplateRows
  unfolding stored_template parsed requested_template
  create_requested fault id now req rows =
      if is_valid req.channel
      then stored_template fault (requested_template id now req) (parsed req.content) rows
      else (err (sentinel invalid_channel), rows)

  -- Update, the fields of the request in their order
  unfoldable pub edited : UpdateTemplateRequest → Template → Result Template
  unfolding with_channel with_content
  edited req t = do
    t1 ← with_channel req.channel (record t { name = or_old req.name t.name })
    t2 ← with_content req.content (record t1 { subject = or_old req.subject t1.subject })
    ok (record t2 { variables = or_old req.variables t2.variables })

  unfoldable pub saved_edit :
      Option Error → Time → Result Template → TemplateRows → Result Template × TemplateRows
  unfolding updated_template
  saved_edit fault now (err e) rows = (err e, rows)
  saved_edit fault now panics rows = (panics, rows)
  saved_edit fault now (ok t) rows = updated_template (update_template fault now t rows)

  -- TemplateService.Update: GetByID reads the rows of one moment, Update writes to those of a later
  -- one.
  unfoldable pub update_requested :
      Option Error
      → Option Error
      → Time
      → Uuid
      → UpdateTemplateRequest
      → TemplateRows
      → TemplateRows
      → Result Template × TemplateRows
  unfolding saved_edit edited
  update_requested get_fails fault now id req read rows =
      saved_edit fault now (template_by_id get_fails id read >>= edited req) rows
