-- ===== src/Http/Templates.antt =====
-- internal/adapter/handler/template.go. Each handler takes the decoded body, if it decodes, or the
-- texts of the path and of the query.
pub mod Pages
use Prim.Native.String.{String}
use event_driven_notificatio.Prelude.{
  ℕ, zero, suc, ◌/◌, ◌%◌, Option, none, some, List, ltb, if◌then◌else◌, ℤ, pos, negsuc,
}
use event_driven_notificatio.Domain.Errors.{Error, Result, ok, err, panics}
use event_driven_notificatio.Domain.Notification.{Uuid, Time, Vars}
use event_driven_notificatio.Domain.Template.{Template}
use event_driven_notificatio.Postgres.Pages.{total_pages_of}
use event_driven_notificatio.Postgres.Templates.{TemplateRows}
use event_driven_notificatio.Service.World.{UuidText}
use event_driven_notificatio.Service.Templates.{Engine, preview}
use event_driven_notificatio.Service.Templates.Store.{
  CreateTemplateRequest, UpdateTemplateRequest, create_requested, get_requested, update_requested,
  delete_requested, list_requested,
}
use event_driven_notificatio.Http.Response.{
  Handled, wrote, panicked, refusal, success, answer, write_error,
}
use event_driven_notificatio.Http.Notifications.{invalid_body, int_param}

abbrev pub invalid_template_id : {A : Type 0} → Handled A
invalid_template_id = wrote (refusal 400 "invalid template ID")

abbrev pub negated_int : ℕ → ℤ
negated_int zero = pos 0
negated_int (suc n) = negsuc n

abbrev pub next_int : ℤ → ℤ
next_int (pos n) = pos (suc n)
next_int (negsuc zero) = pos 0
next_int (negsuc (suc n)) = negsuc n

-- int(total) / pageSize on Go's ints, which cut towards zero, and one more where the rest is
-- positive; a division by zero panics.
unfoldable pub reported_pages : ℕ → ℤ → Option ℤ
reported_pages total (pos zero) = none
reported_pages total (pos (suc n)) = some (pos (total_pages_of total (suc n)))
reported_pages total (negsuc n) =
    let pages = negated_int (total / suc n) in
    some (if ltb 0 (total % suc n) then next_int pages else pages)

-- The body of List: its `data` as `found`, and its `pagination`.
pub record TemplatePage : Type 0 where
  pub found : List Template
  pub page : ℤ
  pub page_size : ℤ
  pub total : ℕ
  pub total_pages : ℤ

-- List, from the number of pages
unfoldable pub template_page : List Template → ℤ → ℤ → ℕ → Option ℤ → Handled TemplatePage
template_page found page page_size total none = panicked
template_page found page page_size total (some n) = wrote (
    success 200 (record {
      found = found;
      page = page;
      page_size = page_size;
      total = total;
      total_pages = n;
    }))

-- List, from the service's answer
unfoldable pub template_pages : ℤ → ℤ → Result (List Template × ℕ) → Handled TemplatePage
unfolding template_page reported_pages write_error
template_pages page page_size (err e) = wrote (write_error e)
template_pages page page_size panics = panicked
template_pages page page_size (ok (found, total)) =
    template_page found page page_size total (reported_pages total page_size)

-- TemplateHandler.List
unfoldable pub handle_list_templates :
    Option Error
    → Option Error
    → String
    → String
    → TemplateRows
    → TemplateRows
    → Handled TemplatePage
unfolding template_pages
handle_list_templates count_fails select_fails page_text size_text counted rows =
    let page = int_param page_text (pos 1) in
    let page_size = int_param size_text (pos 20) in
    template_pages page page_size
      (list_requested count_fails select_fails page page_size counted rows)

module _ (u : UuidText) where
  -- TemplateHandler.GetByID
  unfoldable pub handle_get_template : Option Error → String → TemplateRows → Handled Template
  unfolding answer
  handle_get_template fault text rows = elim (u.parse text) [
    | none ↦ invalid_template_id
    | some id ↦ answer 200 (get_requested fault id rows)
  ]

  deleted_by : Option Error → Time → Option Uuid → TemplateRows → Handled (Unit {0}) × TemplateRows
  unfolding answer
  deleted_by fault now none rows = (invalid_template_id, rows)
  deleted_by fault now (some id) rows =
      let (reply, rows') = delete_requested fault now id rows in (answer 200 reply, rows')

  -- TemplateHandler.Delete
  unfoldable pub handle_delete_template :
      Option Error → Time → String → TemplateRows → Handled (Unit {0}) × TemplateRows
  unfolding deleted_by
  handle_delete_template fault now text rows = deleted_by fault now (u.parse text) rows

  module _ (engine : Engine) where
    -- TemplateHandler.Create
    unfoldable pub handle_create_template :
        Option Error
        → Uuid
        → Time
        → Option CreateTemplateRequest
        → TemplateRows
        → Handled Template × TemplateRows
    unfolding answer
    handle_create_template fault id now none rows = (invalid_body, rows)
    handle_create_template fault id now (some req) rows =
        let (reply, rows') = create_requested engine fault id now req rows in
        (answer 201 reply, rows')

    updated_by :
        Option Error
        → Option Error
        → Time
        → Option Uuid
        → Option UpdateTemplateRequest
        → TemplateRows
        → TemplateRows
        → Handled Template × TemplateRows
    unfolding answer
    updated_by get_fails fault now none body read rows = (invalid_template_id, rows)
    updated_by get_fails fault now (some id) none read rows = (invalid_body, rows)
    updated_by get_fails fault now (some id) (some req) read rows =
        let (reply, rows') = update_requested engine get_fails fault now id req read rows in
        (answer 200 reply, rows')

    -- TemplateHandler.Update
    unfoldable pub handle_update_template :
        Option Error
        → Option Error
        → Time
        → String
        → Option UpdateTemplateRequest
        → TemplateRows
        → TemplateRows
        → Handled Template × TemplateRows
    unfolding updated_by
    handle_update_template get_fails fault now text body read rows =
        updated_by get_fails fault now (u.parse text) body read rows

    previewed :
        Option Error → Option Uuid → Option (Option Vars) → TemplateRows → Handled (String × String)
    unfolding answer
    previewed fault none body rows = invalid_template_id
    previewed fault (some id) none rows = invalid_body
    previewed fault (some id) (some vars) rows =
        answer 200 (preview engine (get_requested fault id rows) vars)

    -- TemplateHandler.Preview; a body without variables has a nil map.
    unfoldable pub handle_preview :
        Option Error → String → Option (Option Vars) → TemplateRows → Handled (String × String)
    unfolding previewed
    handle_preview fault text body rows = previewed fault (u.parse text) body rows
