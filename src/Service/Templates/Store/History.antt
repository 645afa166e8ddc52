-- ===== src/Service/Templates/Store/History.antt =====
-- The templates table (internal/service/template.go) over every sequence of calls of the service.
use event_driven_notificatio.Prelude.{◌≡◌, refl, Option, [], All, Bool-cases, inl, inr}
use event_driven_notificatio.Domain.Errors.{Error, Result, ok, err, panics, OfAnswer, bind-OfAnswer}
use event_driven_notificatio.Domain.Notification.{Uuid, Time, is_valid}
use event_driven_notificatio.Domain.Template.{Template}
use event_driven_notificatio.Postgres.Templates.{TemplateRows, create_template, update_template}
use event_driven_notificatio.Postgres.Templates.Table.{
  IsTemplateTable, create_template-IsTemplateTable, update_template-IsTemplateTable,
  delete_template-IsTemplateTable,
}
use event_driven_notificatio.Service.Templates.{Engine}
use event_driven_notificatio.Service.Templates.Store.{
  CreateTemplateRequest, UpdateTemplateRequest, requested_template, created_template,
  updated_template, parsed, stored_template, create_requested, saved_edit, update_requested,
  delete_requested,
}
use event_driven_notificatio.Service.Templates.Store.Contents.{
  Parses, template_by_id-All, edited-Parses, update_template-contents, create_template-contents,
  delete_template-contents, parsed_lem,
}

updated_template-rows :
    (r : Result (Unit {0}) × Template × TemplateRows) → (updated_template r).1 ≡ r.2
unfolding updated_template
updated_template-rows (ok _, t, rows) = refl
updated_template-rows (err e, t, rows) = refl
updated_template-rows (panics, t, rows) = refl

created_template-rows :
    (t : Template) (r : Result (Unit {0}) × TemplateRows) → (created_template t r).1 ≡ r.1
unfolding created_template
created_template-rows t (ok _, rows) = refl
created_template-rows t (err e, rows) = refl
created_template-rows t (panics, rows) = refl

module _ (engine : Engine) where
  -- The constraints, and a content that text/template parses in every row.
  pub record IsSound (rows : TemplateRows) : Type 0 where
    pub table : IsTemplateTable rows
    pub contents : All (Parses engine) rows

  -- The tables that calls of the service may leave, failed calls included; an Update may have read
  -- the row from any earlier table.
  pub data Reachable : TemplateRows → Type 0 where
    empty : Reachable []
    creates :
        {rows : TemplateRows} (fault : Option Error) (id : Uuid) (now : Time)
        (req : CreateTemplateRequest)
        → Reachable rows
        → Reachable (create_requested engine fault id now req rows).1
    updates :
        {read rows : TemplateRows} (get_fails fault : Option Error) (now : Time) (id : Uuid)
        (req : UpdateTemplateRequest)
        → Reachable read
        → Reachable rows
        → Reachable (update_requested engine get_fails fault now id req read rows).1
    deletes :
        {rows : TemplateRows} (fault : Option Error) (now : Time) (id : Uuid)
        → Reachable rows
        → Reachable (delete_requested fault now id rows).1

  saved_edit-IsSound :
      (fault : Option Error) (now : Time) (r : Result Template) (rows : TemplateRows)
      → OfAnswer (Parses engine) r
      → IsSound rows
      → IsSound (saved_edit engine fault now r rows).1
  unfolding saved_edit
  saved_edit-IsSound fault now (err e) rows p s = s
  saved_edit-IsSound fault now panics rows p s = s
  saved_edit-IsSound fault now (ok t) rows p s =
      rw (updated_template-rows (update_template fault now t rows)) (record {
        table = update_template-IsTemplateTable fault now t rows s.table;
        contents = update_template-contents engine fault now t rows p s.contents;
      })

  stored_template-IsSound :
      (fault : Option Error) (t : Template) (r : Result (Unit {0})) (rows : TemplateRows)
      → OfAnswer (λ _. Parses engine t) r
      → IsSound rows
      → IsSound (stored_template engine fault t r rows).1
  unfolding stored_template
  stored_template-IsSound fault t (err e) rows p s = s
  stored_template-IsSound fault t panics rows p s = s
  stored_template-IsSound fault t (ok _) rows p s =
      rw (created_template-rows t (create_template fault t rows)) (record {
        table = create_template-IsTemplateTable fault t rows s.table;
        contents = create_template-contents engine fault t rows p s.contents;
      })

  create_requested-IsSound :
      (fault : Option Error) (id : Uuid) (now : Time) (req : CreateTemplateRequest)
      (rows : TemplateRows)
      → IsSound rows
      → IsSound (create_requested engine fault id now req rows).1
  unfolding create_requested requested_template
  create_requested-IsSound fault id now req rows s = elim (Bool-cases (is_valid req.channel)) [
    | inr k ↦ rw k s
    | inl y ↦ rw y (
        stored_template-IsSound fault (requested_template id now req) (parsed engine req.content)
          rows (parsed_lem engine req.content) s)
  ]

  update_requested-IsSound :
      (get_fails fault : Option Error) (now : Time) (id : Uuid) (req : UpdateTemplateRequest)
      (read rows : TemplateRows)
      → IsSound read
      → IsSound rows
      → IsSound (update_requested engine get_fails fault now id req read rows).1
  unfolding update_requested
  update_requested-IsSound get_fails fault now id req read rows sr s =
      saved_edit-IsSound fault now _ rows
        (bind-OfAnswer (Parses engine) (Parses engine) _ _
          (template_by_id-All engine (Parses engine) get_fails id read sr.contents)
          (edited-Parses engine req))
        s

  delete_requested-IsSound :
      (fault : Option Error) (now : Time) (id : Uuid) (rows : TemplateRows)
      → IsSound rows
      → IsSound (delete_requested fault now id rows).1
  unfolding delete_requested
  delete_requested-IsSound fault now id rows s = record {
    table = delete_template-IsTemplateTable fault now id rows s.table;
    contents = delete_template-contents engine fault now id rows s.contents;
  }

  -- Whatever the service is asked, failed calls and concurrent edits included, no two templates have
  -- the same ID or the same name, every channel is valid, and text/template parses every content.
  pub Reachable-IsSound : {rows : TemplateRows} → Reachable rows → IsSound rows
  Reachable-IsSound empty = record { table = tt; contents = tt }
  Reachable-IsSound (creates fault id now req r) =
      create_requested-IsSound fault id now req _ (Reachable-IsSound r)
  Reachable-IsSound (updates get_fails fault now id req q r) =
      update_requested-IsSound get_fails fault now id req _ _ (Reachable-IsSound q)
        (Reachable-IsSound r)
  Reachable-IsSound (deletes {rows} fault now id r) =
      delete_requested-IsSound fault now id rows (Reachable-IsSound r)
