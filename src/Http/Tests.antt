-- ===== src/Http/Tests.antt =====
-- The handlers of internal/adapter/handler at the notifications and templates of the services' tests.
use mathlib.Core.Option
use event_driven_notificatio.Prelude.{
  ℕ, ◌*◌, ◌<◌, ◌≤◌, ◌≡◌, ◌↔◌, refl, Option, none, some, [], ◌∷◌, ◌++◌, List, length, replicate,
  arith, pos, sort_by,
}
use event_driven_notificatio.Domain.Errors
use event_driven_notificatio.Domain.Errors.{Error, sentinel, wrapped, ok}
use event_driven_notificatio.Postgres.Notifications.{find_row}
use event_driven_notificatio.Postgres.Notifications.Cancel.{cancel_outcome}
use event_driven_notificatio.Postgres.Pages.{page_rows, page_of, page_size_of}
use event_driven_notificatio.Postgres.Templates.{TemplateRows, list_templates}
use event_driven_notificatio.Service.Templates.Store.{list_requested}
use event_driven_notificatio.Service.Tests.{texts, world, world-IsTable}
use event_driven_notificatio.Service.IntakeTests.{
  by_sms, plain_engine, greeting, create_outside, empty_store,
}
use event_driven_notificatio.Http.Response.{
  wrote, panicked, refusal, success, write_error, recovered,
}
use event_driven_notificatio.Http.Response.Statuses.{write_error_lem}
use event_driven_notificatio.Http.Notifications.{int_param, handle_cancel, handle_create}
use event_driven_notificatio.Http.Notifications.Answers.{
  cancel_response, cancel_events, handle_cancel_lem, TellsStore, handle_create-TellsStore,
}
use event_driven_notificatio.Service.World.{Recorded, delivery, failure}
use event_driven_notificatio.Http.Metrics.{no_counts, record_all}
use event_driven_notificatio.Http.Metrics.Balance.{broken, IsBalanced, record_all-IsBalanced}
use event_driven_notificatio.Http.Templates.Pages.{response, list_panics, list_misreports}

abbrev missing_variable : Error
missing_variable = wrapped "" (sentinel Errors.missing_template_vars) ": name"

write_error_lem_example :
    write_error {A = Unit {0}} missing_variable
    ≡ refusal 400 "missing required template variables: name"
write_error_lem_example = write_error_lem missing_variable

handle_create-TellsStore_example :
    let (handled, st') =
      handle_create texts plain_engine create_outside (some by_sms) empty_store in
    TellsStore texts plain_engine create_outside empty_store handled st'
handle_create-TellsStore_example =
    handle_create-TellsStore texts plain_engine create_outside (some by_sms) empty_store

handle_cancel_lem_example :
    let (handled, rows', events') = handle_cancel texts none none 50 "xxxx" world.rows [] in
    (recovered handled ≡ cancel_response texts 50 3 (find_row 3 world.rows))
    × (find_row 3 rows' ≡ Option.map (cancel_outcome 50) (find_row 3 world.rows))
    × (find_row 9 rows' ≡ find_row 9 world.rows)
    × (events' ≡ [] ++ cancel_events texts 50 3 (find_row 3 world.rows))
handle_cancel_lem_example =
    handle_cancel_lem texts 50 3 "xxxx" 9 world.rows [] refl world-IsTable (omega arith)

list_panics_example :
    (response none none "" "0" (greeting ∷ []) (greeting ∷ []) ≡ panicked)
    ↔ (int_param "0" (pos 20) ≡ pos 0)
list_panics_example =
    list_panics none none "" "0" (greeting ∷ []) (greeting ∷ []) (greeting ∷ []) 1 (
      unfold list_requested list_templates page_rows page_of page_size_of int_param sort_by in refl)

abbrev three_recorded : List (Recorded × Option ℕ)
three_recorded = (delivery 7, none) ∷ (failure, some 2) ∷ (delivery 5, none) ∷ []

record_all-IsBalanced_example :
    IsBalanced (broken three_recorded) (record_all three_recorded no_counts)
record_all-IsBalanced_example = record_all-IsBalanced three_recorded

abbrev thirty : TemplateRows
thirty = replicate 30 greeting

list_misreports_example :
    (pages : ℕ) × (response none none "" "200" thirty thirty
      ≡ wrote (
          success 200 (record {
            found = replicate 20 greeting;
            page = int_param "" (pos 1);
            page_size = pos 200;
            total = 30;
            total_pages = pos pages;
          })))
    × (length (replicate 20 greeting) ≤ 20)
    × (pages * 20 < 30)
list_misreports_example =
    list_misreports none none "" "200" thirty thirty 199 (replicate 20 greeting) 30 (omega arith)
      (omega arith) (unfold int_param in refl)
      (unfold list_requested list_templates page_rows page_of page_size_of int_param sort_by in
        refl)
