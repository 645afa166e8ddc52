-- ===== src/Service/IntakeTests.antt =====
-- CreateBatch of internal/service/notification.go on a request that it takes and one that it rejects,
-- and Render of internal/service/template.go on a template with a default.
use event_driven_notificatio.Prelude.{
  true, false, some, ◌+◌, ◌≤◌, ◌<◌, ◌≡◌, refl, none, List, [], ◌∷◌, length, All,
}
use event_driven_notificatio.Domain.Errors.{ok}
use event_driven_notificatio.Domain.Notification.{
  priority_from_string, Value, Vars, Notification, is_valid, new_notification,
}
use event_driven_notificatio.Domain.Batch.{BatchResult}
use event_driven_notificatio.Postgres.Notifications.{create_batch}
use event_driven_notificatio.Service.Intake.{
  CreateNotificationRequest, IntakeOutside, create_notifications, rejection,
}
use event_driven_notificatio.Service.Intake.Accounts.{IsChecked, create_notifications_accounts}
use event_driven_notificatio.Service.Templates.{
  Engine, render, fill_defaults, check_variable, supply, rendered, both, render_text,
  render_subject,
}
use event_driven_notificatio.Service.Templates.Supplies.{IsSupplied, Extends, render-IsSupplied}
use event_driven_notificatio.Domain.Template.{Template}
use event_driven_notificatio.Service.Create.{Store, CreateOutside}
use event_driven_notificatio.Service.Tests.{texts, world}

abbrev pub by_sms : CreateNotificationRequest
by_sms = record {
  channel = "sms";
  recipient = "+905551234567";
  subject = "";
  content = "hello";
  priority = "high";
  scheduled_at = none;
  template_id = none;
  template_vars = none;
  idempotency_key = none;
  metadata = none;
}

abbrev by_fax : CreateNotificationRequest
by_fax = record by_sms { channel = "fax" }

abbrev intake_outside : IntakeOutside
intake_outside = record {
  batch_id = 90;
  ids = λ i. i + 10;
  created_at = λ i. 1000;
  scheduling_at = λ i. 1000;
  insert_fails = none;
  pipeline_fails = none;
  clock_ms = λ i. 1;
}

abbrev batch_result : BatchResult
batch_result = record {
  batch_id = 90;
  total = 2;
  accepted = 1;
  rejected = 1;
  notifications = 11 ∷ [];
  errors = record { index = 0; message = "invalid channel" } ∷ [];
}

answers_result :
    (create_notifications texts intake_outside (by_fax ∷ by_sms ∷ []) [] world.queues).0
    ≡ ok batch_result
unfolding create_notifications rejection is_valid create_batch new_notification priority_from_string
answers_result = refl

create_notifications_accounts_example :
    (2 ≤ 1000)
    × (batch_result.total ≡ 2)
    × (batch_result.accepted + batch_result.rejected ≡ 2)
    × (length batch_result.notifications ≡ batch_result.accepted)
    × (length batch_result.errors ≡ batch_result.rejected)
    × All (λ e. e.index < 2) batch_result.errors
    × ((ns : List Notification) × All IsChecked ns
        × (length ns ≡ batch_result.accepted)
        × ((create_notifications texts intake_outside (by_fax ∷ by_sms ∷ []) [] world.queues).1
            ≡ (create_batch none ns []).1))
create_notifications_accounts_example =
    create_notifications_accounts texts intake_outside (by_fax ∷ by_sms ∷ []) [] world.queues
      batch_result answers_result

-- A template engine that replaces nothing.
abbrev pub plain_engine : Engine
plain_engine = record { parse_error = λ source. none; execute = λ source vars. ok source }

abbrev pub greeting : Template
greeting = record {
  id = 5;
  name = "greeting";
  channel = "sms";
  subject = "";
  content = "hello";
  variables =
      record { name = "name"; required = true; default = none }
      ∷ record { name = "tone"; required = false; default = some "warm" }
      ∷ [];
  active = true;
  created_at = 1;
  updated_at = 1;
}

abbrev named : Vars
named = ("name", Value.text "Ada") ∷ []

render-IsSupplied_example :
    (used : Vars) × Extends named used
    × All (IsSupplied used) greeting.variables
    × (render_text plain_engine "content" "hello" used ≡ ok "hello")
    × (render_subject plain_engine "" used ≡ ok "")
    × ((render plain_engine greeting (some named)).1 ≡ some used)
render-IsSupplied_example =
    render-IsSupplied plain_engine greeting (some named) ("", "hello")
      (unfold render fill_defaults check_variable supply rendered both render_text render_subject in
        refl)

abbrev pub create_outside : CreateOutside
create_outside = record {
  id = 12;
  created_at = 1000;
  scheduling_at = 1000;
  updated_at = 1000;
  enqueued_at = 1000;
  template = λ id. ok greeting;
  lookup_fails = none;
  insert_fails = none;
  status_fails = none;
  queue_fails = none;
}

abbrev pub empty_store : Store
empty_store = record { rows = []; queues = world.queues; events = [] }
