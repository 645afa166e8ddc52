-- ===== src/Service/TemplateTests.antt =====
-- The templates table of internal/service/template.go with one template, and the theorems about its
-- calls at that table.
use event_driven_notificatio.Prelude.{◌≡◌, refl, none, some, [], ◌∷◌, pos}
use event_driven_notificatio.Domain.Errors.{ok, err, sentinel, template_inactive, OfAnswer}
use event_driven_notificatio.Domain.Notification.{is_valid}
use event_driven_notificatio.Domain.Template.{new_template}
use event_driven_notificatio.Postgres.Templates.{
  TemplateRows, create_template, find_template, retired,
}
use event_driven_notificatio.Postgres.Templates.Rows.{under}
use event_driven_notificatio.Service.Intake.{CreateNotificationRequest}
use event_driven_notificatio.Service.Create.{CreateOutside, create_notification}
use event_driven_notificatio.Service.Templates.{preview}
use event_driven_notificatio.Service.Templates.Store.{
  CreateTemplateRequest, create_requested, get_requested, list_requested,
}
use event_driven_notificatio.Service.Templates.Store.History.{
  IsSound, creates, empty, Reachable-IsSound,
}
use event_driven_notificatio.Service.Templates.Store.Deleted.{
  LacksTemplate, remaining, delete_disables,
}
use event_driven_notificatio.Service.Tests.{texts}
use event_driven_notificatio.Service.IntakeTests.{
  by_sms, plain_engine, greeting, create_outside, empty_store,
}

abbrev welcome : CreateTemplateRequest
welcome = record {
  name = "welcome";
  channel = "email";
  subject = "";
  content = "hello";
  variables = none;
}

abbrev one_template : TemplateRows
one_template = (create_requested plain_engine none 5 1 welcome []).1

stores_welcome :
    (find_template (under 5) one_template) ≡ some (new_template 5 1 "welcome" "email" "hello")
unfolding create_requested create_template is_valid new_template find_template
stores_welcome = refl

Reachable-IsSound_example : IsSound plain_engine one_template
Reachable-IsSound_example = Reachable-IsSound plain_engine (creates none 5 1 welcome empty)

abbrev by_template : CreateNotificationRequest
by_template = record by_sms { template_id = some 5 }

abbrev after_delete : CreateOutside
after_delete = record create_outside {
  template = λ id. get_requested none id (remaining texts plain_engine 9 5 (greeting ∷ []));
}

delete_disables_example :
    let rows' = remaining texts plain_engine 9 5 (greeting ∷ []) in
    (get_requested none 5 rows' ≡ ok (retired 9 greeting))
    × (preview plain_engine (get_requested none 5 rows') none ≡ err (sentinel template_inactive))
    × (create_notification texts plain_engine after_delete by_template empty_store
        ≡ (err (sentinel template_inactive), empty_store))
    × OfAnswer (λ a. LacksTemplate 5 a.0) (list_requested none none (pos 1) (pos 20) [] rows')
delete_disables_example =
    delete_disables texts plain_engine 9 5 (greeting ∷ []) greeting none after_delete by_template
      empty_store none none (pos 1) (pos 20) [] (unfold find_template in refl)
      (unfold is_valid in refl) refl refl
