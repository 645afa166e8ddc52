-- ===== src/Provider/Tests.antt =====
-- Send of internal/adapter/provider/webhook.go on a response with a body that is no JSON.
use event_driven_notificatio.Prelude.{◌≡◌, refl, none}
use event_driven_notificatio.Domain.Errors.{foreign, err}
use event_driven_notificatio.Prelude.Decimal.{digit}
use event_driven_notificatio.Config.{int_to_str}
use event_driven_notificatio.Provider.{Exchange, send}

abbrev accepted : Exchange
accepted = record {
  marshal_fails = none;
  create_fails = none;
  send_fails = none;
  read_fails = none;
  status_code = 202;
  body = "queued";
  decoded = none;
  now_text = "2026-01-01T00:00:00Z";
}

refuses_503 :
    send (record accepted { status_code = 503 })
    ≡ err (foreign "provider returned status 503: queued")
unfolding send int_to_str digit
refuses_503 = refl
