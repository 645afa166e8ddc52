-- ===== src/Domain/Tests.antt =====
-- The tests of internal/domain/notification_test.go on channels, priorities and statuses, and the
-- theorems at inputs that meet their hypotheses.
use event_driven_notificatio.Prelude.{◌≡◌, refl, false}
use event_driven_notificatio.Domain.Notification.{is_valid, priority_from_string}

whatsapp : is_valid "whatsapp" ≡ false
unfolding is_valid
whatsapp = refl

invalid_priority : priority_from_string "invalid" ≡ 1
unfolding priority_from_string
invalid_priority = refl
