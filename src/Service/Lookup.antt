-- ===== src/Service/Lookup.antt =====
-- internal/service/notification.go: GetByID, GetByBatchID and List, which ask the repository.
use event_driven_notificatio.Prelude.{Option, List}
use event_driven_notificatio.Domain.Errors.{Error, Result}
use event_driven_notificatio.Domain.Notification.{Uuid, Notification}
use event_driven_notificatio.Postgres.Notifications.{Rows, get_by_id, get_by_batch_id}
use event_driven_notificatio.Postgres.Listing.{NotificationFilter, PaginatedResult, list}

-- NotificationService.GetByID
unfoldable pub get_notification : Option Error → Uuid → Rows → Result Notification
get_notification fault id rows = get_by_id fault id rows

-- NotificationService.GetByBatchID
unfoldable pub get_batch : Option Error → Uuid → Rows → Result (List Notification)
get_batch fault batch rows = get_by_batch_id fault batch rows

-- NotificationService.List
unfoldable pub list_notifications :
    Option Error → Option Error → NotificationFilter → Rows → Rows → Result PaginatedResult
list_notifications count_fails select_fails f counted rows =
    list count_fails select_fails f counted rows
