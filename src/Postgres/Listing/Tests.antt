-- ===== src/Postgres/Listing/Tests.antt =====
-- NotificationRepo.List of internal/adapter/repository/postgres/notification.go on a table of three
-- rows, in pages of two.
use mathlib.Core.List.Permᴰ
use event_driven_notificatio.Prelude.{
  ℕ, zero, suc, Reordered, ◌≡◌, ◌≤◌, refl, none, some, [], ◌∷◌, arith, length, filterb, pos,
  sort_by,
}
use event_driven_notificatio.Domain.Errors.{ok}
use event_driven_notificatio.Domain.Notification.{Uuid, Time, Notification, new_notification}
use event_driven_notificatio.Postgres.Notifications.{Rows}
use event_driven_notificatio.Postgres.Pages.{newest_first, page_rows, page_of, page_size_of}
use event_driven_notificatio.Postgres.Listing.{NotificationFilter, PaginatedResult, matches, list}
use event_driven_notificatio.Postgres.Listing.Cover.{read_pages, ask, created, list_covers}

abbrev sent_at : Uuid → Time → Notification
unfolding new_notification
sent_at id now = new_notification id now "sms" "+905551234567" "hello" 1

abbrev three : Rows
three = sent_at 1 100 ∷ sent_at 2 300 ∷ sent_at 3 200 ∷ []

abbrev pairs : NotificationFilter
pairs = record {
  status = some "pending";
  channel = none;
  batch_id = none;
  from_date = none;
  to_date = none;
  page = pos 1;
  page_size = pos 2;
}

-- The second page holds the oldest row.
second_page : ask pairs three (λ p. three) 2 ≡ ok (sent_at 1 100 ∷ [])
unfolding list new_notification sort_by page_rows page_of page_size_of
second_page = refl

-- Two rows of one time, as two queries meet them.
abbrev met : ℕ → Rows
met zero = sent_at 1 100 ∷ sent_at 2 100 ∷ sent_at 3 50 ∷ []
met (suc zero) = sent_at 1 100 ∷ sent_at 2 100 ∷ sent_at 3 50 ∷ []
met (suc (suc n)) = sent_at 2 100 ∷ sent_at 1 100 ∷ sent_at 3 50 ∷ []

abbrev singles : NotificationFilter
singles = record pairs { page_size = pos 1 }

-- Both pages have the second row, and no page has the first.
same_row_twice :
    (ask singles (met 0) met 1 ≡ ok (sent_at 2 100 ∷ []))
    × (ask singles (met 0) met 2 ≡ ok (sent_at 2 100 ∷ []))
    × (ask singles (met 0) met 3 ≡ ok (sent_at 3 50 ∷ []))
unfolding list new_notification sort_by page_rows page_of page_size_of
same_row_twice = (refl, refl, refl)

-- The second query meets the rows in another order.
abbrev seen : ℕ → Rows
seen zero = three
seen (suc zero) = three
seen (suc (suc n)) = sent_at 2 300 ∷ sent_at 1 100 ∷ sent_at 3 200 ∷ []

seen-Reordered : (p : ℕ) → Reordered three (seen p)
seen-Reordered zero = Permᴰ.refl three
seen-Reordered (suc zero) = Permᴰ.refl three
seen-Reordered (suc (suc n)) = Permᴰ.swap refl refl

list_covers_example :
    (first : PaginatedResult) × (list none none (record pairs { page = pos 1 }) three (seen 1)
      ≡ ok first)
    × (first.total ≡ length (filterb (matches pairs) three))
    × (length first.found ≤ first.page_size)
    × (read_pages (ask pairs three seen) 1 first.total_pages
        ≡ ok (newest_first created (filterb (matches pairs) three)))
list_covers_example =
    list_covers pairs three seen (omega arith) (unfold new_notification in ground arith)
      seen-Reordered
