-- ===== src/Postgres/Listing.antt =====
-- NotificationRepo.List of internal/adapter/repository/postgres/notification.go, with the filter and
-- the result of internal/port/repository.go.
pub mod Cover
mod Tests
use event_driven_notificatio.Prelude.{
  ℕ, String, Bool, true, ◌&&◌, Option, none, some, List, filterb, length, leb, str_eq, ℤ,
}
use event_driven_notificatio.Domain.Errors.{Error, Result, ok, err, panics}
use event_driven_notificatio.Domain.Notification.{Uuid, Time, Channel, status_text, Notification}
use event_driven_notificatio.Postgres.Notifications.{Rows, same_id}
use event_driven_notificatio.Postgres.Pages.{page_of, page_size_of, total_pages_of, page_rows}

-- port.NotificationFilter; a status is any text.
pub record NotificationFilter : Type 0 where
  pub status : Option String
  pub channel : Option Channel
  pub batch_id : Option Uuid
  pub from_date : Option Time
  pub to_date : Option Time
  pub page : ℤ
  pub page_size : ℤ

-- port.PaginatedResult, its Data as `found`
pub record PaginatedResult : Type 0 where
  pub found : List Notification
  pub page : ℕ
  pub page_size : ℕ
  pub total : ℕ
  pub total_pages : ℕ

-- A condition of the WHERE clause, if the filter has one.
abbrev pub holds_if {ℓ} : {A : Type ℓ} → Option A → (A → Bool) → Bool
holds_if none p = true
holds_if (some a) p = p a

-- the WHERE clause
unfoldable pub matches : NotificationFilter → Notification → Bool
matches f r =
    holds_if f.status (λ s. str_eq (status_text r.status) s)
    && (holds_if f.channel (λ c. str_eq r.channel c)
        && (holds_if f.batch_id (λ b. same_id r.batch_id b)
            && (holds_if f.from_date (λ t. leb t r.created_at)
                && holds_if f.to_date (λ t. leb r.created_at t))))

unfoldable pub paginated :
    NotificationFilter → ℕ → Result (List Notification) → Result PaginatedResult
paginated f total (err e) = err e
paginated f total panics = panics
paginated f total (ok found) = ok (record {
  found = found;
  page = page_of f.page;
  page_size = page_size_of f.page_size;
  total = total;
  total_pages = total_pages_of total (page_size_of f.page_size);
})

-- the second statement
unfoldable pub select_page : Option Error → NotificationFilter → ℕ → Rows → Result PaginatedResult
unfolding matches paginated
select_page (some e) f total rows = err e
select_page none f total rows = paginated f total (
    page_rows (λ (r : Notification). r.created_at) (page_of f.page) (page_size_of f.page_size)
      (filterb (matches f) rows))

-- NotificationRepo.List: COUNT reads the rows of one moment, SELECT those of a later one, in the order
-- in which it meets them.
unfoldable pub list :
    Option Error → Option Error → NotificationFilter → Rows → Rows → Result PaginatedResult
unfolding select_page
list (some e) select_fails f counted rows = err e
list none select_fails f counted rows =
    select_page select_fails f (length (filterb (matches f) counted)) rows
