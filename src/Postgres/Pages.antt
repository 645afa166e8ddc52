-- ===== src/Postgres/Pages.antt =====
-- The pages of the three List methods of internal/adapter/repository/postgres: ORDER BY created_at
-- DESC LIMIT OFFSET, the defaults for a page and a size out of range, and the number of pages.
use event_driven_notificatio.Prelude.{
  ℕ, zero, suc, ◌+◌, ◌-◌, ◌*◌, ◌/◌, ◌%◌, ◌^◌, List, leb, ltb, if◌then◌else◌, take, drop, sort_by, ℤ,
  pos, negsuc,
}
use mathlib.Core.List.{reverse}
use event_driven_notificatio.Domain.Errors.{Error, foreign, Result, ok, err}

-- The page and the page size, where the request's are out of range.
unfoldable pub page_of : ℤ → ℕ
page_of (pos zero) = 1
page_of (pos (suc n)) = suc n
page_of (negsuc n) = 1

unfoldable pub page_size_of : ℤ → ℕ
page_size_of (pos zero) = 20
page_size_of (pos (suc n)) = if ltb 100 (suc n) then 20 else suc n
page_size_of (negsuc n) = 20

-- (page - 1) * page_size on Go's int
unfoldable pub offset_of : ℕ → ℕ → ℕ
offset_of page size = ((page - 1) * size) % 2 ^ 64

-- total / page_size, and one more for a rest
unfoldable pub total_pages_of : ℕ → ℕ → ℕ
total_pages_of total size = total / size + (if ltb 0 (total % size) then 1 else 0)

unfoldable pub negative_offset : Error
negative_offset = foreign "ERROR: OFFSET must not be negative (SQLSTATE 2201X)"

module _ {A : Type 0} where
  -- LIMIT size OFFSET offset; from 2 ^ 63 on, Go's int is negative, which PostgreSQL refuses.
  unfoldable pub limit_offset : ℕ → ℕ → List A → Result (List A)
  unfolding negative_offset
  limit_offset size offset rows =
      if leb (2 ^ 63) offset then err negative_offset else ok (take size (drop offset rows))

  -- ORDER BY created_at DESC. SQL leaves the order of rows of one time open: `rows` are in the order in
  -- which the query meets them, any order of the table's, and of one time the last met comes first.
  unfoldable pub newest_first : (A → ℕ) → List A → List A
  newest_first created_at rows = reverse (sort_by created_at rows)

  unfoldable pub page_rows : (A → ℕ) → ℕ → ℕ → List A → Result (List A)
  unfolding limit_offset offset_of newest_first
  page_rows created_at page size rows =
      limit_offset size (offset_of page size) (newest_first created_at rows)
