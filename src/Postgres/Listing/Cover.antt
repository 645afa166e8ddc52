-- ===== src/Postgres/Listing/Cover.antt =====
-- The pages of NotificationRepo.List, read one after the other.
use event_driven_notificatio.Prelude.{
  ℕ, zero, suc, ◌+◌, ◌-◌, ◌*◌, ◌^◌, ◌<◌, ◌≤◌, ◌≡◌, refl, ap, ◌∙◌, List, [], ◌∷◌, ◌++◌, take, drop,
  length, leb, arith, none, filterb, ℤ, pos, negsuc, length-sort_by, sort_by, length-take-le, Bool,
  false, take-add, drop-drop, take_all, length-reverse, sym, Reordered, HasDistinctKeys,
  filterb-Perm, sort_by-Perm,
}
use mathlib.Core.List.{reverse}
use native.Mathlib.Nat.{mod-eq_of_lt, zero-add}
use event_driven_notificatio.Domain.Errors.{Result, ok, err, panics}
use event_driven_notificatio.Domain.Notification.{Notification}
use event_driven_notificatio.Postgres.Pages.{
  page_of, page_size_of, offset_of, total_pages_of, limit_offset, page_rows, newest_first,
}
use event_driven_notificatio.Postgres.Listing.{
  NotificationFilter, PaginatedResult, matches, paginated, list,
}
use event_driven_notificatio.Postgres.Notifications.{Rows}

module _ {A : Type 0} where
  length-newest_first : (key : A → ℕ) (xs : List A) → length (newest_first key xs) ≡ length xs
  unfolding newest_first
  length-newest_first key xs = length-reverse (sort_by key xs) ∙ length-sort_by key xs

  joined : Result (List A) → Result (List A) → Result (List A)
  joined (ok xs) (ok ys) = ok (xs ++ ys)
  joined (ok xs) r = r
  joined r s = r

  -- A client that reads `n` pages from one on.
  pub read_pages : (ℕ → Result (List A)) → ℕ → ℕ → Result (List A)
  unfolding joined
  read_pages ask page zero = ok []
  read_pages ask page (suc n) = joined (ask page) (read_pages ask (suc page) n)

  limit_offset_lem :
      (size offset : ℕ) (xs : List A)
      → offset < 2 ^ 63
      → limit_offset size offset xs ≡ ok (take size (drop offset xs))
  unfolding limit_offset
  limit_offset_lem size offset xs h = let e : leb (2 ^ 63) offset ≡ false = ground arith in rw e

  page_rows_lem :
      (key : A → ℕ) (k size : ℕ) (xs : List A)
      → k * size < 2 ^ 63
      → page_rows key (suc k) size xs ≡ ok (take size (drop (k * size) (newest_first key xs)))
  unfolding page_rows
  page_rows_lem key k size xs h =
      let d : suc k - 1 ≡ k = omega arith in
      let e : offset_of (suc k) size ≡ k * size =
        unfold offset_of in rw d (mod-eq_of_lt (omega arith)) in
      rw e (limit_offset_lem size (k * size) (newest_first key xs) h)

  read_pages-page_rows :
      (key : A → ℕ) (size : ℕ) (xs : List A) (n k : ℕ)
      → (k + n) * size < 2 ^ 63 + size
      → read_pages (λ p. page_rows key p size xs) (suc k) n
        ≡ ok (take (n * size) (drop (k * size) (newest_first key xs)))
  unfolding read_pages
  read_pages-page_rows key size xs zero k h = let e : 0 * size ≡ 0 = omega arith in rw e
  read_pages-page_rows key size xs (suc n) k h =
      let e : suc n * size ≡ size + n * size = grind arith in
      let d : k * size + size ≡ suc k * size = grind arith in
      let sorted = newest_first key xs in
      rw (page_rows_lem key k size xs (grind arith)) (
        rw (read_pages-page_rows key size xs n (suc k) (grind arith)) (
          rw e (
            rw (take-add size (n * size) (drop (k * size) sorted))
              (rw (drop-drop size (k * size) sorted) (rw d)))))

pages_enough : (total size : ℕ) → 0 < size → total ≤ total_pages_of total size * size
unfolding total_pages_of
pages_enough total size h = grind arith

pages_needed : (total size : ℕ) → 0 < size → total_pages_of total size * size < total + size
unfolding total_pages_of
pages_needed total size h = grind arith

page_size_of_bounds : (n : ℤ) → (0 < page_size_of n) × (page_size_of n ≤ 100)
unfolding page_size_of
page_size_of_bounds (pos zero) = omega arith
page_size_of_bounds (pos (suc n)) = ground arith
page_size_of_bounds (negsuc n) = omega arith

abbrev found_in : Result PaginatedResult → Result (List Notification)
found_in (ok r) = ok r.found
found_in (err e) = err e
found_in panics = panics

-- The pages that a client asks List for, while the table stays as it is; the SELECT of a page meets
-- the rows in an order of its own.
abbrev pub ask : NotificationFilter → Rows → (ℕ → Rows) → ℕ → Result (List Notification)
ask f rows seen p = found_in (list none none (record f { page = pos p }) rows (seen p))

paginated-found :
    (f : NotificationFilter) (total : ℕ) (r : Result (List Notification))
    → found_in (paginated f total r) ≡ r
unfolding paginated
paginated-found f total (ok xs) = refl
paginated-found f total (err e) = refl
paginated-found f total panics = refl

abbrev pub created : Notification → ℕ
created r = r.created_at

-- Where no two rows have the same time, the order in which a SELECT meets them makes no difference.
page_rows-Reordered :
    (p size : ℕ) (xs ys : Rows)
    → Reordered xs ys
    → HasDistinctKeys created xs
    → page_rows created p size ys ≡ page_rows created p size xs
unfolding page_rows newest_first
page_rows-Reordered p size xs ys r d =
    ap (λ l. limit_offset size (offset_of p size) (reverse l)) (sym (sort_by-Perm created r d))

ask_lem :
    (f : NotificationFilter) (rows : Rows) (seen : ℕ → Rows)
    → HasDistinctKeys created (filterb (matches f) rows)
    → ((p : ℕ) → Reordered rows (seen p))
    → (p : ℕ)
    → ask f rows seen (suc p)
      ≡ page_rows created (suc p) (page_size_of f.page_size) (filterb (matches f) rows)
unfolding list page_of matches paginated
ask_lem f rows seen d r p =
    paginated-found (record f { page = pos (suc p) }) _ _
    ∙ page_rows-Reordered (suc p) (page_size_of f.page_size) _ _
        (filterb-Perm (matches f) (r (suc p))) d

read_pages-eq :
    {A : Type 0} (f g : ℕ → Result (List A))
    → ((k : ℕ) → f (suc k) ≡ g (suc k))
    → (n k : ℕ) → read_pages f (suc k) n ≡ read_pages g (suc k) n
unfolding read_pages
read_pages-eq f g h zero k = refl
read_pages-eq f g h (suc n) k = rw (h k) (rw (read_pages-eq f g h n (suc k)))

length-filterb-le : {A : Type 0} (p : A → Bool) (xs : List A) → length (filterb p xs) ≤ length xs
length-filterb-le p [] = omega arith
length-filterb-le p (x ∷ xs) = ground (arith, length-filterb-le p xs)

reads_all :
    (size : ℕ) (xs : List Notification)
    → 0 < size
    → length xs < 2 ^ 63
    → read_pages (λ p. page_rows created p size xs) 1 (total_pages_of (length xs) size)
      ≡ ok (newest_first created xs)
reads_all size xs h l =
    let n = total_pages_of (length xs) size in
    let z : 0 * size ≡ 0 = omega arith in
    let few : (0 + n) * size < 2 ^ 63 + size =
      rw (zero-add n) (omega (arith, pages_needed (length xs) size h)) in
    read_pages-page_rows created size xs n 0 few
    ∙ rw z (
        ap ok (
          take_all (n * size) (newest_first created xs)
            (omega (arith, pages_enough (length xs) size h, length-newest_first created xs))))

-- While the table stays as it is, and has fewer than 2 ^ 63 rows, of which no two that meet the filter
-- have the same time of creation, and whatever the order in which each SELECT meets the rows: the first
-- page of the filter has at most page-size rows and tells the total and how many pages there are; and
-- these, read one after the other without a failure, give the rows that meet the filter, the newest
-- first, as one list.
pub list_covers :
    (f : NotificationFilter) (rows : Rows) (seen : ℕ → Rows)
    → length rows < 2 ^ 63
    → HasDistinctKeys created (filterb (matches f) rows)
    → ((p : ℕ) → Reordered rows (seen p))
    → (first : PaginatedResult) × (list none none (record f { page = pos 1 }) rows (seen 1)
        ≡ ok first)
      × (first.total ≡ length (filterb (matches f) rows))
      × (length first.found ≤ first.page_size)
      × (read_pages (ask f rows seen) 1 first.total_pages
          ≡ ok (newest_first created (filterb (matches f) rows)))
unfolding list page_of matches paginated
list_covers f rows seen h d r =
    let size = page_size_of f.page_size in
    let xs = filterb (matches f) rows in
    let few : length xs < 2 ^ 63 = omega (arith, length-filterb-le (matches f) rows) in
    let positive : 0 < size = (page_size_of_bounds f.page_size).0 in
    let found = take size (drop (0 * size) (newest_first created xs)) in
    (
      record {
        found = found;
        page = 1;
        page_size = size;
        total = length xs;
        total_pages = total_pages_of (length xs) size;
      },
      rw
          (page_rows-Reordered 1 size xs (filterb (matches f) (seen 1))
            (filterb-Perm (matches f) (r 1)) d)
          (rw (page_rows_lem created 0 size xs (omega arith)) refl),
      refl,
      length-take-le size (drop (0 * size) (newest_first created xs)),
      read_pages-eq (ask f rows seen) (λ p. page_rows created p size xs) (ask_lem f rows seen d r)
            (total_pages_of (length xs) size) 0
          ∙ reads_all size xs positive few,
    )
