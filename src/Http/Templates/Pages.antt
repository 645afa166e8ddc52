-- ===== src/Http/Templates/Pages.antt =====
-- The page size of a request in TemplateHandler.List of internal/adapter/handler/template.go, which
-- the repository corrects and the handler does not.
use Prim.Native.String.{String}
use mathlib.Core.Path.{subst}
use event_driven_notificatio.Prelude.{
  ℕ, zero, suc, ◌*◌, ◌<◌, ◌≤◌, ◌≡◌, ◌↔◌, refl, Option, none, some, List, length, leb, ℤ, pos,
  negsuc, arith, length-take-le, Bool-cases, inl, inr, ◌^◌, drop,
}
use event_driven_notificatio.Domain.Errors.{Error, Result, ok, err, panics, OfAnswer}
use event_driven_notificatio.Domain.Template.{Template}
use event_driven_notificatio.Postgres.Pages.{
  total_pages_of, page_of, page_size_of, page_rows, limit_offset, offset_of, newest_first,
}
use event_driven_notificatio.Postgres.Templates.{
  TemplateRows, list_templates, select_templates, with_total, active_rows,
}
use event_driven_notificatio.Service.Templates.Store.{list_requested}
use event_driven_notificatio.Http.Response.{Handled, wrote, panicked, success}
use event_driven_notificatio.Http.Notifications.{int_param}
use event_driven_notificatio.Http.Templates.{
  TemplatePage, reported_pages, template_page, template_pages, handle_list_templates,
}

page-panics :
    (found : List Template) (total : ℕ) (page size : ℤ)
    → (template_page found page size total (reported_pages total size) ≡ panicked) ↔ (size ≡ pos 0)
unfolding template_page reported_pages
page-panics found total page (pos zero) = ((λ _. refl), λ _. refl)
page-panics found total page (pos (suc n)) = ((λ h. cc), λ h. cc)
page-panics found total page (negsuc n) = ((λ h. cc), λ h. cc)

page_rows-length :
    {A : Type 0} (key : A → ℕ) (page size : ℕ) (rows : List A)
    → OfAnswer (λ xs. length xs ≤ size) (page_rows key page size rows)
unfolding page_rows limit_offset
page_rows-length key page size rows = elim (Bool-cases (leb (2 ^ 63) (offset_of page size))) [
  | inl y ↦ rw y tt
  | inr k ↦ rw k (length-take-le size (drop (offset_of page size) (newest_first key rows)))
]

with_total-length :
    (n total : ℕ) (r : Result (List Template))
    → OfAnswer (λ xs. length xs ≤ n) r
    → OfAnswer (λ a. length a.0 ≤ n) (with_total total r)
unfolding with_total
with_total-length n total (ok ts) h = h
with_total-length n total (err e) h = tt
with_total-length n total panics h = tt

list_requested-length :
    (count_fails select_fails : Option Error) (page size : ℤ) (counted rows : TemplateRows)
    → OfAnswer
        (λ a. length a.0 ≤ page_size_of size)
        (list_requested count_fails select_fails page size counted rows)
unfolding list_requested list_templates select_templates
list_requested-length (some e) f page size counted rows = tt
list_requested-length none (some e) page size counted rows = tt
list_requested-length none none page size counted rows =
    with_total-length (page_size_of size) (length (active_rows counted)) _ (
      page_rows-length (λ (t : Template). t.created_at) (page_of page) (page_size_of size)
        (active_rows rows))

too_few_pages : (n total : ℕ) → 100 ≤ n → 20 < total → total_pages_of total (suc n) * 20 < total
unfolding total_pages_of
too_few_pages n total h k = grind arith

size_corrected : (n : ℕ) → 100 ≤ n → page_size_of (pos (suc n)) ≡ 20
unfolding page_size_of
size_corrected n h = ground arith

module _ (count_fails select_fails : Option Error) (page_text size_text : String)
    (counted rows : TemplateRows) where
  -- What the handler asks the service for, and what the service answers.
  abbrev pub asked_page : ℤ
  asked_page = int_param page_text (pos 1)

  abbrev pub asked_size : ℤ
  asked_size = int_param size_text (pos 20)

  abbrev pub listed : Result (List Template × ℕ)
  listed = list_requested count_fails select_fails asked_page asked_size counted rows

  abbrev pub response : Handled TemplatePage
  response = handle_list_templates count_fails select_fails page_text size_text counted rows

  -- When the service answers a List, the handler panics exactly if the page size that the request
  -- asks for is 0.
  pub list_panics :
      (found : List Template) (total : ℕ)
      → listed ≡ ok (found, total)
      → (response ≡ panicked) ↔ (asked_size ≡ pos 0)
  unfolding handle_list_templates template_pages
  list_panics found total h = rw h (page-panics found total asked_page asked_size)

  -- For a page size above 100 the answer has 20 templates at most but reports the requested size,
  -- and a number of pages that is too small: that many pages of 20 do not hold all the templates,
  -- if there are more than 20.
  pub list_misreports :
      (n : ℕ) (found : List Template) (total : ℕ)
      → 100 ≤ n
      → 20 < total
      → asked_size ≡ pos (suc n)
      → listed ≡ ok (found, total)
      → (pages : ℕ) × (response
          ≡ wrote (
              success 200 (record {
                found = found;
                page = asked_page;
                page_size = pos (suc n);
                total = total;
                total_pages = pos pages;
              })))
        × (length found ≤ 20)
        × (pages * 20 < total)
  unfolding handle_list_templates template_pages template_page reported_pages
  list_misreports n found total big many s h =
      let few =
        subst (OfAnswer (λ (a : List Template × ℕ). length a.0 ≤ page_size_of asked_size)) h
          (list_requested-length count_fails select_fails asked_page asked_size counted rows) in
      (
        total_pages_of total (suc n),
        rw h (rw s refl),
        subst (λ k. length found ≤ k) (size_corrected n big)
            (subst (λ z. length found ≤ page_size_of z) s few),
        too_few_pages n total big many,
      )
