-- ===== src/Service/Templates/Store/Contents.antt =====
-- The contents of the templates (internal/service/template.go): text/template parses what Create and
-- Update store.
use Prim.Native.String.{String}
use event_driven_notificatio.Prelude.{
  ◌≡◌, refl, Bool, not, ◌||◌, ◌&&◌, Option, none, some, [], ◌∷◌, All, All-append, Bool-cases,
  Option-cases, inl, inr,
}
use event_driven_notificatio.Domain.Errors.{Error, OfAnswer, bind-OfAnswer}
use event_driven_notificatio.Domain.Notification.{Uuid, Time, is_valid}
use event_driven_notificatio.Domain.Template.{Template}
use event_driven_notificatio.Postgres.Templates.{
  TemplateRows, template_clashes, create_template, find_template, or_missing, template_by_id,
  saved_template, save_template, update_template, delete_template, retired, name_taken,
  has_template,
}
use event_driven_notificatio.Postgres.Templates.Rows.{change-All}
use event_driven_notificatio.Service.Templates.{Engine}
use event_driven_notificatio.Service.Templates.Store.{
  UpdateTemplateRequest, or_old, with_channel, syntax_result, parsed, with_content, edited,
}

module _ (engine : Engine) where
  abbrev pub Parses : Template → Type 0
  Parses t = engine.parse_error t.content ≡ none

  find_template-All {κ} :
      (P : Template → Type κ) (p : Template → Bool) (rows : TemplateRows)
      → All P rows
      → OfAnswer P (or_missing (find_template p rows))
  unfolding find_template or_missing
  find_template-All P p [] h = tt
  find_template-All P p (r ∷ rows) h = elim (Bool-cases (p r)) [
    | inl y ↦ rw y h.0
    | inr k ↦ rw k (find_template-All P p rows h.1)
  ]

  pub template_by_id-All {κ} :
      (P : Template → Type κ) (fault : Option Error) (id : Uuid) (rows : TemplateRows)
      → All P rows
      → OfAnswer P (template_by_id fault id rows)
  unfolding template_by_id
  template_by_id-All P (some e) id rows h = tt
  template_by_id-All P none id rows h = find_template-All P _ rows h

  with_channel-Parses :
      (c : Option String) (t : Template) → Parses t → OfAnswer Parses (with_channel c t)
  unfolding with_channel
  with_channel-Parses none t h = h
  with_channel-Parses (some c) t h = elim (Bool-cases (is_valid c)) [
    | inl y ↦ rw y h
    | inr k ↦ rw k tt
  ]

  with_content-Parses :
      (c : Option String) (t : Template) → Parses t → OfAnswer Parses (with_content engine c t)
  unfolding with_content
  with_content-Parses none t h = h
  with_content-Parses (some c) t h = elim (Option-cases (engine.parse_error c)) [
    | inl y ↦ rw (y, parsed) y
    | inr k ↦ rw (k.1, parsed) tt
  ]

  pub edited-Parses :
      (req : UpdateTemplateRequest) (t : Template)
      → Parses t
      → OfAnswer Parses (edited engine req t)
  unfolding edited
  edited-Parses req t h =
      bind-OfAnswer Parses Parses _ _
        (with_channel-Parses req.channel (record t { name = or_old req.name t.name }) h)
        (λ t1 h1.
          bind-OfAnswer Parses Parses _ _
            (with_content-Parses req.content (record t1 { subject = or_old req.subject t1.subject })
              h1)
            (λ t2 h2. h2))

  pub update_template-contents :
      (fault : Option Error) (now : Time) (t : Template) (rows : TemplateRows)
      → Parses t
      → All Parses rows
      → All Parses (update_template fault now t rows).2
  unfolding update_template save_template saved_template
  update_template-contents (some e) now t rows p h = h
  update_template-contents none now t rows p h =
      elim (Bool-cases (
        has_template t.id rows
        && (name_taken (record t { updated_at = now }) rows || not (is_valid t.channel)))) [
          | inl y ↦ rw y h
          | inr k ↦ rw k (
              change-All t.id (saved_template (record t { updated_at = now })) (λ r. refl) Parses
                rows (λ r _. p) h)
        ]

  pub create_template-contents :
      (fault : Option Error) (t : Template) (rows : TemplateRows)
      → Parses t
      → All Parses rows
      → All Parses (create_template fault t rows).1
  unfolding create_template
  create_template-contents (some e) t rows p h = h
  create_template-contents none t rows p h =
      elim (Bool-cases (template_clashes t rows || not (is_valid t.channel))) [
        | inl y ↦ rw y h
        | inr k ↦ rw k (All-append Parses rows (t ∷ []) h (p, tt))
      ]

  pub delete_template-contents :
      (fault : Option Error) (now : Time) (id : Uuid) (rows : TemplateRows)
      → All Parses rows
      → All Parses (delete_template fault now id rows).1
  unfolding delete_template retired
  delete_template-contents (some e) now id rows h = h
  delete_template-contents none now id rows h =
      change-All id (retired now) (λ r. refl) Parses rows (λ r p. p) h

  pub parsed_lem :
      (content : String) → OfAnswer (λ _. engine.parse_error content ≡ none) (parsed engine content)
  unfolding parsed
  parsed_lem content = go (engine.parse_error content) refl
    where
      go :
          (o : Option Error)
          → engine.parse_error content ≡ o
          → OfAnswer (λ _. engine.parse_error content ≡ none) (syntax_result o)
      go none h = h
      go (some e) h = tt
