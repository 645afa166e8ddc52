-- ===== src/Service/Templates.antt =====
-- internal/service/template.go: Render and Preview. Go's text/template is the record Engine. A map is
-- an association list, a nil map is none; Render writes its defaults into the caller's map, so what
-- becomes of that map is a result.
pub mod Supplies
pub mod Store
use Prim.Native.String.{◌++◌ as append}
use event_driven_notificatio.Prelude.{
  String, Bool, false, Option, none, some, List, [], ◌∷◌, ◌++◌, str_eq, ◌||◌, if◌then◌else◌,
}
use event_driven_notificatio.Domain.Errors.{
  Error, sentinel, wrapped, missing_template_vars, template_inactive, Result, ok, err, panics,
}
use event_driven_notificatio.Domain.Notification.{text, Vars}
use event_driven_notificatio.Domain.Template.{TemplateVariable, Template}

-- Parsing a template fails or not; executing it writes a text or fails.
pub record Engine : Type 0 where
  pub parse_error : String → Option Error
  pub execute : String → Vars → Result String

abbrev pub has_key : String → Vars → Bool
has_key k [] = false
has_key k (v ∷ vs) = str_eq v.0 k || has_key k vs

-- The map with a variable's default, if it has one.
abbrev pub with_default : String → Option String → Vars → Vars
with_default name none vars = vars
with_default name (some d) vars = vars ++ (name, text d) ∷ []

-- One round of the loop over the variables, when the caller's map lacks the variable.
unfoldable pub supply : TemplateVariable → Vars → Option Error × Vars
supply v vars =
    if v.required
    then (some (wrapped "" (sentinel missing_template_vars) (append ": " v.name)), vars)
    else (none, with_default v.name v.default vars)

unfoldable pub check_variable : TemplateVariable → Vars → Option Error × Vars
unfolding supply
check_variable v vars = if has_key v.name vars then (none, vars) else supply v vars

abbrev pub stop_at {ℓ} : {A : Type ℓ} → Option Error → A → Option Error × A → Option Error × A
stop_at (some e) a rest = (some e, a)
stop_at none a rest = rest

-- The loop: the error of the first required variable that is missing, and the map.
unfoldable pub fill_defaults : List TemplateVariable → Vars → Option Error × Vars
unfolding check_variable
fill_defaults [] vars = (none, vars)
fill_defaults (v ∷ vs) vars =
    let (failure, vars') = check_variable v vars in stop_at failure vars' (fill_defaults vs vars')

wrap_error : String → Result String → Result String
wrap_error prefix (ok s) = ok s
wrap_error prefix (err e) = err (wrapped prefix e "")
wrap_error prefix panics = panics

abbrev pub or_nil : Option Vars → Vars
or_nil none = []
or_nil (some vars) = vars

-- The caller's map after a call that leaves `vars` in the map it works on: a nil map stays nil.
abbrev pub given_back : Option Vars → Vars → Option Vars
given_back none vars = none
given_back (some _) vars = some vars

module _ (engine : Engine) where
  -- Parse and Execute of one text
  unfoldable pub render_text : String → String → Vars → Result String
  unfolding wrap_error
  render_text kind source vars = elim (engine.parse_error source) [
    | some e ↦ err (wrapped (append "parse " (append kind " template: ")) e "")
    | none ↦ wrap_error (append "execute " (append kind " template: ")) (engine.execute source vars)
  ]

  -- the subject, unless it is empty
  unfoldable pub render_subject : String → Vars → Result String
  unfolding render_text
  render_subject subject vars =
      if str_eq subject "" then ok "" else render_text "subject" subject vars

  unfoldable pub both : Result String → Result String → Result (String × String)
  both (err e) subject = err e
  both panics subject = panics
  both (ok content) (err e) = err e
  both (ok content) panics = panics
  both (ok content) (ok subject) = ok (subject, content)

  unfoldable pub rendered : Template → Option Error × Vars → Result (String × String)
  unfolding both render_text render_subject
  rendered tmpl (some e, vars) = err e
  rendered tmpl (none, vars) =
      both (render_text "content" tmpl.content vars) (render_subject tmpl.subject vars)

  -- TemplateService.Render: the subject and the content, and the caller's map.
  unfoldable pub render : Template → Option Vars → Result (String × String) × Option Vars
  unfolding rendered fill_defaults
  render tmpl vars =
      let filled = fill_defaults tmpl.variables (or_nil vars) in
      (rendered tmpl filled, given_back vars filled.1)

  -- TemplateService.Preview, from the repository's answer
  unfoldable pub preview : Result Template → Option Vars → Result (String × String)
  unfolding render
  preview (err e) vars = err e
  preview panics vars = panics
  preview (ok tmpl) vars =
      if tmpl.active then (render tmpl vars).0 else err (sentinel template_inactive)
