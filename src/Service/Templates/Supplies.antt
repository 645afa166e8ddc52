-- ===== src/Service/Templates/Supplies.antt =====
-- The variables of a template in Render of internal/service/template.go.
use mathlib.Core.Bool.{false≢true}
use mathlib.Core.List.{append-nil, append_assoc}
use text.Mathlib.TextPositions.{eq_refl}
use event_driven_notificatio.Prelude.{
  String, ◌≡◌, refl, sym, ap, ◌∙◌, true, false, Bool, ◌||◌, Option, none, some, is_some, List, [],
  ◌∷◌, ◌++◌, All, Bool-cases, inl, inr, str_eq,
}
use event_driven_notificatio.Domain.Errors.{Error, Result, ok, err, panics}
use event_driven_notificatio.Domain.Notification.{Value, Vars}
use event_driven_notificatio.Domain.Template.{TemplateVariable, Template}
use event_driven_notificatio.Service.Templates.{
  Engine, has_key, with_default, supply, check_variable, stop_at, fill_defaults, or_nil, given_back,
  rendered, both, render_text, render_subject, render,
}

-- A variable that is required or has a default has a value in the map.
abbrev pub IsSupplied : Vars → TemplateVariable → Type 0
IsSupplied vars v = (v.required || is_some v.default) ≡ true → has_key v.name vars ≡ true

-- The map keeps what was in the other.
abbrev pub Extends : Vars → Vars → Type 0
Extends vars vars' = (extra : Vars) × (vars' ≡ vars ++ extra)

Extends-refl : (vars : Vars) → Extends vars vars
Extends-refl vars = ([], sym (append-nil vars))

Extends-trans : (a b c : Vars) → Extends a b → Extends b c → Extends a c
Extends-trans a b c (x, p) (y, q) = (x ++ y, q ∙ ap (λ l. l ++ y) p ∙ append_assoc a x y)

or_true : (b c : Bool) → c ≡ true → (b || c) ≡ true
or_true true c h = refl
or_true false c h = h

or_mono : (b c d : Bool) → (c ≡ true → d ≡ true) → (b || c) ≡ true → (b || d) ≡ true
or_mono true c d f h = refl
or_mono false c d f h = f h

has_key-append :
    (k : String) (vars extra : Vars) → has_key k vars ≡ true → has_key k (vars ++ extra) ≡ true
has_key-append k [] extra h = absurd (false≢true h)
has_key-append k (v ∷ vs) extra h = or_mono (str_eq v.0 k) _ _ (has_key-append k vs extra) h

has_key-last : (k : String) (x : Value) (vars : Vars) → has_key k (vars ++ (k, x) ∷ []) ≡ true
has_key-last k x [] = rw (eq_refl k) refl
has_key-last k x (v ∷ vs) = or_true (str_eq v.0 k) _ (has_key-last k x vs)

has_key-Extends : (k : String) (a b : Vars) → Extends a b → has_key k a ≡ true → has_key k b ≡ true
has_key-Extends k a b (x, p) h = ap (has_key k) p ∙ has_key-append k a x h

with_default-IsSupplied :
    (name : String) (d : Option String) (vars : Vars)
    → Extends vars (with_default name d vars)
      × (is_some d ≡ true → has_key name (with_default name d vars) ≡ true)
with_default-IsSupplied name none vars = (Extends-refl vars, λ h. absurd (false≢true h))
with_default-IsSupplied name (some d) vars = ((_, refl), λ h. has_key-last name _ vars)

check_variable-IsSupplied :
    (v : TemplateVariable) (vars : Vars)
    → let (failure, vars') = check_variable v vars in
      Extends vars vars' × (failure ≡ none → IsSupplied vars' v)
unfolding check_variable supply
check_variable-IsSupplied v vars = elim (Bool-cases (has_key v.name vars)) [
  | inl y ↦ rw y (Extends-refl vars, λ e d. y)
  | inr k ↦ elim (Bool-cases v.required) [
    | inl r ↦ rw k (rw r (Extends-refl vars, λ e. absurd (false≢true (sym (ap is_some e)))))
    | inr r ↦
        let (ext, has) = with_default-IsSupplied v.name v.default vars in
        rw k (rw r (ext, λ e d. has d))
  ]
]

IsSupplied-Extends :
    (a b : Vars) (v : TemplateVariable) → Extends a b → IsSupplied a v → IsSupplied b v
IsSupplied-Extends a b v x h d = has_key-Extends v.name a b x (h d)

stop_at-IsSupplied :
    (f : Option Error) (v : TemplateVariable) (vs : List TemplateVariable) (vars m : Vars)
    (rest : Option Error × Vars)
    → Extends vars m × (f ≡ none → IsSupplied m v)
    → Extends m rest.1 × (rest.0 ≡ none → All (IsSupplied rest.1) vs)
    → let (failure, vars') = stop_at f m rest in
      Extends vars vars' × (failure ≡ none → All (IsSupplied vars') (v ∷ vs))
stop_at-IsSupplied none v vs vars m rest (ext, has) (more, all) = (
  Extends-trans vars m rest.1 ext more,
  λ e. (IsSupplied-Extends m rest.1 v more (has refl), all e),
)
stop_at-IsSupplied (some x) v vs vars m rest (ext, has) more =
    (ext, λ e. absurd (false≢true (sym (ap is_some e))))

fill_defaults-IsSupplied :
    (vs : List TemplateVariable) (vars : Vars)
    → let (failure, vars') = fill_defaults vs vars in
      Extends vars vars' × (failure ≡ none → All (IsSupplied vars') vs)
unfolding fill_defaults
fill_defaults-IsSupplied [] vars = (Extends-refl vars, λ e. tt)
fill_defaults-IsSupplied (v ∷ vs) vars =
    let m = (check_variable v vars).1 in
    stop_at-IsSupplied (check_variable v vars).0 v vs vars m (fill_defaults vs m)
      (check_variable-IsSupplied v vars) (fill_defaults-IsSupplied vs m)

abbrev part {ℓ κ} : {A : Type ℓ} {B : Type κ} → (A → B) → Result A → Result B
part f (ok a) = ok (f a)
part f (err e) = err e
part f panics = panics

both-ok :
    (engine : Engine) (content subject : Result String) (out : String × String)
    → both engine content subject ≡ ok out
    → (content ≡ ok out.1) × (subject ≡ ok out.0)
unfolding both
both-ok engine (err e) s out h = cc
both-ok engine panics s out h = cc
both-ok engine (ok c) (err e) out h = cc
both-ok engine (ok c) panics out h = cc
both-ok engine (ok c) (ok s) out h =
    (ap (part (λ (p : String × String). p.1)) h, ap (part (λ (p : String × String). p.0)) h)

-- A result that is ok comes from variables without an error and from a content that is executed.
rendered-ok :
    (engine : Engine) (tmpl : Template) (filled : Option Error × Vars) (out : String × String)
    → rendered engine tmpl filled ≡ ok out
    → (filled.0 ≡ none)
      × (render_text engine "content" tmpl.content filled.1 ≡ ok out.1)
      × (render_subject engine tmpl.subject filled.1 ≡ ok out.0)
unfolding rendered
rendered-ok engine tmpl (some e, vars) out h = cc
rendered-ok engine tmpl (none, vars) out h =
    let (content, subject) = both-ok engine _ _ out h in (refl, content, subject)

-- A Render that answers without an error has rendered the content and the subject with a map that
-- keeps every entry of the caller's and has a value for every variable that is required or has a default; the caller's
-- map becomes that map, unless it is nil.
pub render-IsSupplied :
    (engine : Engine) (tmpl : Template) (vars : Option Vars) (out : String × String)
    → (render engine tmpl vars).0 ≡ ok out
    → (used : Vars) × Extends (or_nil vars) used
      × All (IsSupplied used) tmpl.variables
      × (render_text engine "content" tmpl.content used ≡ ok out.1)
      × (render_subject engine tmpl.subject used ≡ ok out.0)
      × ((render engine tmpl vars).1 ≡ given_back vars used)
unfolding render
render-IsSupplied engine tmpl vars out h =
    let filled = fill_defaults tmpl.variables (or_nil vars) in
    let (none_missing, content, subject) = rendered-ok engine tmpl filled out h in
    let (ext, all) = fill_defaults-IsSupplied tmpl.variables (or_nil vars) in
    (filled.1, ext, all none_missing, content, subject, refl)
