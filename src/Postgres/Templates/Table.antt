-- ===== src/Postgres/Templates/Table.antt =====
-- The constraints of the templates table as an invariant, and the row under an ID.
use event_driven_notificatio.Prelude.{
  ◌≡◌, refl, true, false, not, ◌&&◌, ◌||◌, Option, none, some, [], ◌∷◌, ◌++◌, arith, ◌==◌, str_eq,
  eq_iff, if◌then◌else◌, Bool-cases, inl, inr, ◌∙◌, ap,
}
use event_driven_notificatio.Domain.Notification.{is_valid, Uuid, Time}
use event_driven_notificatio.Domain.Errors.{Error}
use event_driven_notificatio.Domain.Template.{Template}
use event_driven_notificatio.Postgres.Templates.{
  TemplateRows, template_clash, template_clashes, create_template, name_taken, has_template,
  saved_template, change_template, save_template, update_template, delete_template, retired,
}

-- Distinct IDs, distinct names, valid channels.
abbrev pub IsTemplateTable : TemplateRows → Type 0
IsTemplateTable [] = Unit
IsTemplateTable (r ∷ rows) =
    (template_clashes r rows ≡ false) × (is_valid r.channel ≡ true) × IsTemplateTable rows

clash_symm : (a b : Template) → template_clash a b ≡ false → template_clash b a ≡ false
clash_symm a b h = ground (arith, eq_iff a.name b.name, eq_iff b.name a.name)

clashes-append :
    (r n : Template) (rows : TemplateRows)
    → template_clashes r rows ≡ false
    → template_clash n r ≡ false
    → template_clashes r (rows ++ n ∷ []) ≡ false
clashes-append r n [] h k = ground arith
clashes-append r n (x ∷ rows) h k = ground (arith, clashes-append r n rows)

append-IsTemplateTable :
    (n : Template) (rows : TemplateRows)
    → IsTemplateTable rows
    → template_clashes n rows ≡ false
    → is_valid n.channel ≡ true
    → IsTemplateTable (rows ++ n ∷ [])
append-IsTemplateTable n [] t c v = (refl, v, tt)
append-IsTemplateTable n (r ∷ rows) t c v = (
  clashes-append r n rows t.0 (clash_symm r n (ground arith)),
  t.1,
  append-IsTemplateTable n rows t.2 (ground arith) v,
)

pub create_template-IsTemplateTable :
    (e : Option Error) (t : Template) (rows : TemplateRows)
    → IsTemplateTable rows
    → IsTemplateTable (create_template e t rows).1
unfolding create_template
create_template-IsTemplateTable (some e) t rows h = h
create_template-IsTemplateTable none t rows h =
    elim (Bool-cases (template_clashes t rows || not (is_valid t.channel))) [
      | inl y ↦ rw y h
      | inr k ↦ rw k (append-IsTemplateTable t rows h (ground arith) (ground arith))
    ]

-- a row that is written anew, or left
written : Template → Template → Template
written t r = if r.id == t.id then saved_template t r else r

clashes-change :
    (t r : Template) (rows : TemplateRows)
    → name_taken t rows ≡ false
    → (r.id == t.id) ≡ false
    → str_eq r.name t.name ≡ false
    → template_clashes r rows ≡ false
    → template_clashes r (change_template t.id (saved_template t) rows) ≡ false
unfolding change_template saved_template
clashes-change t r [] n i s h = refl
clashes-change t r (c ∷ rows) n i s h = elim (Bool-cases (c.id == t.id)) [
  | inl y ↦
      rw y (ground (arith, eq_iff t.name r.name, eq_iff r.name t.name, clashes-change t r rows))
  | inr k ↦ rw k (ground (arith, clashes-change t r rows))
]

-- no other row has the ID
clashes-saved :
    (t r : Template) (rows : TemplateRows)
    → name_taken t rows ≡ false
    → (r.id == t.id) ≡ true
    → template_clashes r rows ≡ false
    → template_clashes (saved_template t r) (change_template t.id (saved_template t) rows) ≡ false
unfolding change_template saved_template
clashes-saved t r [] n i h = refl
clashes-saved t r (c ∷ rows) n i h = elim (Bool-cases (c.id == t.id)) [
  | inl y ↦ absurd (ground arith)
  | inr k ↦ rw k (ground (arith, clashes-saved t r rows))
]

save-IsTemplateTable :
    (t : Template) (rows : TemplateRows)
    → is_valid t.channel ≡ true
    → name_taken t rows ≡ false
    → IsTemplateTable rows
    → IsTemplateTable (change_template t.id (saved_template t) rows)
unfolding change_template saved_template
save-IsTemplateTable t [] v n h = tt
save-IsTemplateTable t (r ∷ rows) v n h = elim (Bool-cases (r.id == t.id)) [
  | inl y ↦ rw y (
    clashes-saved t r rows (ground arith) y h.0,
    v,
    save-IsTemplateTable t rows v (ground arith) h.2,
  )
  | inr k ↦ rw k (
    clashes-change t r rows (ground arith) k (ground arith) h.0,
    h.1,
    save-IsTemplateTable t rows v (ground arith) h.2,
  )
]

change-absent :
    (id : Uuid) (f : Template → Template) (rows : TemplateRows)
    → has_template id rows ≡ false
    → change_template id f rows ≡ rows
unfolding change_template
change-absent id f [] h = refl
change-absent id f (r ∷ rows) h =
    let k : (r.id == id) ≡ false = ground arith in
    rw k (ap (λ t. r ∷ t) (change-absent id f rows (ground arith)))

save_template-IsTemplateTable :
    (t : Template) (rows : TemplateRows)
    → IsTemplateTable rows
    → IsTemplateTable (save_template t rows).1
unfolding save_template
save_template-IsTemplateTable t rows h =
    elim (Bool-cases (has_template t.id rows && (name_taken t rows || not (is_valid t.channel)))) [
      | inl y ↦ rw y h
      | inr k ↦ rw k (elim (Bool-cases (has_template t.id rows)) [
        | inl p ↦ save-IsTemplateTable t rows (ground arith) (ground arith) h
        | inr q ↦ rw (change-absent t.id (saved_template t) rows q) h
      ])
    ]

pub update_template-IsTemplateTable :
    (e : Option Error) (now : Time) (t : Template) (rows : TemplateRows)
    → IsTemplateTable rows
    → IsTemplateTable (update_template e now t rows).2
unfolding update_template
update_template-IsTemplateTable (some e) now t rows h = h
update_template-IsTemplateTable none now t rows h =
    save_template-IsTemplateTable (record t { updated_at = now }) rows h

clashes-retired :
    (now : Time) (id : Uuid) (r : Template) (rows : TemplateRows)
    → template_clashes r (change_template id (retired now) rows) ≡ template_clashes r rows
unfolding change_template retired
clashes-retired now id r [] = refl
clashes-retired now id r (c ∷ rows) = elim (Bool-cases (c.id == id)) [
  | inl y ↦ rw y (rw (clashes-retired now id r rows))
  | inr k ↦ rw k (rw (clashes-retired now id r rows))
]

clashes-retired_self :
    (now : Time) (r : Template) (rows : TemplateRows)
    → template_clashes (retired now r) rows ≡ template_clashes r rows
unfolding retired
clashes-retired_self now r [] = refl
clashes-retired_self now r (c ∷ rows) = rw (clashes-retired_self now r rows)

pub retire-IsTemplateTable :
    (now : Time) (id : Uuid) (rows : TemplateRows)
    → IsTemplateTable rows
    → IsTemplateTable (change_template id (retired now) rows)
unfolding change_template
retire-IsTemplateTable now id [] h = tt
retire-IsTemplateTable now id (r ∷ rows) h = elim (Bool-cases (r.id == id)) [
  | inl y ↦ rw y (
    clashes-retired now id (retired now r) rows ∙ (clashes-retired_self now r rows ∙ h.0),
    unfold retired in h.1,
    retire-IsTemplateTable now id rows h.2,
  )
  | inr k ↦ rw k (clashes-retired now id r rows ∙ h.0, h.1, retire-IsTemplateTable now id rows h.2)
]

pub delete_template-IsTemplateTable :
    (e : Option Error) (now : Time) (id : Uuid) (rows : TemplateRows)
    → IsTemplateTable rows
    → IsTemplateTable (delete_template e now id rows).1
unfolding delete_template
delete_template-IsTemplateTable (some e) now id rows h = h
delete_template-IsTemplateTable none now id rows h = retire-IsTemplateTable now id rows h
