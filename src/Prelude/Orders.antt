-- ===== src/Prelude/Orders.antt =====
-- Lists in another order: a sort of elements with distinct keys gives the same list.
use mathlib.Core.Path.{◌≡◌, refl, sym, ap, ◌∙◌, subst}
use mathlib.Core.Logic.{inl, inr}
use mathlib.Core.Bool.{Bool, false}
use mathlib.Core.List.{List, [], ◌∷◌}
use mathlib.Core.List.{Permᴰ}
use mathlib.Core.List.Permᴰ
use Prim.Native.Nat.{ℕ}
use native.Mathlib.Omega.{arith}
use event_driven_notificatio.Prelude.Tests.{◌==◌, Bool-cases}
use event_driven_notificatio.Prelude.Lists.{All, filterb}
use event_driven_notificatio.Prelude.Sort.{insert_by, sort_by}

module _ {A : Type 0} where
  -- the same elements in any order
  abbrev pub Reordered : List A → List A → Type 0
  Reordered = Permᴰ

  All-Perm {κ} : (P : A → Type κ) {xs ys : List A} → Reordered xs ys → All P xs → All P ys
  All-Perm P Permᴰ.nil h = tt
  All-Perm P (Permᴰ.cons e d) h = (subst P e h.0, All-Perm P d h.1)
  All-Perm P (Permᴰ.swap e f) h = (subst P f h.1.0, (subst P e h.0, h.1.1))
  All-Perm P (Permᴰ.trans d c) h = All-Perm P c (All-Perm P d h)

  -- what holds of two swapped elements, by the equations of a swap
  swapped :
      (P : List A → Type 0) {a b a' b' : A} {l : List A}
      → a ≡ b'
      → b ≡ a'
      → P (b ∷ a ∷ l)
      → P (a' ∷ b' ∷ l)
  swapped P {a} {b} {a'} {b'} {l} e f h =
      subst (λ z. P (a' ∷ z ∷ l)) e (subst (λ z. P (z ∷ a ∷ l)) f h)

  filterb-swap :
      (p : A → Bool) (a b : A) (l : List A)
      → Reordered (filterb p (a ∷ b ∷ l)) (filterb p (b ∷ a ∷ l))
  filterb-swap p a b l = elim (Bool-cases (p a)) [
    | inl y ↦ elim (Bool-cases (p b)) [
      | inl z ↦ rw (y, z) (Permᴰ.swap refl refl)
      | inr z ↦ rw (y, z) (Permᴰ.refl (a ∷ filterb p l))
    ]
    | inr y ↦ elim (Bool-cases (p b)) [
      | inl z ↦ rw (y, z) (Permᴰ.refl (b ∷ filterb p l))
      | inr z ↦ rw (y, z) (Permᴰ.refl (filterb p l))
    ]
  ]

  pub filterb-Perm :
      (p : A → Bool) {xs ys : List A} → Reordered xs ys → Reordered (filterb p xs) (filterb p ys)
  filterb-Perm p Permᴰ.nil = Permᴰ.nil
  filterb-Perm p (Permᴰ.cons {a} {b} e d) = elim (Bool-cases (p a)) [
    | inl y ↦ rw y (rw (sym (ap p e) ∙ y) (Permᴰ.cons e (filterb-Perm p d)))
    | inr k ↦ rw k (rw (sym (ap p e) ∙ k) (filterb-Perm p d))
  ]
  filterb-Perm p (Permᴰ.swap {a} {b} {l = l} e f) =
      swapped (λ k. Reordered (filterb p (a ∷ b ∷ l)) (filterb p k)) e f (filterb-swap p a b l)
  filterb-Perm p (Permᴰ.trans d c) = Permᴰ.trans (filterb-Perm p d) (filterb-Perm p c)

  module _ (key : A → ℕ) where
    -- No two elements have the same key.
    abbrev pub HasDistinctKeys : List A → Type 0
    HasDistinctKeys [] = Unit
    HasDistinctKeys (x ∷ xs) = All (λ y. (key x == key y) ≡ false) xs × HasDistinctKeys xs

    HasDistinctKeys-Perm :
        {xs ys : List A} → Reordered xs ys → HasDistinctKeys xs → HasDistinctKeys ys
    HasDistinctKeys-Perm Permᴰ.nil h = tt
    HasDistinctKeys-Perm (Permᴰ.cons {b = b} {l₁ = l} e d) h = (
      All-Perm (λ y. (key b == key y) ≡ false) d
          (subst (λ z. All (λ y. (key z == key y) ≡ false) l) e h.0),
      HasDistinctKeys-Perm d h.1,
    )
    HasDistinctKeys-Perm (Permᴰ.swap e f) (x, (y, d)) =
        swapped HasDistinctKeys e f ((ground (arith, x.0), y), (x.1, d))
    HasDistinctKeys-Perm (Permᴰ.trans d c) h = HasDistinctKeys-Perm c (HasDistinctKeys-Perm d h)

    insert_by-insert_by :
        (x y : A) (zs : List A)
        → (key x == key y) ≡ false
        → insert_by key x (insert_by key y zs) ≡ insert_by key y (insert_by key x zs)
    unfolding insert_by
    insert_by-insert_by x y [] h = ground arith
    insert_by-insert_by x y (z ∷ zs) h = ground (arith, insert_by-insert_by x y zs)

    pub sort_by-Perm :
        {xs ys : List A} → Reordered xs ys → HasDistinctKeys xs → sort_by key xs ≡ sort_by key ys
    unfolding sort_by
    sort_by-Perm Permᴰ.nil h = refl
    sort_by-Perm (Permᴰ.cons e d) h = rw e (rw (sort_by-Perm d h.1) refl)
    sort_by-Perm (Permᴰ.swap {a} {b} {l = l} e f) h =
        insert_by-insert_by a b (sort_by key l) h.0.0 ∙ rw e (rw f refl)
    sort_by-Perm (Permᴰ.trans d c) h = sort_by-Perm d h ∙ sort_by-Perm c (HasDistinctKeys-Perm d h)
