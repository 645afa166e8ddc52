-- ===== src/Prelude/Sort.antt =====
-- ORDER BY: insertion sort by a key, smallest first; equal keys keep their order.
use Prim.Native.Nat.{ℕ, suc, ◌≤◌}
use mathlib.Core.Path.{◌≡◌, refl, ap, ◌∙◌}
use mathlib.Core.Logic.{inl, inr}
use mathlib.Core.Bool.{Bool, true, false}
use mathlib.Core.List.{List, [], ◌∷◌}
use native.Mathlib.Omega.{arith}
use event_driven_notificatio.Prelude.Tests.{leb, if◌then◌else◌, Bool-cases, leb→le}
use event_driven_notificatio.Prelude.Lists.{length, All}

module _ {ℓ} {A : Type ℓ} (key : A → ℕ) where
  unfoldable pub insert_by : A → List A → List A
  insert_by a [] = a ∷ []
  insert_by a (x ∷ xs) =
      let rest = insert_by a xs in if leb (key a) (key x) then a ∷ x ∷ xs else x ∷ rest

  unfoldable pub sort_by : List A → List A
  unfolding insert_by
  sort_by [] = []
  sort_by (x ∷ xs) = insert_by x (sort_by xs)

  abbrev pub IsSortedBy : List A → Type 0
  IsSortedBy [] = Unit
  IsSortedBy (x ∷ xs) = All (λ y. key x ≤ key y) xs × IsSortedBy xs

  insert_by-All {κ} :
      (P : A → Type κ) (a : A) (xs : List A) → P a → All P xs → All P (insert_by a xs)
  unfolding insert_by
  insert_by-All P a [] p h = (p, tt)
  insert_by-All P a (x ∷ xs) p h = elim (Bool-cases (leb (key a) (key x))) [
    | inl y ↦ rw y (p, h)
    | inr n ↦ rw n (h.0, insert_by-All P a xs p h.1)
  ]

  pub sort_by-All {κ} : (P : A → Type κ) (xs : List A) → All P xs → All P (sort_by xs)
  unfolding sort_by
  sort_by-All P [] h = tt
  sort_by-All P (x ∷ xs) h = insert_by-All P x (sort_by xs) h.0 (sort_by-All P xs h.1)

  All-insert_by {κ} :
      (P : A → Type κ) (a : A) (xs : List A) → All P (insert_by a xs) → P a × All P xs
  unfolding insert_by
  All-insert_by P a [] h = h
  All-insert_by P a (x ∷ xs) h = go (leb (key a) (key x)) h (All-insert_by P a xs)
    where
      go :
          (b : Bool)
          → All P (if b then a ∷ x ∷ xs else x ∷ insert_by a xs)
          → (All P (insert_by a xs) → P a × All P xs)
          → P a × (P x × All P xs)
      go true h ih = h
      go false h ih = ((ih h.1).0, (h.0, (ih h.1).1))

  pub All-sort_by {κ} : (P : A → Type κ) (xs : List A) → All P (sort_by xs) → All P xs
  unfolding sort_by
  All-sort_by P [] h = tt
  All-sort_by P (x ∷ xs) h =
      let (p, q) = All-insert_by P x (sort_by xs) h in (p, All-sort_by P xs q)

  All-key_mono :
      (a x : A) (xs : List A)
      → key a ≤ key x
      → All (λ y. key x ≤ key y) xs
      → All (λ y. key a ≤ key y) xs
  All-key_mono a x [] h p = tt
  All-key_mono a x (y ∷ xs) h p = (omega arith, All-key_mono a x xs h p.1)

  insert_by-IsSorted : (a : A) (xs : List A) → IsSortedBy xs → IsSortedBy (insert_by a xs)
  unfolding insert_by
  insert_by-IsSorted a [] h = (tt, tt)
  insert_by-IsSorted a (x ∷ xs) h = elim (Bool-cases (leb (key a) (key x))) [
    | inl y ↦ let l = leb→le (key a) (key x) y in rw y ((l, All-key_mono a x xs l h.0), h)
    | inr n ↦
        rw n
          (insert_by-All (λ y. key x ≤ key y) a xs (ground arith) h.0, insert_by-IsSorted a xs h.1)
  ]

  pub sort_by-IsSorted : (xs : List A) → IsSortedBy (sort_by xs)
  unfolding sort_by
  sort_by-IsSorted [] = tt
  sort_by-IsSorted (x ∷ xs) = insert_by-IsSorted x (sort_by xs) (sort_by-IsSorted xs)

  length-insert_by : (a : A) (xs : List A) → length (insert_by a xs) ≡ suc (length xs)
  unfolding insert_by
  length-insert_by a [] = refl
  length-insert_by a (x ∷ xs) = ground (arith, length-insert_by a xs)

  pub length-sort_by : (xs : List A) → length (sort_by xs) ≡ length xs
  unfolding sort_by
  length-sort_by [] = refl
  length-sort_by (x ∷ xs) = length-insert_by x (sort_by xs) ∙ ap suc (length-sort_by xs)
