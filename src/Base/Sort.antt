-- ===== src/Base/Sort.antt =====
-- `sort` of an array, which is stable, by a test that says which of two entries comes first.
use mathlib.Core.Path.{◌≡◌, refl, ap, ◌∙◌}
use mathlib.Core.Logic.{inl, inr}
use mathlib.Core.Bool.{Bool, true, false}
use mathlib.Core.List.{List, [], ◌∷◌, ◌++◌}
use square.Base.Tests.{if◌then◌else◌, Bool-cases}
use square.Base.Lists.{All, All-append}

module _ {ℓ} {A : Type ℓ} (before : A → A → Bool) where
  unfoldable pub insert : A → List A → List A
  insert x [] = x ∷ []
  insert x (y ∷ ys) = let rest = insert x ys in if before y x then y ∷ rest else x ∷ y ∷ ys

  unfoldable pub sort : List A → List A
  sort [] = []
  sort (x ∷ xs) = insert x (sort xs)

  -- No later entry comes before an earlier one.
  abbrev pub IsSorted : List A → Type ℓ
  IsSorted [] = Unit
  IsSorted (x ∷ xs) = All (λ y. before y x ≡ false) xs × IsSorted xs

  insert_first : (x : A) (ys : List A) → All (λ y. before y x ≡ false) ys → insert x ys ≡ x ∷ ys
  unfolding insert
  insert_first x [] h = refl
  insert_first x (y ∷ ys) (h, hs) = rw (h) refl

  -- A sorted list stays.
  pub sort_sorted : (xs : List A) → IsSorted xs → sort xs ≡ xs
  unfolding sort
  sort_sorted [] h = refl
  sort_sorted (x ∷ xs) (h, hs) = ap (insert x) (sort_sorted xs hs) ∙ insert_first x xs h

  pub append-IsSorted :
      (xs ys : List A)
      → IsSorted xs
      → IsSorted ys
      → All (λ x. All (λ y. before y x ≡ false) ys) xs
      → IsSorted (xs ++ ys)
  append-IsSorted [] ys hx hy h = hy
  append-IsSorted (x ∷ xs) ys (hx, hxs) hy (h, hs) =
      (All-append (λ y. before y x ≡ false) xs ys hx h, append-IsSorted xs ys hxs hy hs)

  insert-All : (P : A → Type 0) (x : A) (ys : List A) → P x → All P ys → All P (insert x ys)
  unfolding insert
  insert-All P x [] p h = (p, tt)
  insert-All P x (y ∷ ys) p (q, h) = elim (Bool-cases (before y x)) [
    | inl b ↦ rw (b) (q, insert-All P x ys p h)
    | inr b ↦ rw (b) (p, (q, h))
  ]

  pub sort-All : (P : A → Type 0) (xs : List A) → All P xs → All P (sort xs)
  unfolding sort
  sort-All P [] h = tt
  sort-All P (x ∷ xs) (p, h) = insert-All P x (sort xs) p (sort-All P xs h)

module _ {ℓ} {A : Type ℓ} (P : A → Type 0) where
  All-drop_middle : (xs : List A) (y : A) (ys : List A) → All P (xs ++ y ∷ ys) → All P (xs ++ ys)
  All-drop_middle [] y ys (h, hs) = hs
  All-drop_middle (x ∷ xs) y ys (h, hs) = (h, All-drop_middle xs y ys hs)

pub drop_middle-IsSorted {ℓ} :
    {A : Type ℓ} (before : A → A → Bool) (xs : List A) (y : A) (ys : List A)
    → IsSorted before (xs ++ y ∷ ys)
    → IsSorted before (xs ++ ys)
drop_middle-IsSorted before [] y ys (h, hs) = hs
drop_middle-IsSorted before (x ∷ xs) y ys (h, hs) =
    (All-drop_middle (λ z. before z x ≡ false) xs y ys h, drop_middle-IsSorted before xs y ys hs)

-- A test of which comes first, as far as sorting needs it: no two come before each other, and what does not
-- come before one entry does not come before what is at or after it.
module _ {ℓ} {A : Type ℓ} (before : A → A → Bool)
    (asymmetric : (x y : A) → before x y ≡ true → before y x ≡ false)
    (passes_on : (x y z : A) → before y x ≡ false → before z y ≡ false → before z x ≡ false) where
  passes_on-All :
      (x y : A) (zs : List A)
      → before y x ≡ false
      → All (λ z. before z y ≡ false) zs
      → All (λ z. before z x ≡ false) zs
  passes_on-All x y [] h hs = tt
  passes_on-All x y (z ∷ zs) h (k, hs) = (passes_on x y z h k, passes_on-All x y zs h hs)

  insert-IsSorted :
      (x : A) (ys : List A) → IsSorted before ys → IsSorted before (insert before x ys)
  unfolding insert
  insert-IsSorted x [] h = (tt, tt)
  insert-IsSorted x (y ∷ ys) (h, hs) = elim (Bool-cases (before y x)) [
    | inl b ↦ rw (b) (
      insert-All before (λ z. before z y ≡ false) x ys (asymmetric y x b) h,
      insert-IsSorted x ys hs,
    )
    | inr b ↦ rw (b) ((b, passes_on-All x y ys b h), (h, hs))
  ]

  pub sort-IsSorted : (xs : List A) → IsSorted before (sort before xs)
  unfolding sort
  sort-IsSorted [] = tt
  sort-IsSorted (x ∷ xs) = insert-IsSorted x (sort before xs) (sort-IsSorted xs)
