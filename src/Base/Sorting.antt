-- ===== src/Base/Sorting.antt =====
-- A stable sort by a test, as `sort_by` of a list, and what it keeps.
use Prim.Native.Nat.{suc}
use mathlib.Core.Path.{◌≡◌, refl, ap, ◌∙◌}
use mathlib.Core.List.{List, [], ◌∷◌, Permᴰ}
use mathlib.Core.Bool.{Bool, true, false}
use mathlib.Core.Logic.{inl, inr}
use omarchy_chatd.Base.Booleans.{if◌then◌else◌, Bool-cases}
use omarchy_chatd.Base.Lists.{length, All}
use omarchy_chatd.Base.Pairs.{Pairwise}

module _ {ℓ} {A : Type ℓ} (before : A → A → Bool) where
  -- `before x y`: `x` may stay in front of `y`.
  unfoldable pub insert_by : A → List A → List A
  insert_by x [] = x ∷ []
  insert_by x (y ∷ ys) = let rest = insert_by x ys in if before x y then x ∷ y ∷ ys else y ∷ rest

  unfoldable pub sort_by : List A → List A
  unfolding insert_by
  sort_by [] = []
  sort_by (x ∷ xs) = insert_by x (sort_by xs)

  length-insert_by : (x : A) (ys : List A) → length (insert_by x ys) ≡ suc (length ys)
  unfolding insert_by
  length-insert_by x [] = refl
  length-insert_by x (y ∷ ys) = elim (Bool-cases (before x y)) [
    | inl e ↦ rw e refl
    | inr e ↦ rw e (ap suc (length-insert_by x ys))
  ]

  pub length-sort_by : (xs : List A) → length (sort_by xs) ≡ length xs
  unfolding sort_by
  length-sort_by [] = refl
  length-sort_by (x ∷ xs) = length-insert_by x (sort_by xs) ∙ ap suc (length-sort_by xs)

  Perm-refl : (xs : List A) → Permᴰ xs xs
  Perm-refl [] = Permᴰ.nil
  Perm-refl (x ∷ xs) = Permᴰ.cons refl (Perm-refl xs)

  insert_by-Perm : (x : A) (ys : List A) → Permᴰ (x ∷ ys) (insert_by x ys)
  unfolding insert_by
  insert_by-Perm x [] = Perm-refl (x ∷ [])
  insert_by-Perm x (y ∷ ys) = elim (Bool-cases (before x y)) [
    | inl e ↦ rw e (Perm-refl (x ∷ y ∷ ys))
    | inr e ↦ rw e (Permᴰ.trans (Permᴰ.swap refl refl) (Permᴰ.cons refl (insert_by-Perm x ys)))
  ]

  pub sort_by-Perm : (xs : List A) → Permᴰ xs (sort_by xs)
  unfolding sort_by
  sort_by-Perm [] = Permᴰ.nil
  sort_by-Perm (x ∷ xs) =
      Permᴰ.trans (Permᴰ.cons refl (sort_by-Perm xs)) (insert_by-Perm x (sort_by xs))

  module _ {κ} (P : A → Type κ) where
    pub insert_by-All : (x : A) (ys : List A) → P x → All P ys → All P (insert_by x ys)
    unfolding insert_by
    insert_by-All x [] p h = (p, tt)
    insert_by-All x (y ∷ ys) p h = elim (Bool-cases (before x y)) [
      | inl e ↦ rw e (p, h)
      | inr e ↦ rw e (h.0, insert_by-All x ys p h.1)
    ]

    pub sort_by-All : (xs : List A) → All P xs → All P (sort_by xs)
    unfolding sort_by
    sort_by-All [] h = tt
    sort_by-All (x ∷ xs) h = insert_by-All x (sort_by xs) h.0 (sort_by-All xs h.1)

  -- The result is in order for a transitive relation that the test decides, one way or the other.
  module _ {κ} (R : A → A → Type κ) (holds : (x y : A) → before x y ≡ true → R x y)
      (flips : (x y : A) → before x y ≡ false → R y x)
      (trans : (x y z : A) → R x y → R y z → R x z) where
    through : (x y : A) (ys : List A) → R x y → All (R y) ys → All (R x) ys
    through x y [] r h = tt
    through x y (z ∷ ys) r h = (trans x y z r h.0, through x y ys r h.1)

    insert_by-Pairwise : (x : A) (ys : List A) → Pairwise R ys → Pairwise R (insert_by x ys)
    unfolding insert_by
    insert_by-Pairwise x [] h = (tt, tt)
    insert_by-Pairwise x (y ∷ ys) h = elim (Bool-cases (before x y)) [
      | inl e ↦ rw e ((holds x y e, through x y ys (holds x y e) h.0), h)
      | inr e ↦ rw e (insert_by-All (R y) x ys (flips x y e) h.0, insert_by-Pairwise x ys h.1)
    ]

    pub sort_by-Pairwise : (xs : List A) → Pairwise R (sort_by xs)
    unfolding sort_by
    sort_by-Pairwise [] = tt
    sort_by-Pairwise (x ∷ xs) = insert_by-Pairwise x (sort_by xs) (sort_by-Pairwise xs)
