-- ===== src/Base/Pairs.antt =====
-- Lists in which each item stands in a relation to those after it.
use Prim.Native.Nat.{ℕ, zero, suc}
use mathlib.Core.Path.{◌≡◌, subst, sym}
use mathlib.Core.List.{List, [], ◌∷◌, ◌++◌, reverse, reverse-cons}
use mathlib.Core.Bool.{Bool, true}
use mathlib.Core.Logic.{inl, inr}
use omarchy_chatd.Base.Booleans.{Bool-cases}
use omarchy_chatd.Base.Lists.{take, drop, keep, All, All-append, All-take}

module _ {ℓ κ} {A : Type ℓ} (P : A → Type κ) where
  pub All-filter : (p : A → Bool) (xs : List A) → All P xs → All P (keep p xs)
  All-filter p [] h = tt
  All-filter p (x ∷ xs) h = elim (Bool-cases (p x)) [
    | inl e ↦ rw e (h.0, All-filter p xs h.1)
    | inr e ↦ rw e (All-filter p xs h.1)
  ]

  pub All-drop : (n : ℕ) (xs : List A) → All P xs → All P (drop n xs)
  All-drop zero xs h = h
  All-drop (suc n) [] h = tt
  All-drop (suc n) (x ∷ xs) h = All-drop n xs h.1

  pub All-reverse : (xs : List A) → All P xs → All P (reverse xs)
  All-reverse [] h = tt
  All-reverse (x ∷ xs) h =
      subst (All P) (sym (reverse-cons x xs))
        (All-append P (reverse xs) (x ∷ []) (All-reverse xs h.1) (h.0, tt))

  -- What holds of an item that the test lets pass, holds of all that are kept.
  pub All-kept : (p : A → Bool) (xs : List A) → ((x : A) → p x ≡ true → P x) → All P (keep p xs)
  All-kept p [] h = tt
  All-kept p (x ∷ xs) h = elim (Bool-cases (p x)) [
    | inl e ↦ rw e (h x e, All-kept p xs h)
    | inr e ↦ rw e (All-kept p xs h)
  ]

pub All-weaken {ℓ κ} :
    {A : Type ℓ} {P Q : A → Type κ} → ((x : A) → P x → Q x) → (xs : List A) → All P xs → All Q xs
All-weaken f [] h = tt
All-weaken f (x ∷ xs) h = (f x h.0, All-weaken f xs h.1)

module _ {ℓ κ} {A : Type ℓ} (R : A → A → Type κ) where
  abbrev pub Pairwise : List A → Type κ
  Pairwise [] = Unit
  Pairwise (x ∷ xs) = All (R x) xs × Pairwise xs

  pub Pairwise-keep : (p : A → Bool) (xs : List A) → Pairwise xs → Pairwise (keep p xs)
  Pairwise-keep p [] h = tt
  Pairwise-keep p (x ∷ xs) h = elim (Bool-cases (p x)) [
    | inl e ↦ rw e (All-filter (R x) p xs h.0, Pairwise-keep p xs h.1)
    | inr e ↦ rw e (Pairwise-keep p xs h.1)
  ]

  pub Pairwise-take : (n : ℕ) (xs : List A) → Pairwise xs → Pairwise (take n xs)
  Pairwise-take zero xs h = tt
  Pairwise-take (suc n) [] h = tt
  Pairwise-take (suc n) (x ∷ xs) h = (All-take (R x) n xs h.0, Pairwise-take n xs h.1)

  pub Pairwise-drop : (n : ℕ) (xs : List A) → Pairwise xs → Pairwise (drop n xs)
  Pairwise-drop zero xs h = h
  Pairwise-drop (suc n) [] h = tt
  Pairwise-drop (suc n) (x ∷ xs) h = Pairwise-drop n xs h.1

  pub Pairwise-append :
      (xs ys : List A)
      → Pairwise xs
      → Pairwise ys
      → All (λ x. All (R x) ys) xs
      → Pairwise (xs ++ ys)
  Pairwise-append [] ys h k c = k
  Pairwise-append (x ∷ xs) ys h k c =
      (All-append (R x) xs ys h.0 c.0, Pairwise-append xs ys h.1 k c.1)

  All-flip :
      ((x y : A) → R x y → R y x)
      → (x : A) (xs : List A) → All (R x) xs
      → All (λ y. All (R y) (x ∷ [])) xs
  All-flip flip x [] h = tt
  All-flip flip x (y ∷ ys) h = ((flip x y h.0, tt), All-flip flip x ys h.1)

  pub Pairwise-reverse :
      ((x y : A) → R x y → R y x) → (xs : List A) → Pairwise xs → Pairwise (reverse xs)
  Pairwise-reverse flip [] h = tt
  Pairwise-reverse flip (x ∷ xs) h = subst Pairwise (sym (reverse-cons x xs)) (
      Pairwise-append (reverse xs) (x ∷ []) (Pairwise-reverse flip xs h.1) (tt, tt)
        (All-reverse (λ y. All (R y) (x ∷ [])) xs (All-flip flip x xs h.0)))
