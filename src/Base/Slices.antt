-- ===== src/Base/Slices.antt =====
-- Laws of taking, dropping, keeping and reversing, and of the items at an index.
use Prim.Native.Nat.{ℕ, zero, suc, ◌-◌, ◌≤◌, ◌<◌}
use mathlib.Core.Path.{◌≡◌, refl, ap, sym, ◌∙◌, subst}
use mathlib.Core.Bool.{Bool}
use mathlib.Core.List.{
  List, [], ◌∷◌, ◌++◌, reverse, reverse-cons, reverse-append, reverse-reverse, append-nil,
}
use mathlib.Core.Option.{some}
use native.Mathlib.Omega.{arith}
use mathlib.Core.Logic.{inl, inr}
use omarchy_chatd.Base.Booleans.{Bool-cases}
use omarchy_chatd.Base.Lists.{
  length, get_elem?, take, drop, keep, length-append, length-drop, take-append-drop, All,
}

module _ {ℓ} {A : Type ℓ} where
  pub length-reverse : (xs : List A) → length (reverse xs) ≡ length xs
  length-reverse [] = refl
  length-reverse (x ∷ xs) =
      rw (reverse-cons x xs) (omega (arith, length-append (reverse xs) (x ∷ []), length-reverse xs))

  pub take-append_exact : (xs ys : List A) → take (length xs) (xs ++ ys) ≡ xs
  take-append_exact [] ys = refl
  take-append_exact (x ∷ xs) ys = ap (λ r. x ∷ r) (take-append_exact xs ys)

  -- The last `c` items, in order.
  pub reverse-take-reverse :
      (c : ℕ) (xs : List A)
      → c ≤ length xs
      → reverse (take c (reverse xs)) ≡ drop (length xs - c) xs
  reverse-take-reverse c xs h =
      let k = length xs - c in
      let back = reverse (drop k xs) in
      let front = reverse (take k xs) in
      let split : reverse xs ≡ back ++ front =
        ap reverse (sym (take-append-drop k xs)) ∙ reverse-append (take k xs) (drop k xs) in
      let long : c ≡ length back = omega (arith, length-reverse (drop k xs), length-drop k xs) in
      ap (λ r. reverse (take c r)) split
      ∙ ap (λ n. reverse (take n (back ++ front))) long
      ∙ ap reverse (take-append_exact back front)
      ∙ reverse-reverse (drop k xs)

  pub keep-append : (p : A → Bool) (xs ys : List A) → keep p (xs ++ ys) ≡ keep p xs ++ keep p ys
  keep-append p [] ys = refl
  keep-append p (x ∷ xs) ys = ground (arith, keep-append p xs ys)

  pub keep-reverse : (p : A → Bool) (xs : List A) → keep p (reverse xs) ≡ reverse (keep p xs)
  keep-reverse p [] = refl
  keep-reverse p (x ∷ xs) =
      ap (keep p) (reverse-cons x xs)
      ∙ keep-append p (reverse xs) (x ∷ [])
      ∙ ap (λ r. r ++ keep p (x ∷ [])) (keep-reverse p xs)
      ∙ keep_last
    where
      keep_last : reverse (keep p xs) ++ keep p (x ∷ []) ≡ reverse (keep p (x ∷ xs))
      keep_last = elim (Bool-cases (p x)) [
        | inl e ↦ rw e (sym (reverse-cons x (keep p xs)))
        | inr e ↦ rw e (append-nil _)
      ]

  pub take-take : (m n : ℕ) (xs : List A) → m ≤ n → take m (take n xs) ≡ take m xs
  take-take zero n xs h = refl
  take-take (suc m) zero xs h = elim h [ ]
  take-take (suc m) (suc n) [] h = refl
  take-take (suc m) (suc n) (x ∷ xs) h = ap (λ r. x ∷ r) (take-take m n xs (omega arith))

  pub get_elem?-take : (n i : ℕ) (xs : List A) → i < n → get_elem? (take n xs) i ≡ get_elem? xs i
  get_elem?-take zero i xs h = elim h [ ]
  get_elem?-take (suc n) i [] h = refl
  get_elem?-take (suc n) zero (x ∷ xs) h = refl
  get_elem?-take (suc n) (suc i) (x ∷ xs) h = get_elem?-take n i xs (omega arith)

  pub get_elem?-lt : (i : ℕ) (xs : List A) → i < length xs → (a : A) × (get_elem? xs i ≡ some a)
  get_elem?-lt i [] h = elim h [ ]
  get_elem?-lt zero (x ∷ xs) h = (x, refl)
  get_elem?-lt (suc i) (x ∷ xs) h = get_elem?-lt i xs (omega arith)

  pub All-get_elem? {κ} :
      (P : A → Type κ) (i : ℕ) (xs : List A) (a : A) → All P xs → get_elem? xs i ≡ some a → P a
  All-get_elem? P i [] a h e = absurd (cc e)
  All-get_elem? P zero (x ∷ xs) a h e = let q : x ≡ a = cc in subst P q h.0
  All-get_elem? P (suc i) (x ∷ xs) a h e = All-get_elem? P i xs a h.1 e
