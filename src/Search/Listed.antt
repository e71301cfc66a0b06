-- ===== src/Search/Listed.antt =====
-- The order and the bound of a list of members (src/core.rs: `members`).
use Prim.Native.Nat.{Ordering, lt, eq, gt}
use omarchy_chatd.Search.Members.{
  ℤ, pos, negsuc, MemberInfo, RoomMember, member_info, is_asked_for, compare_ℤ, comes_before,
  members,
}
use omarchy_chatd.Base.{
  ℕ, ◌≤◌, min, max, ◌≡◌, refl, sym, ◌≢◌, inl, inr, true, false, List, [], ◌∷◌, map, arith,
  Bool-cases, length, keep, length-take, All, All-take, In, sort_by, sort_by-All, sort_by-Pairwise,
  Pairwise, Pairwise-take, Text, trim,
}

-- The order of signed numbers.
infix 50 ◌≤ℤ◌
abbrev pub ◌≤ℤ◌ : ℤ → ℤ → Type 0
pos a ≤ℤ pos b = a ≤ b
pos a ≤ℤ negsuc b = ⊥
negsuc a ≤ℤ pos b = Unit
negsuc a ≤ℤ negsuc b = b ≤ a

≤ℤ_trans : (a b c : ℤ) → a ≤ℤ b → b ≤ℤ c → a ≤ℤ c
≤ℤ_trans (pos a) (pos b) (pos c) p q = omega arith
≤ℤ_trans (pos a) (pos b) (negsuc c) p q = q
≤ℤ_trans (pos a) (negsuc b) c p q = absurd p
≤ℤ_trans (negsuc a) (pos b) (pos c) p q = tt
≤ℤ_trans (negsuc a) (pos b) (negsuc c) p q = absurd q
≤ℤ_trans (negsuc a) (negsuc b) (pos c) p q = tt
≤ℤ_trans (negsuc a) (negsuc b) (negsuc c) p q = omega arith

compare_ℤ_not_gt : (a b : ℤ) (o : Ordering) → compare_ℤ a b ≡ o → o ≢ gt → a ≤ℤ b
compare_ℤ_not_gt (pos a) (pos b) o e n = ground arith
compare_ℤ_not_gt (pos a) (negsuc b) o e n = n (sym e)
compare_ℤ_not_gt (negsuc a) (pos b) o e n = tt
compare_ℤ_not_gt (negsuc a) (negsuc b) o e n = ground arith

compare_ℤ_not_lt : (a b : ℤ) (o : Ordering) → compare_ℤ a b ≡ o → o ≢ lt → b ≤ℤ a
compare_ℤ_not_lt (pos a) (pos b) o e n = ground arith
compare_ℤ_not_lt (pos a) (negsuc b) o e n = tt
compare_ℤ_not_lt (negsuc a) (pos b) o e n = n (sym e)
compare_ℤ_not_lt (negsuc a) (negsuc b) o e n = ground arith

module _ (to_lowercase : Text → Text) where
  before_power :
      (a b : MemberInfo) (o : Ordering)
      → compare_ℤ b.power a.power ≡ o
      → comes_before to_lowercase a b ≡ true
      → b.power ≤ℤ a.power
  unfolding comes_before
  before_power a b lt e h = compare_ℤ_not_gt b.power a.power lt e (λ q. cc)
  before_power a b eq e h = compare_ℤ_not_gt b.power a.power eq e (λ q. cc)
  before_power a b gt e h = absurd (ground arith)

  after_power :
      (a b : MemberInfo) (o : Ordering)
      → compare_ℤ b.power a.power ≡ o
      → comes_before to_lowercase a b ≡ false
      → a.power ≤ℤ b.power
  unfolding comes_before
  after_power a b lt e h = absurd (ground arith)
  after_power a b eq e h = compare_ℤ_not_lt b.power a.power eq e (λ q. cc)
  after_power a b gt e h = compare_ℤ_not_lt b.power a.power gt e (λ q. cc)

  -- The entry of a member of the list that the query asks for.
  abbrev pub IsEntry : (ℕ → Text) → Text → List RoomMember → MemberInfo → Type 0
  IsEntry to_uppercase q listed i =
      (m : RoomMember) × In m listed
      × (is_asked_for to_lowercase q m ≡ true)
      × (i ≡ member_info to_uppercase m)

  entries :
      (to_uppercase : ℕ → Text) (q : Text) (listed : List RoomMember)
      → All
          (IsEntry to_uppercase q listed)
          (map (member_info to_uppercase) (keep (is_asked_for to_lowercase q) listed))
  entries to_uppercase q [] = tt
  entries to_uppercase q (m ∷ ms) = elim (Bool-cases (is_asked_for to_lowercase q m)) [
    | inl y ↦ rw y (
      (m, inl refl, y, refl),
      wider (keep (is_asked_for to_lowercase q) ms) (entries to_uppercase q ms),
    )
    | inr n ↦ rw n (wider (keep (is_asked_for to_lowercase q) ms) (entries to_uppercase q ms))
  ]
    where
      wider :
          (ks : List RoomMember)
          → All (IsEntry to_uppercase q ms) (map (member_info to_uppercase) ks)
          → All (IsEntry to_uppercase q (m ∷ ms)) (map (member_info to_uppercase) ks)
      wider [] h = tt
      wider (k ∷ ks) h = ((h.0.0, inr h.0.1, h.0.2, h.0.3), wider ks h.1)

  -- A list of members has at most as many as asked for, and at most 2000; each is the entry of a listed
  -- member that the query asks for, and nobody stands before a member of more power.
  pub members-IsOrdered :
      (to_uppercase : ℕ → Text) (query : Text) (limit : ℕ) (listed : List RoomMember)
      → let out = members to_lowercase to_uppercase query limit listed in
        (length out ≤ min (max limit 1) 2000)
        × Pairwise (λ (a b : MemberInfo). b.power ≤ℤ a.power) out
        × All (IsEntry to_uppercase (to_lowercase (trim query)) listed) out
  unfolding members
  members-IsOrdered to_uppercase query limit listed =
      let q = to_lowercase (trim query) in
      let n = min (max limit 1) 2000 in
      let R = λ (a b : MemberInfo). b.power ≤ℤ a.power in
      let found = map (member_info to_uppercase) (keep (is_asked_for to_lowercase q) listed) in
      let sorted = sort_by (comes_before to_lowercase) found in
      (
        omega (arith, length-take n sorted),
        Pairwise-take R n sorted (
            sort_by-Pairwise (comes_before to_lowercase) R
              (λ a b e. before_power a b (compare_ℤ b.power a.power) refl e)
              (λ a b e. after_power a b (compare_ℤ b.power a.power) refl e)
              (λ a b c p r. ≤ℤ_trans c.power b.power a.power r p) found),
        All-take (IsEntry to_uppercase q listed) n sorted (
            sort_by-All (comes_before to_lowercase) (IsEntry to_uppercase q listed) found
              (entries to_uppercase q listed)),
      )
