-- ===== src/Community/People.antt =====
-- The order and the number of the people that are listed (src/community.rs: `people`).
use omarchy_chatd.Base.{
  ℕ, zero, suc, ◌≤◌, min, max, ◌≡◌, refl, ap, ◌∙◌, inl, inr, Option, List, [], ◌∷◌, map, arith, ltb,
  ltb→lt, Bool-cases, length, take, keep, length-take, All, All-take, Text, trim,
}
use omarchy_chatd.Json.{Json}
use omarchy_chatd.Community.Cards.{
  Profile, profile_from, filter_map, insert_card, sort_cards, is_asked, freshen, people,
}

abbrev pub IsNewestFirst : List Profile → Type 0
IsNewestFirst [] = Unit
IsNewestFirst (p ∷ ps) = All (λ q. q.updated ≤ p.updated) ps × IsNewestFirst ps

insert_card-All :
    (n : ℕ) (p : Profile) (ps : List Profile)
    → p.updated ≤ n
    → All (λ q. q.updated ≤ n) ps
    → All (λ q. q.updated ≤ n) (insert_card p ps)
insert_card-All n p [] h a = (h, tt)
insert_card-All n p (q ∷ qs) h a = ground (arith, insert_card-All n p qs h a.1)

All-le :
    (m n : ℕ) (ps : List Profile)
    → m ≤ n
    → All (λ q. q.updated ≤ m) ps
    → All (λ q. q.updated ≤ n) ps
All-le m n [] h a = tt
All-le m n (p ∷ ps) h a = (omega (arith, a.0), All-le m n ps h a.1)

insert_card-IsNewestFirst :
    (p : Profile) (ps : List Profile) → IsNewestFirst ps → IsNewestFirst (insert_card p ps)
insert_card-IsNewestFirst p [] h = (tt, tt)
insert_card-IsNewestFirst p (q ∷ qs) (a, h) = elim (Bool-cases (ltb p.updated q.updated)) [
  | inl e ↦
      let lt = ltb→lt p.updated q.updated e in
      rw e (insert_card-All q.updated p qs (omega arith) a, insert_card-IsNewestFirst p qs h)
  | inr e ↦
      let le : q.updated ≤ p.updated = ground arith in
      rw e ((le, All-le q.updated p.updated qs le a), (a, h))
]

sort_cards-IsNewestFirst : (ps : List Profile) → IsNewestFirst (sort_cards ps)
sort_cards-IsNewestFirst [] = tt
sort_cards-IsNewestFirst (p ∷ ps) =
    insert_card-IsNewestFirst p (sort_cards ps) (sort_cards-IsNewestFirst ps)

take-IsNewestFirst : (n : ℕ) (ps : List Profile) → IsNewestFirst ps → IsNewestFirst (take n ps)
take-IsNewestFirst zero ps h = tt
take-IsNewestFirst (suc n) [] h = tt
take-IsNewestFirst (suc n) (p ∷ ps) (a, h) =
    (All-take (λ q. q.updated ≤ p.updated) n ps a, take-IsNewestFirst n ps h)

length-insert_card : (p : Profile) (ps : List Profile) → length (insert_card p ps) ≡ suc (length ps)
length-insert_card p [] = refl
length-insert_card p (q ∷ qs) = ground (arith, length-insert_card p qs)

length-sort_cards : (ps : List Profile) → length (sort_cards ps) ≡ length ps
length-sort_cards [] = refl
length-sort_cards (p ∷ ps) = length-insert_card p (sort_cards ps) ∙ ap suc (length-sort_cards ps)

length-map : (f : Profile → Profile) (ps : List Profile) → length (map f ps) ≡ length ps
length-map f [] = refl
length-map f (p ∷ ps) = ap suc (length-map f ps)

-- The people of the space are listed newest first; there are as many as cards that the query asks
-- for, cut at the limit, which is held between 1 and 500.
people_lem :
    (lower : Text → Text) (member : Text → Option (Text × Option Text)) (query : Text) (limit : ℕ)
    (evs : List Json)
    → let out = people lower member query limit evs in
      IsNewestFirst out
      × (length out
          ≡ min
              (min (max limit 1) 500)
              (length (keep (is_asked lower (lower (trim query))) (filter_map profile_from evs))))
unfolding people
people_lem lower member query limit evs =
    let asked = keep (is_asked lower (lower (trim query))) (filter_map profile_from evs) in
    let sorted = sort_cards (map (freshen member) asked) in
    (
      take-IsNewestFirst (min (max limit 1) 500) sorted
          (sort_cards-IsNewestFirst (map (freshen member) asked)),
      omega (
        arith,
        length-take (min (max limit 1) 500) sorted,
        length-sort_cards (map (freshen member) asked),
        length-map (freshen member) asked,
      ),
    )
