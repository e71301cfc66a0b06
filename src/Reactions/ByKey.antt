-- ===== src/Reactions/ByKey.antt =====
-- The tally of reactions against one that takes each key apart (src/core.rs: `aggregate_reactions`).
use omarchy_chatd.Base.{
  ◌≡◌, refl, sym, ap, ◌∙◌, fun_ext, inl, inr, Bool, true, false, not, ◌||◌, Option, none, some,
  List, [], ◌∷◌, ◌++◌, arith, if◌then◌else◌, Bool-cases, is_some, any, keep, All, All-append, Text,
  text_eq, text_eq_iff,
}
use omarchy_chatd.Reactions.Tally.{
  Entry, Reaction, Table, or_new, count_in, put, enter, enter_all, drop_key, collect,
  aggregate_reactions,
}

-- The reaction of one key, over all entries, of which those of other keys are passed over.
unfoldable pub tally_of :
    (Text → Text) → Option Text → Text → List Entry → Option Reaction → Option Reaction
tally_of name me k [] o = o
tally_of name me k (e ∷ es) o =
    let hit = tally_of name me k es (some (count_in name me e (or_new k o))) in
    let miss = tally_of name me k es o in if text_eq e.key k then hit else miss

-- The keys, each once, in the order in which they first come, after those in `ks`.
pub keys_of : List Entry → List Text → List Text
keys_of [] ks = ks
keys_of (e ∷ es) ks =
    let seen = keys_of es ks in
    let new = keys_of es (ks ++ e.key ∷ []) in if any (text_eq e.key) ks then seen else new

abbrev pub filter_map : {A B : Type 0} → (A → Option B) → List A → List B
filter_map f [] = []
filter_map f (a ∷ xs) = let rest = filter_map f xs in elim (f a) [ none ↦ rest | some b ↦ b ∷ rest ]

put_same :
    (k j : Text) (r : Reaction) (m : Text → Option Reaction)
    → text_eq k j ≡ true
    → put k r m j ≡ some r
put_same k j r m h = rw h refl

put_other :
    (k j : Text) (r : Reaction) (m : Text → Option Reaction)
    → text_eq k j ≡ false
    → put k r m j ≡ m j
put_other k j r m h = rw h refl

enter_all-by_key :
    (name : Text → Text) (me : Option Text) (es : List Entry) (t : Table) (k : Text)
    → (enter_all name me es t).by_key k ≡ tally_of name me k es (t.by_key k)
unfolding tally_of enter
enter_all-by_key name me [] t k = refl
enter_all-by_key name me (e ∷ es) t k = elim (Bool-cases (text_eq e.key k)) [
  | inl h ↦
      let same : e.key ≡ k = (text_eq_iff e.key k).0 h in
      let r = count_in name me e (or_new e.key (t.by_key e.key)) in
      rw h (
        enter_all-by_key name me es (enter name me e t) k
        ∙ ap (tally_of name me k es) (
            put_same e.key k r t.by_key h
            ∙ ap (λ j. some (count_in name me e (or_new j (t.by_key j)))) same))
  | inr h ↦
      let r = count_in name me e (or_new e.key (t.by_key e.key)) in
      rw h (
        enter_all-by_key name me es (enter name me e t) k
        ∙ ap (tally_of name me k es) (put_other e.key k r t.by_key h))
]

pub text_eq_sym : (a b : Text) → text_eq a b ≡ text_eq b a
text_eq_sym a b = ground (arith, text_eq_iff a b, text_eq_iff b a)

any-snoc :
    (k j : Text) (ks : List Text)
    → any (text_eq k) (ks ++ j ∷ []) ≡ (any (text_eq k) ks || text_eq k j)
any-snoc k j [] = ground arith
any-snoc k j (i ∷ ks) = ground (arith, any-snoc k j ks)

-- The keys of a table are those in its order.
IsOrdered : Table → Type 0
IsOrdered t = (k : Text) → is_some (t.by_key k) ≡ any (text_eq k) t.order

add_key : Text → Bool → List Text → List Text
add_key k b ks = if b then ks else ks ++ k ∷ []

any-add_key :
    (k j : Text) (b : Bool) (ks : List Text)
    → b ≡ any (text_eq j) ks
    → any (text_eq k) (add_key j b ks) ≡ (if text_eq j k then true else any (text_eq k) ks)
unfolding add_key
any-add_key k j b ks h = elim (Bool-cases (text_eq j k)) [
  | inl e ↦
      let same : j ≡ k = (text_eq_iff j k).0 e in
      let seen : any (text_eq j) ks ≡ any (text_eq k) ks = ap (λ i. any (text_eq i) ks) same in
      ground (arith, any-snoc k j ks, text_eq_sym j k)
  | inr e ↦ ground (arith, any-snoc k j ks, text_eq_sym j k)
]

put-is_some :
    (k j : Text) (r : Reaction) (m : Text → Option Reaction)
    → is_some (put k r m j) ≡ (if text_eq k j then true else is_some (m j))
put-is_some k j r m = elim (Bool-cases (text_eq k j)) [ inl e ↦ rw e refl | inr e ↦ rw e refl ]

enter-IsOrdered :
    (name : Text → Text) (me : Option Text) (e : Entry) (t : Table)
    → IsOrdered t
    → IsOrdered (enter name me e t)
unfolding enter IsOrdered add_key
enter-IsOrdered name me e t h k =
    put-is_some e.key k (count_in name me e (or_new e.key (t.by_key e.key))) t.by_key
    ∙ ap (λ b. if text_eq e.key k then true else b) (h k)
    ∙ sym (any-add_key k e.key (is_some (t.by_key e.key)) t.order (h e.key))

enter_all-order :
    (name : Text → Text) (me : Option Text) (es : List Entry) (t : Table)
    → IsOrdered t
    → (enter_all name me es t).order ≡ keys_of es t.order
unfolding keys_of enter IsOrdered
enter_all-order name me [] t h = refl
enter_all-order name me (e ∷ es) t h =
    enter_all-order name me es (enter name me e t) (enter-IsOrdered name me e t h)
    ∙ ap (λ b. keys_of es (if b then t.order else t.order ++ e.key ∷ [])) (h e.key)
    ∙ push (any (text_eq e.key) t.order)
  where
    push :
        (b : Bool)
        → keys_of es (if b then t.order else t.order ++ e.key ∷ [])
          ≡ (if b then keys_of es t.order else keys_of es (t.order ++ e.key ∷ []))
    push true = refl
    push false = refl

abbrev pub IsDistinctKeys : List Text → Type 0
IsDistinctKeys [] = Unit
IsDistinctKeys (k ∷ ks) = All (λ j. text_eq k j ≡ false) ks × IsDistinctKeys ks

filter_map-drop_key :
    (k : Text) (m : Text → Option Reaction) (ks : List Text)
    → All (λ j. text_eq k j ≡ false) ks
    → filter_map (drop_key k m) ks ≡ filter_map m ks
filter_map-drop_key k m [] h = refl
filter_map-drop_key k m (j ∷ ks) (n, h) =
    let kept : drop_key k m j ≡ m j = rw n refl in
    ap
      (λ o. elim o [
        | none ↦ filter_map (drop_key k m) ks
        | some b ↦ b ∷ filter_map (drop_key k m) ks
      ])
      kept
    ∙ ap (λ r. elim (m j) [ none ↦ r | some b ↦ b ∷ r ]) (filter_map-drop_key k m ks h)

collect-filter_map :
    (ks : List Text) (m : Text → Option Reaction)
    → IsDistinctKeys ks
    → collect ks m ≡ filter_map m ks
collect-filter_map [] m h = refl
collect-filter_map (k ∷ ks) m (n, h) =
    ap (λ r. elim (m k) [ none ↦ r | some b ↦ b ∷ r ])
      (collect-filter_map ks (drop_key k m) h ∙ filter_map-drop_key k m ks n)

pub snoc-IsDistinctKeys :
    (k : Text) (ks : List Text)
    → any (text_eq k) ks ≡ false
    → IsDistinctKeys ks
    → IsDistinctKeys (ks ++ k ∷ [])
snoc-IsDistinctKeys k [] h d = (tt, tt)
snoc-IsDistinctKeys k (j ∷ ks) h (n, d) =
    let apart : text_eq j k ≡ false = ground (arith, text_eq_sym j k) in
    (
      All-append (λ i. text_eq j i ≡ false) ks (k ∷ []) n (apart, tt),
      snoc-IsDistinctKeys k ks (ground arith) d,
    )

keys_of-IsDistinctKeys :
    (es : List Entry) (ks : List Text) → IsDistinctKeys ks → IsDistinctKeys (keys_of es ks)
unfolding keys_of
keys_of-IsDistinctKeys [] ks d = d
keys_of-IsDistinctKeys (e ∷ es) ks d = elim (Bool-cases (any (text_eq e.key) ks)) [
  | inl h ↦ rw h (keys_of-IsDistinctKeys es ks d)
  | inr h ↦ rw h (keys_of-IsDistinctKeys es (ks ++ e.key ∷ []) (snoc-IsDistinctKeys e.key ks h d))
]

-- The tally has one reaction for each key of an entry that is not redacted, in the order in which
-- the keys first come, and it is what the entries of that key alone give.
pub aggregate_reactions-eq-tally_of :
    (name : Text → Text) (me : Option Text) (redacted : List Text) (es : List Entry)
    → let live = keep (λ e. not (any (text_eq e.id) redacted)) es in
      aggregate_reactions name me redacted es
      ≡ filter_map (λ k. tally_of name me k live none) (keys_of live [])
unfolding aggregate_reactions
aggregate_reactions-eq-tally_of name me redacted es =
    let live = keep (λ e. not (any (text_eq e.id) redacted)) es in
    let start : Table = record { order = []; by_key = λ _. none } in
    let t = enter_all name me live start in
    let order : t.order ≡ keys_of live [] =
      enter_all-order name me live start (unfold IsOrdered in λ k. refl) in
    ap (λ ks. collect ks t.by_key) order
    ∙ collect-filter_map (keys_of live []) t.by_key (keys_of-IsDistinctKeys live [] tt)
    ∙ ap (λ f. filter_map f (keys_of live [])) (fun_ext (enter_all-by_key name me live start))
