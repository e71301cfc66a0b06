-- ===== src/Reactions/Tallied.antt =====
-- What each reaction of the tally counts (src/core.rs: `aggregate_reactions`).
use mathlib.Core.Path.{subst}
use omarchy_chatd.Base.{
  ◌≡◌, refl, sym, ap, ◌∙◌, inl, inr, Bool, true, false, not, ◌||◌, Option, none, some, List, [],
  ◌∷◌, ◌++◌, arith, if◌then◌else◌, Bool-cases, length, any, keep, length-append, All, Text, text_eq,
  text_eq_iff,
}
use omarchy_chatd.Reactions.Tally.{
  Entry, ReactionSender, Reaction, is_me, has_sender, or_new, count_in, aggregate_reactions,
}
use omarchy_chatd.Reactions.ByKey.{
  tally_of, keys_of, filter_map, text_eq_sym, aggregate_reactions-eq-tally_of,
}

-- The id of our own reaction among the senders.
abbrev pub own_of : Option Text → List ReactionSender → Option Text
own_of me [] = none
own_of me (s ∷ ss) = let rest = own_of me ss in if is_me me s.user then some s.reaction_id else rest

abbrev pub is_sender : Text → List ReactionSender → Bool
is_sender u ss = any (λ s. text_eq s.user u) ss

abbrev pub IsOncePerUser : List ReactionSender → Type 0
IsOncePerUser [] = Unit
IsOncePerUser (s ∷ ss) = (is_sender s.user ss ≡ false) × IsOncePerUser ss

-- The count is that of the senders, each of whom is there once, and `mine` is our own reaction.
pub record IsTally (me : Option Text) (r : Reaction) : Type 0 where
  pub counted : r.count ≡ length r.senders
  pub once : IsOncePerUser r.senders
  pub own : r.mine ≡ own_of me r.senders

is_sender-snoc :
    (u : Text) (ss : List ReactionSender) (s : ReactionSender)
    → is_sender u (ss ++ s ∷ []) ≡ (is_sender u ss || text_eq s.user u)
is_sender-snoc u [] s = ground arith
is_sender-snoc u (t ∷ ss) s = ground (arith, is_sender-snoc u ss s)

snoc-IsOncePerUser :
    (ss : List ReactionSender) (s : ReactionSender)
    → is_sender s.user ss ≡ false
    → IsOncePerUser ss
    → IsOncePerUser (ss ++ s ∷ [])
snoc-IsOncePerUser [] s h o = (refl, tt)
snoc-IsOncePerUser (t ∷ ss) s h (n, o) =
    let apart : text_eq s.user t.user ≡ false = ground (arith, text_eq_sym s.user t.user) in
    (is_sender-snoc t.user ss s ∙ ground arith, snoc-IsOncePerUser ss s (ground arith) o)

is_me_apart :
    (me : Option Text) (u v : Text) → text_eq u v ≡ false → is_me me v ≡ true → is_me me u ≡ false
is_me_apart none u v h e = refl
is_me_apart (some m) u v h e =
    ground (arith, text_eq_iff m u, text_eq_iff m v, text_eq_iff u v, text_eq_sym u v)

-- Where we are a sender already, we are not the new one.
own_of-snoc :
    (me : Option Text) (ss : List ReactionSender) (s : ReactionSender)
    → is_sender s.user ss ≡ false
    → own_of me (ss ++ s ∷ []) ≡ (if is_me me s.user then some s.reaction_id else own_of me ss)
own_of-snoc me [] s h = refl
own_of-snoc me (t ∷ ss) s h =
    let ih = own_of-snoc me ss s (ground arith) in
    elim (Bool-cases (is_me me t.user)) [
      | inl e ↦
          let apart : text_eq s.user t.user ≡ false = ground (arith, text_eq_sym s.user t.user) in
          let other = is_me_apart me s.user t.user apart e in rw (e, other) refl
      | inr e ↦ rw e ih
    ]

count_in-IsTally :
    (name : Text → Text) (me : Option Text) (e : Entry) (r : Reaction)
    → IsTally me r
    → IsTally me (count_in name me e r)
unfolding count_in
count_in-IsTally name me e r h = elim (Bool-cases (has_sender e.sender r)) [
  | inl b ↦ rw b h
  | inr b ↦
      let s : ReactionSender = record {
        user = e.sender;
        name = name e.sender;
        reaction_id = e.id;
      } in
      rw b (record {
        counted = omega (arith, h.counted, length-append r.senders (s ∷ []));
        once = snoc-IsOncePerUser r.senders s b h.once;
        own =
            ap (λ o. if is_me me e.sender then some e.id else o) h.own
            ∙ sym (own_of-snoc me r.senders s b);
      })
]

abbrev IsTallyIf : Option Text → Option Reaction → Type 0
IsTallyIf me none = Unit
IsTallyIf me (some r) = IsTally me r

or_new-IsTally :
    (me : Option Text) (k : Text) (o : Option Reaction) → IsTallyIf me o → IsTally me (or_new k o)
or_new-IsTally me k none h = record { counted = refl; once = tt; own = refl }
or_new-IsTally me k (some r) h = h

tally_of-IsTally :
    (name : Text → Text) (me : Option Text) (k : Text) (es : List Entry) (o : Option Reaction)
    → IsTallyIf me o
    → IsTallyIf me (tally_of name me k es o)
unfolding tally_of
tally_of-IsTally name me k [] o h = h
tally_of-IsTally name me k (e ∷ es) o h = elim (Bool-cases (text_eq e.key k)) [
  | inl b ↦ rw b (
      tally_of-IsTally name me k es (some (count_in name me e (or_new k o)))
        (count_in-IsTally name me e (or_new k o) (or_new-IsTally me k o h)))
  | inr b ↦ rw b (tally_of-IsTally name me k es o h)
]

filter_map-All :
    (me : Option Text) (f : Text → Option Reaction) (ks : List Text)
    → ((k : Text) → IsTallyIf me (f k))
    → All (IsTally me) (filter_map f ks)
filter_map-All me f [] h = tt
filter_map-All me f (k ∷ ks) h = with_head (f k) (h k) (filter_map-All me f ks h)
  where
    with_head :
        (o : Option Reaction)
        → IsTallyIf me o
        → All (IsTally me) (filter_map f ks)
        → All (IsTally me) (elim o [ none ↦ filter_map f ks | some b ↦ b ∷ filter_map f ks ])
    with_head none t a = a
    with_head (some r) t a = (t, a)

-- Each reaction of the tally counts its senders, has each user once, and names our own reaction
-- exactly if we are one of them.
pub aggregate_reactions-All :
    (name : Text → Text) (me : Option Text) (redacted : List Text) (es : List Entry)
    → All (IsTally me) (aggregate_reactions name me redacted es)
aggregate_reactions-All name me redacted es =
    let live = keep (λ e. not (any (text_eq e.id) redacted)) es in
    subst (All (IsTally me)) (sym (aggregate_reactions-eq-tally_of name me redacted es)) (
      filter_map-All me (λ k. tally_of name me k live none) (keys_of live [])
        (λ k. tally_of-IsTally name me k live none tt))
