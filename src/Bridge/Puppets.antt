-- ===== src/Bridge/Puppets.antt =====
-- Which users `protocol_of_user` and `is_bridge_bot` recognise (src/bridge.rs).
use omarchy_chatd.Bridge.Names.{
  prefixes, plain_local, is_suffix, match_prefix, find_protocol, protocol_of_user, is_bridge_bot,
}
use omarchy_chatd.Base.{
  ◌≡◌, refl, sym, ◌∙◌, ◌≢◌, ◌↔◌, ◌⊎◌, inl, inr, Bool, true, not, ◌&&◌, ◌||◌, Option, none, some,
  List, [], ◌∷◌, ◌++◌, arith, ◌==◌, Bool-cases, Option-cases, and_elim, any, all, Text, codes,
  text_eq, text_eq_sound, strip_prefix, starts_with,
}

-- The name of a bridge's bot, or of a puppet, with a prefix.
abbrev pub HasPrefix : Text → Text → Type 0
HasPrefix prefix local =
    (local ≡ prefix ++ codes "bot") ⊎ ((rest : Text) × (local ≡ prefix ++ b'_' ∷ rest))

-- A local part named for a protocol by an entry of a table.
abbrev pub Names : List (Text × Text) → Text → Text → Type 0
Names [] protocol local = ⊥
Names ((prefix, name) ∷ table) protocol local =
    ((name ≡ protocol) × HasPrefix prefix local) ⊎ Names table protocol local

strip_prefix_sound : (s p r : Text) → strip_prefix s p ≡ some r → s ≡ p ++ r
unfolding strip_prefix
strip_prefix_sound s [] r e = cc
strip_prefix_sound [] (c ∷ p) r e = cc
strip_prefix_sound (a ∷ s) (c ∷ p) r e = ground (arith, strip_prefix_sound s p r)

strip_prefix-append : (p r : Text) → strip_prefix (p ++ r) p ≡ some r
unfolding strip_prefix
strip_prefix-append [] r = refl
strip_prefix-append (c ∷ p) r = ground (arith, strip_prefix-append p r)

is_suffix_cases :
    (rest : Text)
    → is_suffix rest ≡ true
    → (rest ≡ codes "bot") ⊎ ((more : Text) × (rest ≡ b'_' ∷ more))
unfolding starts_with
is_suffix_cases [] h = absurd (unfold text_eq in cc)
is_suffix_cases (c ∷ more) h = elim (Bool-cases (text_eq (c ∷ more) (codes "bot"))) [
  | inl e ↦ inl (text_eq_sound _ _ e)
  | inr n ↦ inr (more, ground arith)
]

match_prefix_sound :
    (local prefix name protocol : Text) (o : Option Text)
    → strip_prefix local prefix ≡ o
    → match_prefix name o ≡ some protocol
    → (name ≡ protocol) × HasPrefix prefix local
unfolding match_prefix
match_prefix_sound local prefix name protocol none s e = absurd (cc)
match_prefix_sound local prefix name protocol (some rest) s e = elim (Bool-cases (is_suffix rest)) [
  | inl h ↦
      let whole = strip_prefix_sound local prefix rest s in
      (
        ground arith,
        elim (is_suffix_cases rest h) [
          | inl b ↦ inl (rw (← b) whole)
          | inr (more, b) ↦ inr (more, rw (← b) whole)
        ],
      )
  | inr h ↦ absurd (ground arith)
]

find_protocol_sound :
    (local protocol : Text) (table : List (Text × Text))
    → find_protocol local table ≡ some protocol
    → Names table protocol local
unfolding find_protocol
find_protocol_sound local protocol [] e = absurd (cc)
find_protocol_sound local protocol ((prefix, name) ∷ table) e =
    elim (Option-cases (match_prefix name (strip_prefix local prefix))) [
      | inl n ↦ inr (find_protocol_sound local protocol table (ground arith))
      | inr (p, h) ↦ inl (match_prefix_sound local prefix name protocol _ refl (ground arith))
    ]

-- Neither of two texts begins with the other; no two prefixes of a table do.
apart : Text → Text → Bool
apart p q = not (starts_with p q || starts_with q p)

separate : List (Text × Text) → Bool
separate [] = true
separate ((prefix, name) ∷ table) =
    all (λ (entry : Text × Text). apart prefix entry.0) table && separate table

apart_differ : (p q r s : Text) → apart p q ≡ true → p ++ r ≢ q ++ s
unfolding apart starts_with
apart_differ [] [] r s h e = cc
apart_differ [] (d ∷ q) r s h e = cc
apart_differ (c ∷ p) [] r s h e = cc
apart_differ (c ∷ p) (d ∷ q) r s h e =
    let same : c ≡ d = ground arith in
    apart_differ p q r s (unfold apart in rest same h) (ground arith)
  where
    rest :
        c ≡ d
        → not ((c == d && starts_with p q) || (d == c && starts_with q p)) ≡ true
        → not (starts_with p q || starts_with q p) ≡ true
    rest same h = ground arith

HasPrefix-rest : (p local : Text) → HasPrefix p local → (r : Text) × (local ≡ p ++ r)
HasPrefix-rest p local (inl e) = (codes "bot", e)
HasPrefix-rest p local (inr (more, e)) = (b'_' ∷ more, e)

no_other :
    (p protocol local : Text) (table : List (Text × Text))
    → all (λ (entry : Text × Text). apart p entry.0) table ≡ true
    → HasPrefix p local
    → ¬ Names table protocol local
no_other p protocol local [] a h n = n
no_other p protocol local ((q, name) ∷ table) a h (inl (e, k)) =
    let (r, whole) = HasPrefix-rest p local h in
    let (s, other) = HasPrefix-rest q local k in
    apart_differ p q r s (and_elim _ _ a).0 (sym whole ∙ other)
no_other p protocol local ((q, name) ∷ table) a h (inr n) =
    no_other p protocol local table (and_elim _ _ a).1 h n

match_prefix_complete :
    (prefix name local : Text)
    → HasPrefix prefix local
    → match_prefix name (strip_prefix local prefix) ≡ some name
unfolding match_prefix starts_with text_eq
match_prefix_complete prefix name local (inl e) =
    rw (e, strip_prefix-append prefix (codes "bot")) refl
match_prefix_complete prefix name local (inr (more, e)) =
    rw (e, strip_prefix-append prefix (b'_' ∷ more)) refl

find_protocol_complete :
    (local protocol : Text) (table : List (Text × Text))
    → separate table ≡ true
    → Names table protocol local
    → find_protocol local table ≡ some protocol
unfolding find_protocol separate
find_protocol_complete local protocol [] s n = absurd n
find_protocol_complete local protocol ((prefix, name) ∷ table) s (inl (e, h)) =
    rw (match_prefix_complete prefix name local h, e) refl
find_protocol_complete local protocol ((prefix, name) ∷ table) s (inr n) =
    elim (Option-cases (match_prefix name (strip_prefix local prefix))) [
      | inl m ↦ rw m (find_protocol_complete local protocol table (and_elim _ _ s).1 n)
      | inr (p, m) ↦
          let h = (match_prefix_sound local prefix name p _ refl m).1 in
          absurd (no_other prefix protocol local table (and_elim _ _ s).0 h n)
    ]

separate-prefixes : separate prefixes ≡ true
unfolding separate prefixes apart starts_with
separate-prefixes = refl

-- The table's order does not matter: a user is of a protocol exactly when the local part, without
-- leading underscores and in lower case, is a prefix of that protocol followed by `bot` or by an
-- underscore and anything.
pub protocol_of_user_iff :
    (local protocol : Text)
    → (protocol_of_user local ≡ some protocol) ↔ Names prefixes protocol (plain_local local)
unfolding protocol_of_user
protocol_of_user_iff local protocol = (
  find_protocol_sound (plain_local local) protocol prefixes,
  find_protocol_complete (plain_local local) protocol prefixes separate-prefixes,
)

bot_named :
    (local : Text) (table : List (Text × Text))
    → any (λ (entry : Text × Text). text_eq local (entry.0 ++ codes "bot")) table ≡ true
    → (protocol : Text) × Names table protocol local
bot_named local [] h = absurd (cc)
bot_named local ((prefix, name) ∷ table) h =
    elim (Bool-cases (text_eq local (prefix ++ codes "bot"))) [
      | inl e ↦ (name, inl (refl, inl (text_eq_sound _ _ e)))
      | inr n ↦ let (protocol, k) = bot_named local table (ground arith) in (protocol, inr k)
    ]

-- Every bridge bot is recognised as a user of a protocol.
pub bot_has_protocol :
    (local : Text)
    → is_bridge_bot local ≡ true
    → (protocol : Text) × (protocol_of_user local ≡ some protocol)
unfolding is_bridge_bot
bot_has_protocol local h =
    let (protocol, n) = bot_named (plain_local local) prefixes h in
    (protocol, (protocol_of_user_iff local protocol).1 n)
