-- ===== src/Reactions/Tally.antt =====
-- The tally of a message's reactions (src/core.rs: `aggregate_reactions`).
use omarchy_chatd.Base.{
  ℕ, ◌+◌, Bool, false, not, Option, none, some, List, [], ◌∷◌, ◌++◌, if◌then◌else◌, is_some, any,
  keep, Text, text_eq,
}

-- One reaction event: its key, its sender and its id.
pub record Entry : Type 0 where
  pub key : Text
  pub sender : Text
  pub id : Text

-- `ReactionSender`.
pub record ReactionSender : Type 0 where
  pub user : Text
  pub name : Text
  pub reaction_id : Text

-- `Reaction`.
pub record Reaction : Type 0 where
  pub key : Text
  pub count : ℕ
  pub senders : List ReactionSender
  pub mine : Option Text

-- `by_key`, and the keys in the order in which they came.
pub record Table : Type 0 where
  pub order : List Text
  pub by_key : Text → Option Reaction

abbrev pub is_me : Option Text → Text → Bool
is_me none u = false
is_me (some me) u = text_eq me u

abbrev pub has_sender : Text → Reaction → Bool
has_sender u r = any (λ s. text_eq s.user u) r.senders

-- The entry of a key, or a new one.
abbrev pub or_new : Text → Option Reaction → Reaction
or_new k none = record { key = k; count = 0; senders = []; mine = none }
or_new k (some r) = r

-- One reaction per user per key; `name` is the user's name in the room.
unfoldable pub count_in : (Text → Text) → Option Text → Entry → Reaction → Reaction
count_in name me e r = if has_sender e.sender r then r else record r {
  count = r.count + 1;
  mine = if is_me me e.sender then some e.id else r.mine;
  senders = r.senders ++ record { user = e.sender; name = name e.sender; reaction_id = e.id } ∷ [];
}

-- `HashMap::insert`.
abbrev pub put : Text → Reaction → (Text → Option Reaction) → Text → Option Reaction
put k r m j = if text_eq k j then some r else m j

-- One round of the loop, for an entry that is not redacted.
unfoldable pub enter : (Text → Text) → Option Text → Entry → Table → Table
enter name me e t = record {
  order = if is_some (t.by_key e.key) then t.order else t.order ++ e.key ∷ [];
  by_key = put e.key (count_in name me e (or_new e.key (t.by_key e.key))) t.by_key;
}

abbrev pub enter_all : (Text → Text) → Option Text → List Entry → Table → Table
enter_all name me [] t = t
enter_all name me (e ∷ es) t = enter_all name me es (enter name me e t)

abbrev pub drop_key : Text → (Text → Option Reaction) → Text → Option Reaction
drop_key k m j = if text_eq k j then none else m j

-- `order.into_iter().filter_map(|k| by_key.remove(&k))`.
abbrev pub collect : List Text → (Text → Option Reaction) → List Reaction
collect [] m = []
collect (k ∷ ks) m =
    let rest = collect ks (drop_key k m) in elim (m k) [ none ↦ rest | some r ↦ r ∷ rest ]

-- `aggregate_reactions`; `redacted` are the ids that were taken back.
unfoldable pub aggregate_reactions :
    (Text → Text) → Option Text → List Text → List Entry → List Reaction
unfolding enter count_in
aggregate_reactions name me redacted es =
    let t =
      enter_all name me (keep (λ e. not (any (text_eq e.id) redacted)) es)
        (record { order = []; by_key = λ _. none }) in
    collect t.order t.by_key
