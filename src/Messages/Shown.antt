-- ===== src/Messages/Shown.antt =====
-- Whose edits change the text of a message (src/core.rs: `cached_relations`, and the decoration of a
-- page's messages).
use omarchy_chatd.Messages.Events.{
  Relation, unrelated, reply, thread, replacement, RoomMessage, Parsed, message, redacted_message,
  encrypted_event, redacted_encrypted, reaction, member, other, Message,
}
use omarchy_chatd.Messages.Edits.{
  Edit, is_original, edit_of, not_older, take_edit, take_related, take_each, sender_from,
  cached_relations, with_edit, decorate,
}
use omarchy_chatd.Media.Attachment.{MessageType}
use mathlib.Core.Path.{subst}
use omarchy_chatd.Reactions.Tally.{Entry, aggregate_reactions}
use omarchy_chatd.Reactions.Readers.{UserRef}
use omarchy_chatd.Base.{
  ◌≤◌, ◌≡◌, refl, ap, ◌∙◌, ◌↔◌, ◌⊎◌, inl, inr, true, false, Option, none, some, List, [], ◌∷◌,
  arith, leb, if◌then◌else◌, leb→le, Bool-cases, All, Text, text_eq_iff,
}

-- An event is an edit made by the original sender, and says `e`.
abbrev pub OwnBy : Option Text → RoomMessage → Relation → Edit → Type 0
OwnBy original m (replacement target content) e =
    (original ≡ some m.sender) × (e ≡ edit_of m content)
OwnBy original m _ e = ⊥

abbrev pub OwnEdit : Option Text → Option Parsed → Edit → Type 0
OwnEdit original (some (message m)) e = OwnBy original m m.relates_to e
OwnEdit original _ e = ⊥

-- No event of a list is such an edit; some event is `e`, and none is newer.
abbrev pub NoOwn : Option Text → List (Option Parsed) → Type 0
NoOwn original evs = All (λ ev. (d : Edit) → OwnEdit original ev d → ⊥) evs

abbrev pub SomeOwn : Option Text → List (Option Parsed) → Edit → Type 0
SomeOwn original [] e = ⊥
SomeOwn original (ev ∷ evs) e = OwnEdit original ev e ⊎ SomeOwn original evs e

abbrev pub NoneNewer : Option Text → List (Option Parsed) → Edit → Type 0
NoneNewer original evs e = All (λ ev. (d : Edit) → OwnEdit original ev d → d.ts ≤ e.ts) evs

abbrev NotBefore : Option Edit → Edit → Type 0
NotBefore none e = Unit
NotBefore (some k) e = k.ts ≤ e.ts

-- From the edit kept before one event, whose edits are those that `P` holds for, to that after it.
abbrev After : (Edit → Type 0) → Option Edit → Option Edit → Type 0
After P kept none = (kept ≡ none) × ((d : Edit) → P d → ⊥)
After P kept (some e) =
    ((kept ≡ some e) ⊎ P e) × ((d : Edit) → P d → d.ts ≤ e.ts) × NotBefore kept e

-- The same over a list of events.
abbrev Newest : Option Text → List (Option Parsed) → Option Edit → Option Edit → Type 0
Newest original evs kept none = (kept ≡ none) × NoOwn original evs
Newest original evs kept (some e) =
    ((kept ≡ some e) ⊎ SomeOwn original evs e) × NoneNewer original evs e × NotBefore kept e

pub is_original_iff : (o : Option Text) (s : Text) → (is_original o s ≡ true) ↔ (o ≡ some s)
is_original_iff none s = ground arith
is_original_iff (some t) s = ground (arith, text_eq_iff t s)

-- An event with no edit of the original sender changes nothing.
After-none : (P : Edit → Type 0) (kept : Option Edit) → ((d : Edit) → P d → ⊥) → After P kept kept
After-none P none h = (refl, h)
After-none P (some e) h = (inl refl, (λ d o. absurd (h d o)), omega arith)

take_newer-After :
    (original : Option Text) (m : RoomMessage) (content : MessageType) (kept : Option Edit)
    → original ≡ some m.sender
    → After
        (λ d. (original ≡ some m.sender) × (d ≡ edit_of m content))
        kept
        (if not_older kept m.ts then some (edit_of m content) else kept)
take_newer-After original m content none o =
    (inr (o, refl), (λ d p. let q = ap (λ (x : Edit). x.ts) p.1 in omega (arith, q)), tt)
take_newer-After original m content (some k) o = elim (Bool-cases (leb k.ts m.ts)) [
  | inl y ↦ rw y (
    inr (o, refl),
    (λ d p. let q = ap (λ (x : Edit). x.ts) p.1 in omega (arith, q)),
    leb→le k.ts m.ts y,
  )
  | inr n ↦
      rw n (inl refl, (λ d p. let q = ap (λ (x : Edit). x.ts) p.1 in ground arith), omega arith)
]

take_edit-After :
    (original : Option Text) (m : RoomMessage) (r : Relation) (kept : Option Edit)
    → After (OwnBy original m r) kept (take_edit original m r kept)
unfolding take_edit
take_edit-After original m unrelated kept = After-none (λ _. ⊥) kept (λ d o. o)
take_edit-After original m (reply target) kept = After-none (λ _. ⊥) kept (λ d o. o)
take_edit-After original m (thread root target falls) kept = After-none (λ _. ⊥) kept (λ d o. o)
take_edit-After original m (replacement target content) kept =
    elim (Bool-cases (is_original original m.sender)) [
      | inr n ↦ rw n (
          After-none (OwnBy original m (replacement target content)) kept
            (λ d o. let y = (is_original_iff original m.sender).1 o.0 in cc))
      | inl y ↦
          rw y (take_newer-After original m content kept ((is_original_iff original m.sender).0 y))
    ]

take_related-After :
    (original : Option Text) (ev : Option Parsed) (entries : List Entry) (kept : Option Edit)
    → After (OwnEdit original ev) kept (take_related original ev (entries, kept)).1
unfolding take_related
take_related-After original (some (message m)) entries kept =
    take_edit-After original m m.relates_to kept
take_related-After original (some (reaction target key e)) entries kept =
    After-none (λ _. ⊥) kept (λ d o. o)
take_related-After original (some (redacted_message e)) entries kept =
    After-none (λ _. ⊥) kept (λ d o. o)
take_related-After original (some (encrypted_event e)) entries kept =
    After-none (λ _. ⊥) kept (λ d o. o)
take_related-After original (some (redacted_encrypted e)) entries kept =
    After-none (λ _. ⊥) kept (λ d o. o)
take_related-After original (some (member m)) entries kept = After-none (λ _. ⊥) kept (λ d o. o)
take_related-After original (some (other e)) entries kept = After-none (λ _. ⊥) kept (λ d o. o)
take_related-After original none entries kept = After-none (λ _. ⊥) kept (λ d o. o)

-- One event before a list.
Newest-cons :
    (original : Option Text) (ev : Option Parsed) (evs : List (Option Parsed))
    (kept next end : Option Edit)
    → After (OwnEdit original ev) kept next
    → Newest original evs next end
    → Newest original (ev ∷ evs) kept end
Newest-cons original ev evs kept none none a n = (a.0, (a.1, n.1))
Newest-cons original ev evs kept (some k) none a n = absurd (cc n.0)
Newest-cons original ev evs kept none (some e) a n = (
  elim n.0 [ inl h ↦ absurd (cc h) | inr h ↦ inr (inr h) ],
  ((λ d o. absurd (a.1 d o)), n.1),
  rw a.0 tt,
)
Newest-cons original ev evs kept (some k) (some e) a n = (
  elim n.0 [
    | inl h ↦ elim a.0 [
      | inl g ↦ inl (g ∙ h)
      | inr g ↦ let same : k ≡ e = cc h in inr (inl (subst (OwnEdit original ev) same g))
    ]
    | inr h ↦ inr (inr h)
  ],
  ((λ d o. let q = a.1 d o in let r = n.2 in omega (arith, q, r)), n.1),
  before kept a.2,
)
  where
    before : (j : Option Edit) → NotBefore j k → NotBefore j e
    before none h = tt
    before (some j) h = let r = n.2 in omega (arith, h, r)

take_each-Newest :
    (original : Option Text) (evs : List (Option Parsed)) (entries : List Entry)
    (kept : Option Edit)
    → Newest original evs kept (take_each original evs (entries, kept)).1
take_each-Newest original [] entries none = (refl, tt)
take_each-Newest original [] entries (some e) = (inl refl, tt, omega arith)
take_each-Newest original (ev ∷ evs) entries kept =
    let acc = take_related original ev (entries, kept) in
    Newest-cons original ev evs kept acc.1 _ (take_related-After original ev entries kept)
      (take_each-Newest original evs acc.0 acc.1)

-- The edit kept from all related events of a message.
pub cached_relations-Newest :
    (found : Option Parsed) (related : List (Option Parsed))
    → Newest (sender_from found) related none (cached_relations found (some related)).1
unfolding cached_relations
cached_relations-Newest found related = take_each-Newest (sender_from found) related [] none

-- The text of a message is as it was, and then it is deleted or its sender made no edit; or it is
-- that of an edit of its sender, than which none of theirs is newer.
abbrev pub KeepsText : Message → Message → Type 0
KeepsText m r = (r.body ≡ m.body) × (r.html ≡ m.html) × (r.edited ≡ m.edited)

abbrev pub HasText : Edit → Message → Type 0
HasText e r = (r.body ≡ e.body) × (r.html ≡ e.html) × (r.edited ≡ true)

abbrev pub ShowsOwn : Option Text → List (Option Parsed) → Message → Message → Type 0
ShowsOwn original related m r =
    (KeepsText m r × ((m.deleted ≡ true) ⊎ NoOwn original related))
    ⊎ ((e : Edit) × SomeOwn original related e
        × NoneNewer original related e
        × (m.deleted ≡ false)
        × HasText e r)

with_edit-ShowsOwn :
    (original : Option Text) (related : List (Option Parsed)) (kept : Option Edit) (m : Message)
    → Newest original related none kept
    → ShowsOwn original related m (with_edit kept m)
unfolding with_edit
with_edit-ShowsOwn original related none m n = inl ((refl, refl, refl), inr n.1)
with_edit-ShowsOwn original related (some e) m n = elim (Bool-cases m.deleted) [
  | inl d ↦ inl (kept_texts d, inl d)
  | inr d ↦ inr (e, own n.0, n.1, d, new_texts d)
]
  where
    own : (none ≡ some e) ⊎ SomeOwn original related e → SomeOwn original related e
    own (inl h) = absurd (cc h)
    own (inr h) = h

    kept_texts :
        m.deleted ≡ true
        → KeepsText m
            (if m.deleted then m else record m { body = e.body; html = e.html; edited = true })
    kept_texts d = ground arith

    new_texts :
        m.deleted ≡ false
        → HasText e
            (if m.deleted then m else record m { body = e.body; html = e.html; edited = true })
    new_texts d = ground arith

-- Only the sender of a message changes its text: with its related events a message that is deleted
-- or has no edit by the sender of the event in the cache keeps its text, HTML and mark; any other
-- gets those of an edit by that sender, than which none by that sender is newer.
pub decorate-ShowsOwn :
    (name : Text → Text) (me : Option Text) (redacted : List Text) (found : Option Parsed)
    (related : List (Option Parsed)) (readers : List UserRef) (m : Message)
    → ShowsOwn
        (sender_from found)
        related
        m
        (decorate name me redacted true found (some related) readers m)
unfolding decorate
decorate-ShowsOwn name me redacted found related readers m =
    let kept = cached_relations found (some related) in
    with_edit-ShowsOwn (sender_from found) related kept.1
      (record m { reactions = aggregate_reactions name me redacted kept.0; read_by = readers })
      (cached_relations-Newest found related)
