-- ===== src/Timeline/Events.antt =====
-- Which events of a room's cache become lines (src/core.rs: `is_message_like`, `is_thread_reply`,
-- `bundled_edit`).
use omarchy_chatd.Base.{
  ◌≡◌, refl, ap, ◌∙◌, ◌≢◌, ◌↔◌, Bool, true, false, not, ◌&&◌, ◌||◌, Option, none, some, arith,
  if◌then◌else◌, Text, codes, text_eq, text_eq_iff,
}
use omarchy_chatd.Json.{Json, get, as_str, ◌>>=◌}

-- `TimelineEvent`: its raw JSON, its id, and, where the SDK reads it as an original redaction, the
-- id of the event that it redacts.
pub record Event : Type 0 where
  pub raw : Json
  pub event_id : Option Text
  pub redacts : Option Text

-- `raw.get_field::<String>("type")`.
unfoldable pub kind_of : Event → Option Text
unfolding get
kind_of ev = get (codes "type") ev.raw >>= as_str

-- `content."m.relates_to".rel_type`, as text.
unfoldable pub rel_type_of : Event → Option Text
unfolding get
rel_type_of ev =
    get (codes "content") ev.raw
    >>= get (codes "m.relates_to")
    >>= get (codes "rel_type")
    >>= as_str

-- `rel_type == Some(name)`.
abbrev pub is_rel : Text → Option Text → Bool
is_rel name none = false
is_rel name (some t) = text_eq t name

-- The `match kind.as_str()` of `is_message_like`.
message_kind : Text → Option Text → Bool
message_kind kind rel =
    if text_eq kind (codes "m.room.encrypted")
      || text_eq kind (codes "m.room.member")
      || text_eq kind (codes "m.sticker")
    then true
    else (if text_eq kind (codes "m.room.message")
        then not (is_rel (codes "m.replace") rel) && not (is_rel (codes "m.thread") rel)
        else false)

-- The early return where the event has no type that is a text.
by_kind : (Text → Option Text → Bool) → Option Text → Option Text → Bool
by_kind test none rel = false
by_kind test (some kind) rel = test kind rel

-- `is_message_like`.
unfoldable pub is_message_like : Event → Bool
unfolding by_kind kind_of rel_type_of message_kind
is_message_like ev = by_kind message_kind (kind_of ev) (rel_type_of ev)

reply_kind : Text → Option Text → Bool
reply_kind kind rel =
    if text_eq kind (codes "m.room.encrypted") || text_eq kind (codes "m.sticker")
    then true
    else (if text_eq kind (codes "m.room.message")
        then not (is_rel (codes "m.replace") rel)
        else false)

-- `is_thread_reply`.
unfoldable pub is_thread_reply : Event → Bool
unfolding by_kind kind_of rel_type_of reply_kind
is_thread_reply ev = by_kind reply_kind (kind_of ev) (rel_type_of ev)

-- `(format, formatted_body)` of an edit's new content, if it is HTML.
html_of : Option Text → Option Text → Option Text
html_of (some f) (some h) = if text_eq f (codes "org.matrix.custom.html") then some h else none
html_of _ _ = none

-- `bundled_edit`: body and HTML of the newest edit that the server attached.
unfoldable pub bundled_edit : Json → Option (Text × Option Text)
unfolding get html_of
bundled_edit raw =
    get (codes "unsigned") raw
    >>= get (codes "m.relations")
    >>= get (codes "m.replace")
    >>= get (codes "content")
    >>= get (codes "m.new_content")
    >>= λ new_content. get (codes "body") new_content >>= as_str >>= λ body. some (
      body,
      html_of (get (codes "format") new_content >>= as_str)
          (get (codes "formatted_body") new_content >>= as_str),
    )

pub is_rel_iff : (name : Text) (o : Option Text) → (is_rel name o ≡ true) ↔ (o ≡ some name)
is_rel_iff name none = ground arith
is_rel_iff name (some t) = ground (arith, text_eq_iff t name)

message_kind_of_message :
    (rel : Option Text)
    → message_kind (codes "m.room.message") rel
      ≡ (not (is_rel (codes "m.replace") rel) && not (is_rel (codes "m.thread") rel))
unfolding message_kind text_eq
message_kind_of_message rel = refl

reply_kind_of_message :
    (rel : Option Text)
    → reply_kind (codes "m.room.message") rel ≡ not (is_rel (codes "m.replace") rel)
unfolding reply_kind text_eq
reply_kind_of_message rel = refl

pub is_message_like_of_message :
    (ev : Event)
    → kind_of ev ≡ some (codes "m.room.message")
    → is_message_like ev ≡ (
        not (is_rel (codes "m.replace") (rel_type_of ev))
        && not (is_rel (codes "m.thread") (rel_type_of ev)))
unfolding is_message_like
is_message_like_of_message ev k =
    ap (λ o. by_kind message_kind o (rel_type_of ev)) k ∙ message_kind_of_message (rel_type_of ev)

pub is_thread_reply_of_message :
    (ev : Event)
    → kind_of ev ≡ some (codes "m.room.message")
    → is_thread_reply ev ≡ not (is_rel (codes "m.replace") (rel_type_of ev))
unfolding is_thread_reply
is_thread_reply_of_message ev k =
    ap (λ o. by_kind reply_kind o (rel_type_of ev)) k ∙ reply_kind_of_message (rel_type_of ev)

-- A message event is a line of the room exactly when it is neither an edit nor in a thread.
message_like_iff :
    (ev : Event)
    → kind_of ev ≡ some (codes "m.room.message")
    → (is_message_like ev ≡ true)
      ↔ ((rel_type_of ev ≢ some (codes "m.replace")) × (rel_type_of ev ≢ some (codes "m.thread")))
message_like_iff ev k = rw (is_message_like_of_message ev k) (
    lines (is_rel_iff (codes "m.replace") (rel_type_of ev))
      (is_rel_iff (codes "m.thread") (rel_type_of ev)))
  where
    lines :
        {P Q : Type 0} {a b : Bool}
        → (a ≡ true) ↔ P
        → (b ≡ true) ↔ Q
        → ((not a && not b) ≡ true) ↔ ((P → ⊥) × (Q → ⊥))
    lines p q = ground arith
