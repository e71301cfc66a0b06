-- ===== src/Bridge/Names.antt =====
-- Names of protocols, bots and puppets (src/bridge.rs: `PREFIXES`, `display_name`, `capitalise`,
-- `protocol_of_user`, `is_bridge_bot`). A user is given by the local part of the id.
use omarchy_chatd.Base.{
  ℕ, Bool, ◌||◌, Option, none, some, List, [], ◌∷◌, ◌++◌, ◌==◌, if◌then◌else◌, or_else, unwrap_or,
  any, Text, codes, text_eq, strip_prefix, starts_with, to_ascii_lowercase, trim_start_matches,
}

-- `PREFIXES`.
unfoldable pub prefixes : List (Text × Text)
prefixes =
    (codes "whatsapp", codes "whatsapp")
    ∷ (codes "telegram", codes "telegram")
    ∷ (codes "signal", codes "signal")
    ∷ (codes "discord", codes "discord")
    ∷ (codes "slack", codes "slack")
    ∷ (codes "instagram", codes "instagram")
    ∷ (codes "facebook", codes "facebook")
    ∷ (codes "messenger", codes "facebook")
    ∷ (codes "imessage", codes "imessage")
    ∷ (codes "googlechat", codes "googlechat")
    ∷ (codes "gchat", codes "googlechat")
    ∷ (codes "linkedin", codes "linkedin")
    ∷ (codes "twitter", codes "twitter")
    ∷ (codes "xmpp", codes "xmpp")
    ∷ (codes "irc", codes "irc")
    ∷ (codes "sms", codes "sms")
    ∷ (codes "gmessages", codes "sms")
    ∷ (codes "bluesky", codes "bluesky")
    ∷ (codes "meta", codes "facebook")
    ∷ []

-- The arms of `display_name`.
abbrev pub display_names : List (Text × Text)
display_names =
    (codes "whatsapp", codes "WhatsApp")
    ∷ (codes "telegram", codes "Telegram")
    ∷ (codes "signal", codes "Signal")
    ∷ (codes "discord", codes "Discord")
    ∷ (codes "slack", codes "Slack")
    ∷ (codes "instagram", codes "Instagram")
    ∷ (codes "facebook", codes "Messenger")
    ∷ (codes "imessage", codes "iMessage")
    ∷ (codes "googlechat", codes "Google Chat")
    ∷ (codes "linkedin", codes "LinkedIn")
    ∷ (codes "twitter", codes "X")
    ∷ (codes "xmpp", codes "XMPP")
    ∷ (codes "irc", codes "IRC")
    ∷ (codes "sms", codes "SMS")
    ∷ (codes "bluesky", codes "Bluesky")
    ∷ []

abbrev pub lookup_text : Text → List (Text × Text) → Option Text
lookup_text k [] = none
lookup_text k ((j, v) ∷ m) = if text_eq k j then some v else lookup_text k m

-- `capitalise`; `to_uppercase` is the language's table, which gives a text for a character.
unfoldable pub capitalise : (ℕ → Text) → Text → Text
capitalise to_uppercase [] = []
capitalise to_uppercase (f ∷ s) = to_uppercase f ++ s

-- `display_name`.
unfoldable pub display_name : (ℕ → Text) → Text → Text
unfolding capitalise
display_name to_uppercase protocol =
    unwrap_or (capitalise to_uppercase protocol) (lookup_text protocol display_names)

-- The local part that is compared: without leading underscores, in lower case.
unfoldable pub plain_local : Text → Text
unfolding trim_start_matches
plain_local local = to_ascii_lowercase (trim_start_matches (λ c. c == b'_') local)

-- `rest == "bot" || rest.starts_with('_')`.
abbrev pub is_suffix : Text → Bool
is_suffix rest = text_eq rest (codes "bot") || starts_with rest (codes "_")

-- The closure of the search, for one prefix.
unfoldable pub match_prefix : Text → Option Text → Option Text
match_prefix protocol none = none
match_prefix protocol (some rest) = if is_suffix rest then some protocol else none

-- `PREFIXES.iter().find_map(…)`.
unfoldable pub find_protocol : Text → List (Text × Text) → Option Text
unfolding match_prefix
find_protocol local [] = none
find_protocol local ((prefix, protocol) ∷ table) =
    or_else (match_prefix protocol (strip_prefix local prefix)) (find_protocol local table)

-- `protocol_of_user`.
unfoldable pub protocol_of_user : Text → Option Text
unfolding find_protocol plain_local prefixes
protocol_of_user local = find_protocol (plain_local local) prefixes

-- `is_bridge_bot`.
unfoldable pub is_bridge_bot : Text → Bool
unfolding plain_local prefixes
is_bridge_bot local =
    any (λ (entry : Text × Text). text_eq (plain_local local) (entry.0 ++ codes "bot")) prefixes
