-- ===== src/Community/Preferences.antt =====
-- The preferences on disk (src/community.rs: `Prefs`; src/core.rs: `load_prefs`, `write_private`, and the
-- answer to `SetDmPolicy`).
use omarchy_chatd.Community.Policy.{DmPolicy, anyone, contacts, nobody, Prefs}
use omarchy_chatd.Json.{Json, str, obj, end, field, get, as_str, ◌>>=◌}
use omarchy_chatd.Base.{
  ◌≡◌, refl, Bool, true, false, Option, none, some, [], if◌then◌else◌, unwrap_or, Text, codes,
  text_eq, is_empty,
}

-- `DmPolicy` as serde spells it.
unfoldable pub policy_name : DmPolicy → Text
policy_name anyone = codes "anyone"
policy_name DmPolicy.community = codes "community"
policy_name contacts = codes "contacts"
policy_name nobody = codes "nobody"

unfoldable pub read_policy : Text → Option DmPolicy
unfolding text_eq
read_policy t =
    if text_eq t (codes "anyone")
    then some anyone
    else if text_eq t (codes "community")
    then some DmPolicy.community
    else if text_eq t (codes "contacts")
    then some contacts
    else if text_eq t (codes "nobody")
    then some nobody
    else none

-- `Prefs::default`.
abbrev pub default_prefs : Prefs
default_prefs = record { dm_policy = anyone; community_alias = [] }

unfoldable pub prefs_json : Prefs → Json
unfolding policy_name
prefs_json p = obj (
    field (codes "dm_policy") (str (policy_name p.dm_policy))
      (field (codes "community") (str p.community_alias) end))

policy_from : Option Json → Option DmPolicy
unfolding read_policy
policy_from none = some anyone
policy_from (some v) = as_str v >>= read_policy

community_from : Option Json → Option Text
community_from none = some []
community_from (some v) = as_str v

-- `serde_json::from_str::<Prefs>`, on an object.
unfoldable pub read_prefs : Json → Option Prefs
unfolding policy_from community_from get
read_prefs v = policy_from (get (codes "dm_policy") v) >>= λ policy.
    community_from (get (codes "community") v) >>= λ alias.
    some (record { dm_policy = policy; community_alias = alias })

-- The file: none, one that is no JSON, or one that is.
pub data PrefsFile : Type 0 where
  missing unreadable : PrefsFile
  holding : Json → PrefsFile

-- `load_prefs`.
unfoldable pub load_prefs : PrefsFile → Prefs
unfolding read_prefs
load_prefs missing = default_prefs
load_prefs unreadable = default_prefs
load_prefs (holding v) = unwrap_or default_prefs (read_prefs v)

-- How a write ends: the file cannot be opened, it is emptied and then not written whole, or it is
-- written.
pub data Write : Type 0 where
  not_opened cut_short written : Write

-- `write_private`: whether it succeeds, and the file.
unfoldable pub write_private : Write → Json → PrefsFile → Bool × PrefsFile
write_private not_opened v file = (false, file)
write_private cut_short v file = (false, unreadable)
write_private written v file = (true, holding v)

-- The preferences in memory and on disk.
pub record Kept : Type 0 where
  pub prefs : Prefs
  pub file : PrefsFile

unfoldable pub changed : DmPolicy → Text → Prefs → Prefs
changed policy alias p = record {
  dm_policy = policy;
  community_alias = if is_empty alias then p.community_alias else alias;
}

-- `SetDmPolicy`: whether it succeeds, and what is kept. The change in memory stays if the write fails.
unfoldable pub set_dm_policy : Write → DmPolicy → Text → Kept → Bool × Kept
unfolding changed prefs_json write_private
set_dm_policy w policy alias k =
    let p = changed policy alias k.prefs in
    let (done, file) = write_private w (prefs_json p) k.file in
    (done, record { prefs = p; file = file })

-- A start of the daemon.
abbrev pub restart : Kept → Kept
restart k = record { prefs = load_prefs k.file; file = k.file }

read_policy-policy_name : (p : DmPolicy) → read_policy (policy_name p) ≡ some p
unfolding read_policy policy_name text_eq
read_policy-policy_name anyone = refl
read_policy-policy_name DmPolicy.community = refl
read_policy-policy_name contacts = refl
read_policy-policy_name nobody = refl

load_prefs-holding : (p : Prefs) → load_prefs (holding (prefs_json p)) ≡ p
unfolding load_prefs read_prefs prefs_json policy_from get text_eq
load_prefs-holding p = rw (read_policy-policy_name p.dm_policy) refl

-- A change of the policy that succeeds survives a restart. One whose file cannot be opened holds until
-- the restart, which brings back what the file has; and one whose write is cut short holds until the
-- restart too, which then brings the policy `anyone`, whatever was set before.
pub set_dm_policy-restart :
    (policy : DmPolicy) (alias : Text) (k : Kept)
    → let p = changed policy alias k.prefs in
      ((set_dm_policy written policy alias k).0 ≡ true)
      × ((restart (set_dm_policy written policy alias k).1).prefs ≡ p)
      × ((w : Write) → (set_dm_policy w policy alias k).1.prefs ≡ p)
      × ((restart (set_dm_policy not_opened policy alias k).1).prefs ≡ load_prefs k.file)
      × ((restart (set_dm_policy cut_short policy alias k).1).prefs ≡ default_prefs)
unfolding set_dm_policy write_private load_prefs
set_dm_policy-restart policy alias k =
    (refl, load_prefs-holding (changed policy alias k.prefs), λ w. refl, refl, refl)
