-- ===== src/Session/Types.antt =====
-- The state of src/core.rs, its errors, and the operations that only read or announce it.
use omarchy_chatd.Base.{
  ℕ, Bool, true, false, not, ◌&&◌, Option, none, some, List, [], ◌∷◌, ◌++◌, if◌then◌else◌, is_some,
  Text, text_eq,
}
use omarchy_chatd.Secrets.{Backend, Fault, Doc, absent, Blob}

-- `StoredAuth`: the SDK's session, the client id and the user session are opaque texts.
pub data Auth : Type 0 where
  password : (session : Text) → Auth
  oauth : (client_id user : Text) → Auth

-- `SessionSecrets`.
pub record Secret : Type 0 where
  pub store_passphrase : Text
  pub auth : Auth

-- `PersistedSession`, the content of `session.json`.
pub record Persisted : Type 0 where
  pub homeserver : Text
  pub store_path : Text
  pub sync_token : Option Text
  pub secrets : Option Backend
  pub store_passphrase : Option Text
  pub auth : Option Auth

-- What the program reads of an SDK client: its user, its server, and the session that it holds,
-- by `oauth().full_session()` and by `matrix_auth().session()`.
pub record Client : Type 0 where
  pub user_id : Option Text
  pub homeserver : Text
  pub full_session : Option (Text × Text)
  pub matrix_session : Option Text

-- `PendingLogin`: whether its task has finished, and its store.
pub record Pending : Type 0 where
  pub finished : Bool
  pub store_path : Text

-- The messages of the operations' errors.
pub data Error : Type 0 where
  already_logged_in login_in_progress no_login_in_progress not_logged_in : Error
  no_saved_session not_read not_parsed not_written no_secrets : Error
  keyring_fault : Fault → Error
  no_keyring_entry entry_not_parsed : Error
  not_connected login_failed no_session_returned : Error
  oauth_not_supported no_metadata no_listener no_authorization : Error
  browser_timed_out no_sign_in_data finish_failed : Error
  not_restored no_passphrase no_session : Error

-- The texts that `State::error` is set to.
pub data Notice : Type 0 where
  could_not_read could_not_restore sign_in_failed : Error → Notice
  sync_failing reconnecting sync_stopped session_expired : Notice

-- `protocol::Status`, but the version.
pub record Status : Type 0 where
  pub logged_in : Bool
  pub syncing : Bool
  pub pending_login : Bool
  pub user_id : Option Text
  pub homeserver : Option Text
  pub error : Option Notice
  pub secrets : Option Backend
  pub saved_session : Bool

-- `State`, then what it speaks of: `session.json`, the store directories under the data directory,
-- the keyring's item, the sync loops that run (by number), and the states announced so far.
pub record World : Type 0 where
  pub client : Option Client
  pub notification_settings : Bool
  pub sync_task : Option ℕ
  pub pending : Option Pending
  pub syncing : Bool
  pub error : Option Notice
  pub secrets_backend : Option Backend
  pub store_passphrase : Option Text
  pub session_file : Doc Persisted
  pub stores : List Text
  pub item : Option (Blob Secret)
  pub running : List ℕ
  pub next_task : ℕ
  pub announced : List Status

pub data Result (A : Type 0) : Type 0 where
  ok : A → Result A
  err : Error → Result A

-- A handler: what it returns, and the state that it leaves, after an error too.
abbrev pub M : Type 0 → Type 0
M A = World → Result A × World

module _ {A : Type 0} where
  abbrev pub pure : A → M A
  pure a w = (ok a, w)

  abbrev pub raise : Error → M A
  raise e w = (err e, w)

  abbrev pub gets : (World → A) → M A
  gets f w = (ok (f w), w)

  -- `match call { Ok(..) => .., Err(..) => .. }`
  abbrev pub attempt : M A → M (Result A)
  attempt m w = let (r, w') = m w in (ok r, w')

abbrev pub modify : (World → World) → M (Unit {0})
modify f w = (ok tt, f w)

infixl 5 ◌>>=◌ ◌>>◌
abbrev pub ◌>>=◌ : {A B : Type 0} → M A → (A → M B) → M B
◌>>=◌ m f w = let (r, w') = m w in elim r [ ok a ↦ f a w' | err e ↦ raise e w' ]

abbrev pub ◌>>◌ : {A B : Type 0} → M A → M B → M B
m >> k = m >>= λ _. k

abbrev pub bail_if : Bool → Error → M (Unit {0})
bail_if b e w = (if b then err e else ok tt, w)

abbrev pub or_raise : {A : Type 0} → Option A → Error → M A
or_raise none e = raise e
or_raise (some a) e = pure a

-- `State::login_pending`.
unfoldable pub login_pending : World → Bool
login_pending w = elim w.pending [ none ↦ false | some p ↦ not p.finished ]

abbrev pub exists : {A : Type 0} → Doc A → Bool
exists absent = false
exists _ = true

abbrev pub and_then : {A B : Type 0} → Option A → (A → Option B) → Option B
and_then none f = none
and_then (some a) f = f a

-- `Core::status`.
unfoldable pub status : World → Status
unfolding login_pending
status w = record {
  logged_in = is_some w.client;
  syncing = w.syncing;
  pending_login = login_pending w;
  user_id = and_then w.client (λ c. c.user_id);
  homeserver = and_then w.client (λ c. some c.homeserver);
  error = w.error;
  secrets = w.secrets_backend;
  saved_session = not (is_some w.client) && exists w.session_file;
}

-- `Core::broadcast_state`.
unfoldable pub broadcast_state : M (Unit {0})
broadcast_state = modify (λ w. record w { announced = w.announced ++ status w ∷ [] })

-- `Core::client`.
unfoldable pub client : M Client
client = do c ← gets (λ w. w.client); or_raise c not_logged_in

-- `Core::set_error`.
unfoldable pub set_error : Option Notice → M (Unit {0})
unfolding broadcast_state
set_error e = do modify (λ w. record w { error = e }); broadcast_state

-- `Core::set_syncing`.
unfoldable pub set_syncing : Bool → M (Unit {0})
unfolding broadcast_state
set_syncing b = do
  modify (λ w. record w { syncing = b; error = if b then none else w.error })
  broadcast_state

-- `std::fs::remove_dir_all`, its result ignored.
abbrev pub remove_path : Text → List Text → List Text
remove_path p [] = []
remove_path p (q ∷ qs) = let rest = remove_path p qs in if text_eq q p then rest else q ∷ rest

unfoldable pub remove_store : Text → M (Unit {0})
remove_store p = modify (λ w. record w { stores = remove_path p w.stores })

-- The state of a daemon that was just started beside nothing saved.
abbrev pub initial : World
initial = record {
  client = none;
  notification_settings = false;
  sync_task = none;
  pending = none;
  syncing = false;
  error = none;
  secrets_backend = none;
  store_passphrase = none;
  session_file = absent;
  stores = [];
  item = none;
  running = [];
  next_task = 0;
  announced = [];
}
