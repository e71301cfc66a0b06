-- ===== src/Lib.antt =====
-- Verification of the daemon of omarchy-chatd, a Matrix client whose windows talk to it over a
-- Unix socket (src/ of the repository).
--
-- The program has one `Core` (src/core.rs) that holds the session and answers requests;
-- src/main.rs reads the requests of each connection, src/secrets.rs keeps the session's secrets
-- in the desktop's keyring. Each part is a module, with the source's words for its names; an
-- operation is a function of the state that it changes, and what the homeserver, the SDK, the
-- keyring and the file system answer is an argument, so that a theorem holds for every answer.
--
-- Base: numbers, texts as lists of code points, lists, the tests that code branches on.
-- Secrets: src/secrets.rs (`keyring`, `store`, `load`, `forget`); Secrets/Quiet is about the
-- unlock dialogs.
-- Session: the state of `Core` (`State`, session.json, the keyring's item, the stores and the
-- sync loops that run: Session/Types), `save_session`, `load_session`, `forget_session` and the
-- token writes (Session/Disk), `login`, `login_oauth` and its task, `login_cancel`, `logout`,
-- `shutdown`, `restore` and its retries, the commands RetrySession and ForgetSession
-- (Session/Login), `sync_loop` and the watcher of session changes (Session/Sync).
-- Session/Placement and RoundTrip are about the file and the keyring, Soundness and Commands
-- about the state over commands run one at a time, Race about runs that interleave, Live and
-- Backoff about the sync loop.
-- Connection: `handle_conn` in src/main.rs: the reading loop (Connection/Reader), against a
-- splitting into lines (Connection/Bounds), and the tasks that answer the requests, with the
-- semaphore, the channel, the writer and the pusher of events (Connection/Flight), as a step
-- relation (Connection/Answered) of which Connection/Drained takes the steps that the connection
-- makes by itself.
-- Json: the part of `serde_json::Value` that events are read with.
-- Timeline: `is_message_like`, `is_thread_reply`, `bundled_edit` (Timeline/Events),
-- `contiguous_tail` (Timeline/Chunks, against the listing's format in Timeline/Listing), and
-- `timeline`: loading with its 12 rounds, the walk and the next anchor (Timeline/Page; Walk,
-- Pages, Loading, Bounded); `thread` (Timeline/Thread, Replies).
-- Messages: the conversion of a parsed event (`message_from_event`, `to_message`,
-- `membership_line`, `deleted_placeholder`: Messages/Events, Convert; Belongs), the quote at the
-- head of a reply (`strip_reply_fallback`: Messages/Quotes, Fallback), edits and reactions of the
-- index (`cached_relations` and the loop over a page: Messages/Edits, Shown), the previews of
-- quoted messages and their cache (Messages/Previews, Bounded), and the handlers of arriving
-- events (`on_room_message`, `on_reaction`, `on_redaction`, `on_typing`, `on_receipt`:
-- Messages/Live, Arrivals).
-- Search: `search` (Search/Scan and Scanned for the scan of encrypted rooms, Search/Find; Found),
-- `members` and `preview` (Search/Members, Listed).
-- Bridge: src/bridge.rs, the names of bots and puppets (Bridge/Names, Puppets) and `detect`
-- (Bridge/Detect, Members).
-- Verify: the verification of devices in src/verify.rs: following a request and its emoji
-- exchange (`track_request`, `track_sas`: Verify/Flows), the commands on a flow (Verify/Commands)
-- and on the recovery key (Verify/Recovery). Verify/Tracking is about what is announced and which
-- flows are known, Verify/Consent about what is asked of the SDK.
-- Community: src/community.rs: the policy for direct chats (Community/Policy, with
-- Community/Allowed on whom it lets in) and the handler `on_stripped_member` of src/core.rs that
-- applies it (Community/Invites), the preferences on disk (`load_prefs`, `write_private` and
-- `SetDmPolicy` of src/core.rs: Community/Preferences), the cached listing of the space
-- (Community/Listing), the joining of its rooms (Community/Joining, Pending), leaving
-- (Community/Leaving), the members' cards as they are read (Community/Cards, People) and
-- published or withdrawn (Community/Publish, Published), the status that is shown
-- (Community/Status, Shown), and the joining and creating of a space and the listing of a room in
-- it (Community/Spaces, Added).
-- Media: src/media.rs: `safe_extension` (Media/Extension), the integer part of `analyse_wav`
-- (Media/Wav, with Media/Samples on what it reads), `attachment_of` (Media/Attachment) and
-- `BoundedMediaFetcher` (Media/Download, Capped).
-- Reactions: `aggregate_reactions` (Reactions/Tally, ByKey, Tallied) and `read_by`
-- (Reactions/Readers) of src/core.rs.
-- Rooms: the list of rooms (`rooms`, `room_info`: Rooms/Info, Asked) with their latest times
-- (`activity_of`: Rooms/Activity) and unread counts (Rooms/Unread), the modes of notifications
-- (`notification_mode`, `set_notification_mode`: Rooms/Settings, Modes), `room_details`
-- (Rooms/Details), `send`, `edit` and `mark_read` (Rooms/Sending, Sent), and `directory`, `dm`
-- and `create_room` (Rooms/Creating), all of src/core.rs.
--
-- Numbers are unbounded but the failure count of the sync loop, an AtomicU32, which wraps at
-- 2^32, and the count of rooms to join, which does too. Loops over answers that come from outside
-- are functions of the list of answers. The reading loop runs on fuel, and more fuel than bytes
-- is enough; the walk over the chunks of a WAV runs on one more than its bytes, which is enough
-- too; the timeline's loop runs on the number of rounds left, as the source counts them.
--
-- The bytes of a download are a list of pieces; texts are cut by code points, as the source cuts
-- them by characters, and the tables of upper and lower case are arguments.
--
-- Not modelled: the SDK and its store, what a sync response does, how the SDK parses an event,
-- the wire format of requests, uploads and calls of other programs, and the parts of the daemon
-- that only pass calls on. Session/Commands runs each command whole; the source awaits the
-- homeserver in between without holding the state, and Session/Race is about what that allows. A
-- sync loop runs there from its spawn until it ends or is aborted, and an abort takes effect at
-- once; so does, for an abandoned sign-in, the removal of its store.
pub mod Base
pub mod Secrets
pub mod Session
pub mod Connection
pub mod Json
pub mod Timeline
pub mod Verify
pub mod Community
pub mod Media
pub mod Reactions
pub mod Bridge
pub mod Messages
pub mod Search
pub mod Rooms
