-- ===== src/Media/Download.antt =====
-- Bounded downloads (src/media.rs: `BoundedMediaFetcher::fetch_media_content`).
use omarchy_chatd.Base.{
  ℕ, ◌+◌, ◌*◌, max, Bool, true, false, not, Option, none, some, List, [], ◌∷◌, ◌++◌, ltb, leb,
  if◌then◌else◌, length, Text, codes, is_empty,
}

-- `MAX_DOWNLOAD` and `MAX_THUMBNAIL`.
abbrev pub max_download : ℕ
max_download = 100 * 1024 * 1024

abbrev pub max_thumbnail : ℕ
max_thumbnail = 16 * 1024 * 1024

-- The settings of a thumbnail; `is_crop` is its method.
pub record ThumbnailSettings : Type 0 where
  pub width : Text
  pub height : Text
  pub is_crop : Bool
  pub animated : Bool

-- A request: the URI of a plain file or of an encrypted one, which brings its keys, and the format.
pub data Source : Type 0 where
  plain : Text → Source
  encrypted : Text → Text → Source

pub data Format : Type 0 where
  whole_file : Format
  thumbnail : ThumbnailSettings → Format

pub data DownloadError : Type 0 where
  bad_uri no_versions no_path not_signed_in request_failed bad_status : DownloadError
  too_long_declared too_long broken_off too_late not_decrypted : DownloadError

pub data Fetched (A : Type 0) : Type 0 where
  failed : DownloadError → Fetched A
  done : A → Fetched A

infixl 5 ◌>>=◌
abbrev pub ◌>>=◌ : {A B : Type 0} → Fetched A → (A → Fetched B) → Fetched B
failed e >>= next = failed e
done a >>= next = next a

abbrev pub or_error : {A : Type 0} → DownloadError → Option A → Fetched A
or_error e none = failed e
or_error e (some a) = done a

-- What the response's body gives next: bytes, an error, or nothing before the deadline.
pub data Chunk : Type 0 where
  piece : List ℕ → Chunk
  broken : Chunk
  late : Chunk

-- A response: whether its status is a success, the length that it declares, and its body.
pub record Response : Type 0 where
  pub is_success : Bool
  pub content_length : Option ℕ
  pub chunks : List Chunk

-- What is sent: the path, the query and the token.
pub record Sent : Type 0 where
  pub path : List Text
  pub query : List (Text × Text)
  pub token : Option Text

-- What the client and the server answer: the parts of a URI, whether the server has authenticated
-- media, the path of the homeserver's URL, the token, the response, and the decryption of a file.
pub record Server : Type 0 where
  pub parts : Text → Option (Text × Text)
  pub authenticated : Option Bool
  pub base_path : Option (List Text)
  pub access_token : Option Text
  pub respond : Sent → Option Response
  pub decrypt : Text → List ℕ → Option (List ℕ)

abbrev pub uri_of : Source → Text
uri_of (plain uri) = uri
uri_of (encrypted uri keys) = uri

-- A thumbnail of an encrypted file makes no sense to the server: the file is fetched.
unfoldable pub thumbnail_of : Source → Format → Option ThumbnailSettings
thumbnail_of (plain uri) (thumbnail settings) = some settings
thumbnail_of (plain uri) whole_file = none
thumbnail_of (encrypted uri keys) format = none

unfoldable pub cap_of : Option ThumbnailSettings → ℕ
cap_of none = max_download
cap_of (some settings) = max_thumbnail

media_path : Bool → List Text
media_path true = codes "_matrix" ∷ codes "client" ∷ codes "v1" ∷ codes "media" ∷ []
media_path false = codes "_matrix" ∷ codes "media" ∷ codes "v3" ∷ []

-- `segments.pop_if_empty()`.
pop_if_empty : List Text → List Text
pop_if_empty [] = []
pop_if_empty (s ∷ []) = if is_empty s then [] else s ∷ []
pop_if_empty (s ∷ t ∷ ss) = s ∷ pop_if_empty (t ∷ ss)

last_part : Option ThumbnailSettings → Text
last_part none = codes "download"
last_part (some settings) = codes "thumbnail"

query_of : Option ThumbnailSettings → List (Text × Text)
query_of none = []
query_of (some settings) =
    (codes "width", settings.width)
    ∷ (codes "height", settings.height)
    ∷ (codes "method", if settings.is_crop then codes "crop" else codes "scale")
    ∷ (codes "animated", if settings.animated then codes "true" else codes "false")
    ∷ []

token_of : Bool → Option Text → Fetched (Option Text)
token_of false token = done none
token_of true none = failed not_signed_in
token_of true (some t) = done (some t)

unfoldable pub declared_within : ℕ → Option ℕ → Bool
declared_within cap none = true
declared_within cap (some len) = leb len cap

-- The body, chunk by chunk into the buffer, with the most bytes that were held: those of the buffer and
-- of the piece in hand, which is tested before it is put there.
unfoldable pub read_chunks : ℕ → List ℕ → List Chunk → Fetched (List ℕ) × ℕ
read_chunks cap buf [] = (done buf, length buf)
read_chunks cap buf (broken ∷ chunks) = (failed broken_off, length buf)
read_chunks cap buf (late ∷ chunks) = (failed too_late, length buf)
read_chunks cap buf (piece bytes ∷ chunks) =
    let rest = read_chunks cap (buf ++ bytes) chunks in
    if ltb cap (length buf + length bytes)
    then (failed too_long, length buf + length bytes)
    else (rest.0, max (length buf + length bytes) rest.1)

unfoldable pub read_response : ℕ → Response → Fetched (List ℕ) × ℕ
unfolding read_chunks declared_within
read_response cap r =
    let body = read_chunks cap [] r.chunks in
    if not r.is_success
    then (failed bad_status, 0)
    else (if declared_within cap r.content_length then body else (failed too_long_declared, 0))

-- The request that is sent for a URI.
unfoldable pub request_of : Server → Source → Option ThumbnailSettings → Fetched Sent
unfolding media_path pop_if_empty last_part query_of token_of
request_of server source settings = do
  (name, media_id) ← or_error bad_uri (server.parts (uri_of source))
  use_auth ← or_error no_versions server.authenticated
  base ← or_error no_path server.base_path
  token ← token_of use_auth server.access_token
  done (record {
    path =
        pop_if_empty base ++ (media_path use_auth ++ (last_part settings ∷ name ∷ media_id ∷ []));
    query = query_of settings;
    token = token;
  })

-- A plain file is the bytes that were read; an encrypted one is decrypted.
unfoldable pub decrypted : Server → Source → List ℕ → Fetched (List ℕ)
decrypted server (plain uri) bytes = done bytes
decrypted server (encrypted uri keys) bytes = or_error not_decrypted (server.decrypt keys bytes)

-- What an encrypted file is decrypted to stands beside the bytes that were read, in a buffer of at least
-- their length.
abbrev pub clear_length : Fetched (List ℕ) → ℕ
clear_length (done clear) = length clear
clear_length (failed e) = 0

unfoldable pub held_by : Source → List ℕ → Fetched (List ℕ) → ℕ
held_by (plain uri) bytes r = length bytes
held_by (encrypted uri keys) bytes r = length bytes + max (length bytes) (clear_length r)

unfoldable pub received : Server → Source → Fetched (List ℕ) × ℕ → Fetched (List ℕ) × ℕ
unfolding decrypted held_by
received server source (failed e, held) = (failed e, held)
received server source (done bytes, held) =
    let r = decrypted server source bytes in (r, max held (held_by source bytes r))

unfoldable pub answered : Server → Source → ℕ → Option Response → Fetched (List ℕ) × ℕ
answered server source cap none = (failed request_failed, 0)
answered server source cap (some r) = received server source (read_response cap r)

unfoldable pub sent_off : Server → Source → ℕ → Fetched Sent → Fetched (List ℕ) × ℕ
sent_off server source cap (failed e) = (failed e, 0)
sent_off server source cap (done request) = answered server source cap (server.respond request)

-- `fetch_media_content`: the file, and the most bytes that it held.
unfoldable pub fetch_media_content : Server → Source → Format → Fetched (List ℕ) × ℕ
unfolding request_of read_response sent_off answered received decrypted held_by
fetch_media_content server source format =
    let settings = thumbnail_of source format in
    sent_off server source (cap_of settings) (request_of server source settings)
