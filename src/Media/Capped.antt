-- ===== src/Media/Capped.antt =====
-- Downloads stay within their cap (src/media.rs: `BoundedMediaFetcher`).
use mathlib.Core.List.{append_assoc, append-nil}
use mathlib.Core.Path.{subst}
use omarchy_chatd.Media.Download.{
  Source, plain, encrypted, Format, whole_file, thumbnail, too_long, not_decrypted, Fetched, failed,
  done, or_error, Chunk, piece, broken, late, Response, Sent, Server, thumbnail_of, cap_of,
  declared_within, read_chunks, read_response, request_of, decrypted, clear_length, held_by,
  received, answered, sent_off, fetch_media_content,
}
use omarchy_chatd.Base.{
  ℕ, ◌+◌, ◌≤◌, max, ◌≡◌, refl, ap, ◌∙◌, inl, inr, true, false, Option, none, some, List, [], ◌∷◌,
  ◌++◌, arith, ltb, if◌then◌else◌, Bool-cases, length, length-append, Text,
}

-- The bytes of some pieces.
abbrev pub concat : List (List ℕ) → List ℕ
concat [] = []
concat (p ∷ ps) = p ++ concat ps

abbrev pub pieces : List (List ℕ) → List Chunk
pieces [] = []
pieces (p ∷ ps) = piece p ∷ pieces ps

-- A body of pieces is read whole exactly when it is within the cap.
read_pieces :
    (cap : ℕ) (buf : List ℕ) (ps : List (List ℕ))
    → length buf ≤ cap
    → (read_chunks cap buf (pieces ps)).0 ≡ (
        if ltb cap (length buf + length (concat ps))
        then failed too_long
        else done (buf ++ concat ps))
unfolding read_chunks
read_pieces cap buf [] h =
    let e : ltb cap (length buf + 0) ≡ false = ground arith in rw (e, append-nil buf) refl
read_pieces cap buf (p ∷ ps) h = elim (Bool-cases (ltb cap (length buf + length p))) [
  | inl y ↦
      let e : ltb cap (length buf + length (p ++ concat ps)) ≡ true =
        ground (arith, length-append p (concat ps)) in
      rw (y, e) refl
  | inr n ↦
      let ih = read_pieces cap (buf ++ p) ps (ground (arith, length-append buf p)) in
      let e : length (buf ++ p) + length (concat ps) ≡ length buf + length (p ++ concat ps) =
        omega (arith, length-append buf p, length-append p (concat ps)) in
      rw n (ih ∙ rw (e, append_assoc buf p (concat ps)) refl)
]

-- What is read stays within the cap, whatever comes.
abbrev pub WithinCap : ℕ → Fetched (List ℕ) → Type 0
WithinCap cap (done bytes) = length bytes ≤ cap
WithinCap cap (failed e) = Unit

-- The pieces of a body have at most so many bytes each.
abbrev pub PiecesWithin : ℕ → List Chunk → Type 0
PiecesWithin n [] = Unit
PiecesWithin n (piece bytes ∷ chunks) = (length bytes ≤ n) × PiecesWithin n chunks
PiecesWithin n (_ ∷ chunks) = PiecesWithin n chunks

read_chunks-WithinCap :
    (n cap : ℕ) (buf : List ℕ) (chunks : List Chunk)
    → PiecesWithin n chunks
    → length buf ≤ cap
    → WithinCap cap (read_chunks cap buf chunks).0 × ((read_chunks cap buf chunks).1 ≤ cap + n)
unfolding read_chunks
read_chunks-WithinCap n cap buf [] p h = (h, omega arith)
read_chunks-WithinCap n cap buf (broken ∷ chunks) p h = (tt, omega arith)
read_chunks-WithinCap n cap buf (late ∷ chunks) p h = (tt, omega arith)
read_chunks-WithinCap n cap buf (piece bytes ∷ chunks) p h =
    elim (Bool-cases (ltb cap (length buf + length bytes))) [
      | inl y ↦ rw y (tt, omega (arith, p.0))
      | inr m ↦
          let ih =
            read_chunks-WithinCap n cap (buf ++ bytes) chunks p.1
              (ground (arith, length-append buf bytes)) in
          rw m (ih.0, omega (arith, p.0, ih.1))
    ]

read_response-WithinCap :
    (n cap : ℕ) (r : Response)
    → PiecesWithin n r.chunks
    → WithinCap cap (read_response cap r).0 × ((read_response cap r).1 ≤ cap + n)
unfolding read_response
read_response-WithinCap n cap r p =
    let body = read_chunks-WithinCap n cap [] r.chunks p (omega arith) in
    elim (Bool-cases r.is_success) [
      | inr n ↦ rw n (tt, omega arith)
      | inl y ↦ elim (Bool-cases (declared_within cap r.content_length)) [
        | inl d ↦ rw (y, d) body
        | inr d ↦ rw (y, d) (tt, omega arith)
      ]
    ]

-- What a request gives: an error; the bytes of a plain file, within the limit; or the decryption of
-- bytes within it.
abbrev pub IsDownloaded : Server → ℕ → Source → Fetched (List ℕ) → Type 0
IsDownloaded server cap source (failed e) = Unit
IsDownloaded server cap (plain uri) (done bytes) = length bytes ≤ cap
IsDownloaded server cap (encrypted uri keys) (done bytes) =
    (sealed : List ℕ) × (length sealed ≤ cap) × (server.decrypt keys sealed ≡ some bytes)

-- 16 MiB for the thumbnail of a plain file, 100 MiB for any other request.
abbrev pub limit_of : Source → Format → ℕ
limit_of (plain uri) (thumbnail settings) = 16777216
limit_of (plain uri) whole_file = 104857600
limit_of (encrypted uri keys) format = 104857600

cap-limit :
    (source : Source) (format : Format)
    → cap_of (thumbnail_of source format) ≡ limit_of source format
unfolding cap_of thumbnail_of
cap-limit (plain uri) (thumbnail settings) = refl
cap-limit (plain uri) whole_file = refl
cap-limit (encrypted uri keys) format = refl

-- What is relied on: the HTTP client gives a body in pieces of at most `n` bytes, and the decryption of
-- a file is no longer than the file.
pub record IsServer (n : ℕ) (server : Server) : Type 0 where
  pub pieces_fit :
      (request : Sent) (r : Response) → server.respond request ≡ some r → PiecesWithin n r.chunks
  pub no_longer :
      (keys : Text) (sealed clear : List ℕ)
      → server.decrypt keys sealed ≡ some clear
      → length clear ≤ length sealed

-- A download within a limit: what it returns, and what it holds.
abbrev pub IsCapped : ℕ → Server → ℕ → Source → Fetched (List ℕ) × ℕ → Type 0
IsCapped n server cap source r = IsDownloaded server cap source r.0 × (r.1 ≤ cap + max n cap)

module _ (n : ℕ) (server : Server) (ok : IsServer n server) where
  received-IsCapped :
      (source : Source) (cap : ℕ) (r : Fetched (List ℕ)) (held : ℕ)
      → WithinCap cap r
      → held ≤ cap + n
      → IsCapped n server cap source (received server source (r, held))
  unfolding received decrypted held_by
  received-IsCapped (plain uri) cap (done bytes) held h k = (h, omega arith)
  received-IsCapped (plain uri) cap (failed e) held h k = (tt, omega arith)
  received-IsCapped (encrypted uri keys) cap (failed e) held h k = (tt, omega arith)
  received-IsCapped (encrypted uri keys) cap (done bytes) held h k =
      by_decryption (server.decrypt keys bytes) refl
    where
      by_decryption :
          (o : Option (List ℕ))
          → server.decrypt keys bytes ≡ o
          → IsCapped n server cap (encrypted uri keys) (
            or_error not_decrypted o,
            max held (length bytes + max (length bytes) (clear_length (or_error not_decrypted o))),
          )
      by_decryption none e = (tt, omega arith)
      by_decryption (some clear) e = ((bytes, h, e), omega (arith, ok.no_longer keys bytes clear e))

  answered-IsCapped :
      (source : Source) (cap : ℕ) (request : Sent) (o : Option Response)
      → server.respond request ≡ o
      → IsCapped n server cap source (answered server source cap o)
  unfolding answered
  answered-IsCapped source cap request none e = (tt, omega arith)
  answered-IsCapped source cap request (some r) e =
      let w = read_response-WithinCap n cap r (ok.pieces_fit request r e) in
      received-IsCapped source cap (read_response cap r).0 (read_response cap r).1 w.0 w.1

  sent_off-IsCapped :
      (source : Source) (cap : ℕ) (q : Fetched Sent)
      → IsCapped n server cap source (sent_off server source cap q)
  unfolding sent_off
  sent_off-IsCapped source cap (failed e) = (tt, omega arith)
  sent_off-IsCapped source cap (done request) =
      answered-IsCapped source cap request (server.respond request) refl

-- Whatever the server declares and sends, in pieces of at most `n` bytes: a download returns at most its
-- limit of bytes, or what was decrypted from so many, where the limit is 16 MiB for the thumbnail of a
-- plain file and 100 MiB for any other request. At no time do the buffer, the piece in hand and what is
-- being decrypted hold more than the limit and the longer of a piece and the limit.
pub fetch-IsCapped :
    (n : ℕ) (server : Server) (source : Source) (format : Format)
    → IsServer n server
    → IsCapped n server (limit_of source format) source (fetch_media_content server source format)
unfolding fetch_media_content
fetch-IsCapped n server source format ok =
    subst (λ cap. IsCapped n server cap source (fetch_media_content server source format))
      (cap-limit source format)
      (sent_off-IsCapped n server ok source (cap_of (thumbnail_of source format))
        (request_of server source (thumbnail_of source format)))

-- A response whose status is a success, that declares no more than the cap, and whose body comes whole
-- in pieces, is read whole when the body is within the cap, and refused otherwise.
read_response_whole :
    (cap : ℕ) (r : Response) (ps : List (List ℕ))
    → r.is_success ≡ true
    → declared_within cap r.content_length ≡ true
    → r.chunks ≡ pieces ps
    → (read_response cap r).0
      ≡ (if ltb cap (length (concat ps)) then failed too_long else done (concat ps))
unfolding read_response
read_response_whole cap r ps s d e =
    rw (s, d)
      (ap (λ cs. (read_chunks cap [] cs).0) e ∙ read_pieces cap [] ps (omega arith) ∙ ground arith)
