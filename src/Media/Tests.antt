-- ===== src/Media/Tests.antt =====
-- Concrete runs of the theorems on media.
use omarchy_chatd.Media.Download.{
  encrypted, whole_file, done, piece, Response, Server, thumbnail_of, cap_of, fetch_media_content,
}
use mathlib.Core.Path.{subst}
use mathlib.Core.Option.{some-injective}
use omarchy_chatd.Media.Capped.{PiecesWithin, IsServer, IsCapped, fetch-IsCapped}
use omarchy_chatd.Base.{
  ℕ, ◌≤◌, ◌≡◌, refl, true, none, some, List, [], ◌∷◌, ◌++◌, arith, length, codes, text_eq,
}
use omarchy_chatd.Media.Wav.{read_chunk, walk_chunks, Audio, audio_from, analyse_wav}
use omarchy_chatd.Media.Samples.{IsReadable, analyse_wav-IsReadable}

-- Two frames of one channel, 16 bits, at 8000 Hz.
abbrev recording : List ℕ
recording =
    codes "RIFF"
    ++ (0 ∷ 0 ∷ 0 ∷ 0 ∷ codes "WAVE")
    ++ (codes "fmt " ++ (16 ∷ 0 ∷ 0 ∷ 0 ∷ 1 ∷ 0 ∷ 1 ∷ 0 ∷ 0x40 ∷ 0x1f ∷ 0 ∷ 0 ∷ []))
    ++ (0 ∷ 0 ∷ 0 ∷ 0 ∷ 2 ∷ 0 ∷ 16 ∷ 0 ∷ codes "data")
    ++ (4 ∷ 0 ∷ 0 ∷ 0 ∷ 1 ∷ 2 ∷ 3 ∷ 4 ∷ [])

abbrev recorded : Audio
recorded = record {
  frames = 2;
  frame = 2;
  rate = 8000;
  sample_bytes = 2;
  bytes = 1 ∷ 2 ∷ 3 ∷ 4 ∷ [];
}

analyse_wav-IsReadable_example : IsReadable recorded
unfolding analyse_wav walk_chunks read_chunk audio_from text_eq
analyse_wav-IsReadable_example = analyse_wav-IsReadable recording recorded refl

-- A server that declares nothing and sends two pieces.
abbrev two_pieces : Response
two_pieces = record {
  is_success = true;
  content_length = none;
  chunks = piece (1 ∷ 2 ∷ []) ∷ piece (3 ∷ []) ∷ [];
}

abbrev small_server : Server
small_server = record {
  parts = λ _. some (codes "x", codes "m");
  authenticated = some true;
  base_path = some (codes "" ∷ []);
  access_token = some (codes "t");
  respond = λ _. some two_pieces;
  decrypt = λ _ sealed. some sealed;
}

small_server-IsServer : IsServer 2 small_server
small_server-IsServer = record {
  pieces_fit = λ request r e.
      subst (λ (x : Response). PiecesWithin 2 x.chunks) (some-injective _ _ e)
        (omega arith, (omega arith, tt));
  no_longer = λ keys sealed clear e.
      subst (λ (x : List ℕ). length x ≤ length sealed) (some-injective _ _ e) (omega arith);
}

fetch-IsCapped_example :
    let source = encrypted (codes "mxc://x/m") (codes "k") in
    IsCapped 2 small_server 104857600 source (fetch_media_content small_server source whole_file)
fetch-IsCapped_example =
    fetch-IsCapped 2 small_server (encrypted (codes "mxc://x/m") (codes "k")) whole_file
      small_server-IsServer

fetched_clear :
    (fetch_media_content small_server (encrypted (codes "mxc://x/m") (codes "k")) whole_file).0
    ≡ done (1 ∷ 2 ∷ 3 ∷ [])
unfolding fetch_media_content thumbnail_of cap_of
fetched_clear = refl
