-- ===== src/Media/Wav.antt =====
-- The reading of a WAV (src/media.rs: `analyse_wav`), on its bytes. The loudness of a stretch is a
-- float and not modelled; which samples it is made of is.
use omarchy_chatd.Base.{
  ℕ, zero, suc, ◌+◌, ◌-◌, ◌*◌, ◌/◌, ◌%◌, min, max, not, ◌&&◌, ◌||◌, Option, none, some, List, [],
  ◌∷◌, ltb, leb, ◌==◌, if◌then◌else◌, length, get_elem?, get_or, take, drop, codes, text_eq,
}

abbrev pub slice : List ℕ → ℕ → ℕ → List ℕ
slice bytes a b = take (b - a) (drop a bytes)

abbrev pub byte : List ℕ → ℕ → ℕ
byte bytes i = get_or bytes i 0

-- `u16::from_le_bytes` and `u32::from_le_bytes`, at an index.
abbrev pub le16 : List ℕ → ℕ → ℕ
le16 bytes i = byte bytes i + 256 * byte bytes (i + 1)

abbrev pub le32 : List ℕ → ℕ → ℕ
le32 bytes i = le16 bytes i + 65536 * le16 bytes (i + 2)

-- What the chunks have said so far.
pub record Wave : Type 0 where
  pub channels : ℕ
  pub rate : ℕ
  pub bits : ℕ
  pub samples : Option (List ℕ)

-- One chunk: its id and its body.
unfoldable pub read_chunk : List ℕ → List ℕ → Wave → Wave
read_chunk id body w =
    if text_eq id (codes "fmt ") && leb 16 (length body)
    then record w {
      channels = max (le16 body 2) 1;
      rate = max (le32 body 4) 1;
      bits = le16 body 14;
    }
    else (if text_eq id (codes "data") then record w { samples = some body } else w)

-- The walk over the chunks from a position; `none` is that the fuel runs out.
unfoldable pub walk_chunks : ℕ → List ℕ → ℕ → Wave → Option Wave
unfolding read_chunk
walk_chunks zero bytes pos w = none
walk_chunks (suc fuel) bytes pos w =
    let len = le32 bytes (pos + 4) in
    let body = slice bytes (pos + 8) (min (pos + 8 + len) (length bytes)) in
    let rest =
      walk_chunks fuel bytes (pos + 8 + len + len % 2)
        (read_chunk (slice bytes pos (pos + 4)) body w) in
    if leb (pos + 8) (length bytes) then rest else some w

-- The audio of a WAV: how many frames of how many bytes, at which rate, and its bytes.
pub record Audio : Type 0 where
  pub frames : ℕ
  pub frame : ℕ
  pub rate : ℕ
  pub sample_bytes : ℕ
  pub bytes : List ℕ

pub data Analysis : Type 0 where
  not_wav no_audio endless : Analysis
  unsupported : ℕ → Analysis
  audio : Audio → Analysis

abbrev pub audio_of : ℕ → Wave → List ℕ → Analysis
audio_of size w bytes = audio (record {
  frames = length bytes / max (size * w.channels) 1;
  frame = size * w.channels;
  rate = w.rate;
  sample_bytes = size;
  bytes = bytes;
})

-- The end of the walk: the bytes of the data, and the size of a sample.
unfoldable pub audio_from : Option Wave → Analysis
audio_from none = endless
audio_from (some w) = elim w.samples [
  | none ↦ no_audio
  | some bytes ↦
      if w.bits == 16
      then audio_of 2 w bytes
      else (if w.bits == 32 then audio_of 4 w bytes else unsupported w.bits)
]

-- The start of `analyse_wav`: the header, and the walk from the first chunk.
unfoldable pub analyse_wav : List ℕ → Analysis
unfolding walk_chunks audio_from
analyse_wav bytes =
    if ltb (length bytes) 12
      || not (text_eq (slice bytes 0 4) (codes "RIFF"))
      || not (text_eq (slice bytes 8 12) (codes "WAVE"))
    then not_wav
    else audio_from (
        walk_chunks (suc (length bytes)) bytes 12
          (record { channels = 1; rate = 48000; bits = 16; samples = none }))

-- `BUCKETS`.
abbrev pub buckets : ℕ
buckets = 100

-- Points of the curve that stay at 0, since their buckets have no frames.
abbrev pub unset : ℕ → List (Option (ℕ × ℕ))
unset zero = []
unset (suc n) = none ∷ unset n

-- The frames that each point of the curve is of, from bucket `b` on; the loop stops at the first bucket
-- that has none.
unfoldable pub ranges_from : ℕ → ℕ → ℕ → List (Option (ℕ × ℕ))
ranges_from frames zero b = []
ranges_from frames (suc left) b =
    let per = max (frames / buckets) 1 in
    let rest = ranges_from frames left (b + 1) in
    let start = b * per in
    let end = min ((b + 1) * per) frames in
    if leb end start then none ∷ unset left else some (start, end) ∷ rest

-- The curve has 100 points, however few frames there are.
unfoldable pub ranges : ℕ → List (Option (ℕ × ℕ))
unfolding ranges_from
ranges frames = if frames == 0 then unset buckets else ranges_from frames buckets 0

abbrev pub cons_byte : Option ℕ → Option (List ℕ) → Option (List ℕ)
cons_byte none bs = none
cons_byte (some b) none = none
cons_byte (some b) (some bs) = some (b ∷ bs)

-- The bytes of the sample that is read of a frame, if they are there.
abbrev pub read_bytes : List ℕ → ℕ → ℕ → Option (List ℕ)
read_bytes bytes off zero = some []
read_bytes bytes off (suc n) = cons_byte (get_elem? bytes off) (read_bytes bytes (off + 1) n)

unfoldable pub sample_of : Audio → ℕ → Option (List ℕ)
sample_of a f = read_bytes a.bytes (f * a.frame) a.sample_bytes
