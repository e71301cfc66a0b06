-- ===== src/Media/Samples.antt =====
-- What the reading of a WAV reads (src/media.rs: `analyse_wav`).
use omarchy_chatd.Base.{
  ℕ, zero, suc, ◌+◌, ◌*◌, ◌/◌, ◌%◌, ◌≤◌, ◌<◌, min, max, ◌≡◌, refl, ap, ◌∙◌, ◌≢◌, inl, inr, true,
  not, ◌&&◌, ◌||◌, Option, none, some, List, arith, ltb, leb, ◌==◌, leb→le, Bool-cases,
  Option-cases, is_some, length, All, get_elem?-lt, codes, text_eq,
}
use mathlib.Core.Path.{subst}
use native.Mathlib.Nat.{mul-one, mul-le-mul_left, mul-le-mul_right, div-mul-le_self}
use omarchy_chatd.Media.Wav.{
  slice, le32, Wave, read_chunk, walk_chunks, Audio, Analysis, endless, audio, audio_of, audio_from,
  analyse_wav, unset, ranges_from, ranges, cons_byte, read_bytes, sample_of,
}

walk_chunks_ends :
    (fuel : ℕ) (bytes : List ℕ) (pos : ℕ) (w : Wave)
    → length bytes < fuel + pos
    → 1 ≤ fuel
    → is_some (walk_chunks fuel bytes pos w) ≡ true
unfolding walk_chunks
walk_chunks_ends zero bytes pos w h p = elim p [ ]
walk_chunks_ends (suc fuel) bytes pos w h p = elim (Bool-cases (leb (pos + 8) (length bytes))) [
  | inl e ↦ rw e (
      let le = leb→le (pos + 8) (length bytes) e in
      walk_chunks_ends fuel bytes _ _ (omega arith) (omega arith))
  | inr e ↦ rw e refl
]

-- A point of the loudness curve: at 0, or of frames that are counted, and of at least one.
abbrev pub IsRange : ℕ → Option (ℕ × ℕ) → Type 0
IsRange frames none = Unit
IsRange frames (some (start, end)) = (start < end) × (end ≤ frames)

-- So many points of the curve.
abbrev pub AreRanges : ℕ → ℕ → List (Option (ℕ × ℕ)) → Type 0
AreRanges frames n points = (length points ≡ n) × All (IsRange frames) points

-- An analysis with the audio that it found.
pub record IsReadable (a : Audio) : Type 0 where
  pub has_rate : 1 ≤ a.rate
  pub whole : (f : ℕ) → f < a.frames → is_some (sample_of a f) ≡ true
  pub in_ranges : AreRanges a.frames 100 (ranges a.frames)

unset-AreRanges : (frames n : ℕ) → AreRanges frames n (unset n)
unset-AreRanges frames zero = (refl, tt)
unset-AreRanges frames (suc n) = ground (arith, unset-AreRanges frames n)

ranges_from-AreRanges : (frames left b : ℕ) → AreRanges frames left (ranges_from frames left b)
unfolding ranges_from
ranges_from-AreRanges frames zero b = (refl, tt)
ranges_from-AreRanges frames (suc left) b =
    ground (arith, ranges_from-AreRanges frames left (b + 1), unset-AreRanges frames left)

read_bytes_within :
    (n : ℕ) (bytes : List ℕ) (off : ℕ)
    → off + n ≤ length bytes
    → is_some (read_bytes bytes off n) ≡ true
read_bytes_within zero bytes off h = refl
read_bytes_within (suc n) bytes off h =
    let (b, e) = get_elem?-lt off bytes (omega arith) in
    let ih = read_bytes_within n bytes (off + 1) (omega arith) in
    ap (λ o. is_some (cons_byte o (read_bytes bytes (off + 1) n))) e
    ∙ more b (read_bytes bytes (off + 1) n) ih
  where
    more : (b : ℕ) (o : Option (List ℕ)) → is_some o ≡ true → is_some (cons_byte (some b) o) ≡ true
    more b none h = h
    more b (some bs) h = refl

-- A frame that is counted lies within the bytes.
frame_within :
    (size frame len f : ℕ) → size ≤ frame → 1 ≤ frame → f < len / frame → f * frame + size ≤ len
frame_within size frame len f s p h =
    let up : suc f * frame ≤ len / frame * frame = mul-le-mul_right frame h in
    omega (arith, up, div-mul-le_self len frame)

-- A wave has a channel and a rate, whatever the file says.
abbrev IsWave : Wave → Type 0
IsWave w = (1 ≤ w.channels) × (1 ≤ w.rate)

read_chunk-IsWave : (id body : List ℕ) (w : Wave) → IsWave w → IsWave (read_chunk id body w)
unfolding read_chunk
read_chunk-IsWave id body w h =
    elim (Bool-cases (text_eq id (codes "fmt ") && leb 16 (length body))) [
      | inl e ↦ rw e (omega arith, omega arith)
      | inr e ↦ elim (Bool-cases (text_eq id (codes "data"))) [
        | inl d ↦ rw (e, d) h
        | inr d ↦ rw (e, d) h
      ]
    ]

abbrev IsWaveIf : Option Wave → Type 0
IsWaveIf none = Unit
IsWaveIf (some w) = IsWave w

walk_chunks-IsWave :
    (fuel : ℕ) (bytes : List ℕ) (pos : ℕ) (w : Wave)
    → IsWave w
    → IsWaveIf (walk_chunks fuel bytes pos w)
unfolding walk_chunks
walk_chunks-IsWave zero bytes pos w h = tt
walk_chunks-IsWave (suc fuel) bytes pos w h =
    let len = le32 bytes (pos + 4) in
    let id = slice bytes pos (pos + 4) in
    let body = slice bytes (pos + 8) (min (pos + 8 + len) (length bytes)) in
    elim (Bool-cases (leb (pos + 8) (length bytes))) [
      | inl e ↦ rw e (
          walk_chunks-IsWave fuel bytes (pos + 8 + len + len % 2) (read_chunk id body w)
            (read_chunk-IsWave id body w h))
      | inr e ↦ rw e h
    ]

-- An analysis that, if it found audio, found audio that can be read.
abbrev IsReadableIf : Analysis → Type 0
IsReadableIf (audio a) = IsReadable a
IsReadableIf _ = Unit

ranges-AreRanges : (frames : ℕ) → AreRanges frames 100 (ranges frames)
unfolding ranges
ranges-AreRanges frames = elim (Bool-cases (frames == 0)) [
  | inl e ↦ rw e (unset-AreRanges frames 100)
  | inr e ↦ rw e (ranges_from-AreRanges frames 100 0)
]

audio_of-IsReadable :
    (size : ℕ) (w : Wave) (bytes : List ℕ)
    → 1 ≤ size
    → IsWave w
    → IsReadableIf (audio_of size w bytes)
unfolding sample_of
audio_of-IsReadable size w bytes p h =
    let wide : size * 1 ≤ size * w.channels = mul-le-mul_left size h.0 in
    let one : size * 1 ≡ size = mul-one size in
    let pos : max (size * w.channels) 1 ≡ size * w.channels = omega arith in
    record {
      has_rate = h.1;
      whole = λ f l. read_bytes_within size bytes (f * (size * w.channels)) (
          frame_within size (size * w.channels) (length bytes) f (omega arith) (omega arith)
            (subst (λ d. f < length bytes / d) pos l));
      in_ranges = ranges-AreRanges (length bytes / max (size * w.channels) 1);
    }

audio_from-IsReadable : (o : Option Wave) → IsWaveIf o → IsReadableIf (audio_from o)
unfolding audio_from
audio_from-IsReadable none h = tt
audio_from-IsReadable (some w) h = elim (Option-cases w.samples) [
  | inl e ↦ rw e tt
  | inr (bytes, e) ↦ elim (Bool-cases (w.bits == 16)) [
    | inl b ↦ rw (e, b) (audio_of-IsReadable 2 w bytes (omega arith) h)
    | inr b ↦ elim (Bool-cases (w.bits == 32)) [
      | inl c ↦ rw (e, b, c) (audio_of-IsReadable 4 w bytes (omega arith) h)
      | inr c ↦ rw (e, b, c) tt
    ]
  ]
]

analysed : (bytes : List ℕ) → IsReadableIf (analyse_wav bytes)
unfolding analyse_wav
analysed bytes =
    elim (Bool-cases (
      ltb (length bytes) 12
      || not (text_eq (slice bytes 0 4) (codes "RIFF"))
      || not (text_eq (slice bytes 8 12) (codes "WAVE")))) [
        | inl e ↦ rw e tt
        | inr e ↦ rw e (
            let start : Wave = record { channels = 1; rate = 48000; bits = 16; samples = none } in
            audio_from-IsReadable (walk_chunks (suc (length bytes)) bytes 12 start)
              (walk_chunks-IsWave (suc (length bytes)) bytes 12 start (omega arith, omega arith)))
      ]

-- Where the reading of some bytes finds audio, whatever they are: the rate is not 0; the sample of
-- every frame that is counted lies whole within the audio's bytes; and each of the 100 points of the
-- loudness curve is at 0, or of frames that are counted, and of at least one.
pub analyse_wav-IsReadable :
    (bytes : List ℕ) (a : Audio) → analyse_wav bytes ≡ audio a → IsReadable a
analyse_wav-IsReadable bytes a h = subst IsReadableIf h (analysed bytes)

audio_from_ends : (o : Option Wave) → is_some o ≡ true → audio_from o ≢ endless
unfolding audio_from
audio_from_ends none h = absurd (cc)
audio_from_ends (some w) h = ground arith

-- The walk over the chunks ends on every input.
analyse_wav_ends : (bytes : List ℕ) → analyse_wav bytes ≢ endless
unfolding analyse_wav
analyse_wav_ends bytes =
    elim (Bool-cases (
      ltb (length bytes) 12
      || not (text_eq (slice bytes 0 4) (codes "RIFF"))
      || not (text_eq (slice bytes 8 12) (codes "WAVE")))) [
        | inl e ↦ rw e (λ x. cc)
        | inr e ↦ rw e (
            let start : Wave = record { channels = 1; rate = 48000; bits = 16; samples = none } in
            audio_from_ends (walk_chunks (suc (length bytes)) bytes 12 start)
              (walk_chunks_ends (suc (length bytes)) bytes 12 start (omega arith) (omega arith)))
      ]
