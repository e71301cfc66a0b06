-- ===== src/Media/Extension.antt =====
-- The extension of a cached attachment (src/media.rs: `safe_extension`). `mime2ext` and the sniffing
-- of images are other crates' and arguments here, as is `file_extension`, the extension of a file
-- name in lower case.
use mathlib.Core.Path.{subst}
use omarchy_chatd.Base.{
  ◌≡◌, refl, sym, inl, inr, Bool, true, ◌||◌, Option, none, some, List, [], ◌∷◌, arith,
  if◌then◌else◌, Bool-cases, or_else, any, Text, codes, text_eq, text_eq_refl,
}

abbrev pub images : List Text
images =
    codes "png"
    ∷ codes "jpg"
    ∷ codes "jpeg"
    ∷ codes "gif"
    ∷ codes "webp"
    ∷ codes "avif"
    ∷ codes "bmp"
    ∷ []

abbrev pub audio : List Text
audio =
    codes "ogg"
    ∷ codes "oga"
    ∷ codes "opus"
    ∷ codes "mp3"
    ∷ codes "m4a"
    ∷ codes "aac"
    ∷ codes "flac"
    ∷ codes "wav"
    ∷ []

abbrev pub video : List Text
video = codes "mp4" ∷ codes "webm" ∷ codes "mkv" ∷ codes "mov" ∷ codes "m4v" ∷ []

abbrev pub files : List Text
files =
    codes "pdf"
    ∷ codes "txt"
    ∷ codes "md"
    ∷ codes "zip"
    ∷ codes "tar"
    ∷ codes "gz"
    ∷ codes "xz"
    ∷ codes "zst"
    ∷ codes "7z"
    ∷ codes "csv"
    ∷ codes "json"
    ∷ codes "log"
    ∷ codes "odt"
    ∷ codes "ods"
    ∷ codes "odp"
    ∷ codes "docx"
    ∷ codes "xlsx"
    ∷ codes "pptx"
    ∷ codes "epub"
    ∷ []

-- The list of a kind.
unfoldable pub allowed : Text → List Text
allowed kind =
    if text_eq kind (codes "image")
    then images
    else (if text_eq kind (codes "audio")
        then audio
        else (if text_eq kind (codes "video") then video else files))

abbrev pub is_listed : List Text → Text → Bool
is_listed xs e = any (text_eq e) xs

abbrev and_then : {A B : Type 0} → Option A → (A → Option B) → Option B
and_then none f = none
and_then (some a) f = f a

-- A candidate that is on the list, or `bin`.
unfoldable pub pick : List Text → Option Text → Text
pick xs none = codes "bin"
pick xs (some e) = if is_listed xs e then e else codes "bin"

-- `safe_extension`.
unfoldable pub safe_extension :
    (Text → Option Text) → (Text → Option Text) → Text → Option Text → Option Text → Text → Text
unfolding pick allowed
safe_extension mime2ext file_extension kind sniffed mime filename =
    if text_eq kind (codes "image")
    then pick images (and_then sniffed mime2ext)
    else pick (allowed kind) (or_else (and_then mime mime2ext) (file_extension filename))

either : (a b : Bool) → b ≡ true → (a || b) ≡ true
either a b h = ground arith

pick-is_listed :
    (xs : List Text) (o : Option Text) → is_listed (codes "bin" ∷ xs) (pick xs o) ≡ true
unfolding pick
pick-is_listed xs none = rw (text_eq_refl (codes "bin")) refl
pick-is_listed xs (some e) = elim (Bool-cases (is_listed xs e)) [
  | inl h ↦
      let picked : pick xs (some e) ≡ e = rw h refl in
      subst (λ t. is_listed (codes "bin" ∷ xs) t ≡ true) (sym picked)
        (either (text_eq e (codes "bin")) (is_listed xs e) h)
  | inr h ↦ rw h (rw (text_eq_refl (codes "bin")) refl)
]

-- The extension is picked from the list of the kind.
safe_extension-pick :
    (mime2ext file_extension : Text → Option Text) (kind : Text) (sniffed mime : Option Text)
    (filename : Text)
    → (o : Option Text) × (safe_extension mime2ext file_extension kind sniffed mime filename
        ≡ pick (allowed kind) o)
unfolding safe_extension
safe_extension-pick mime2ext file_extension kind sniffed mime filename =
    elim (Bool-cases (text_eq kind (codes "image"))) [
      | inl e ↦ (and_then sniffed mime2ext, rw e refl)
      | inr e ↦ (or_else (and_then mime mime2ext) (file_extension filename), rw e refl)
    ]

-- Whatever the sender declares, the extension is `bin` or on the list of the kind; and that of an
-- image depends on its bytes alone.
pub safe_extension_lem :
    (mime2ext file_extension : Text → Option Text) (kind : Text) (sniffed mime mime' : Option Text)
    (filename filename' : Text)
    → let e = safe_extension mime2ext file_extension kind sniffed mime filename in
      (is_listed (codes "bin" ∷ allowed kind) e ≡ true)
      × (safe_extension mime2ext file_extension (codes "image") sniffed mime filename
          ≡ safe_extension mime2ext file_extension (codes "image") sniffed mime' filename')
safe_extension_lem mime2ext file_extension kind sniffed mime mime' filename filename' =
    let (o, e) = safe_extension-pick mime2ext file_extension kind sniffed mime filename in
    (
      subst (λ t. is_listed (codes "bin" ∷ allowed kind) t ≡ true) (sym e)
          (pick-is_listed (allowed kind) o),
      unfold safe_extension in rw (text_eq_refl (codes "image")) refl,
    )
