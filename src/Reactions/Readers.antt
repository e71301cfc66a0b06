-- ===== src/Reactions/Readers.antt =====
-- Who has read a message (src/core.rs: `read_by`).
use mathlib.Core.Path.{subst}
use omarchy_chatd.Base.{
  ◌≡◌, refl, sym, ap, ◌∙◌, inl, inr, Bool, true, false, not, ◌&&◌, ◌||◌, Option, none, some, List,
  [], ◌∷◌, ◌++◌, arith, if◌then◌else◌, Bool-cases, any, All, All-append, Text, text_eq, text_eq_iff,
}
use omarchy_chatd.Reactions.Tally.{is_me}
use omarchy_chatd.Reactions.ByKey.{text_eq_sym, IsDistinctKeys, snoc-IsDistinctKeys}

-- `ReceiptThread`.
pub data Thread : Type 0 where
  unthreaded main_thread : Thread
  thread : Text → Thread

-- `UserRef`.
pub record UserRef : Type 0 where
  pub id : Text
  pub name : Text

-- The threads that are looked at, by the thread that the message is in.
abbrev pub threads : Option Text → List Thread
threads none = unthreaded ∷ main_thread ∷ []
threads (some root) = unthreaded ∷ main_thread ∷ thread root ∷ []

abbrev pub is_reader : Text → List UserRef → Bool
is_reader u out = any (λ r. text_eq r.id u) out

-- One receipt.
unfoldable pub add_reader : (Text → Text) → Option Text → Text → List UserRef → List UserRef
add_reader name me u out =
    if is_me me u || is_reader u out then out else out ++ record { id = u; name = name u } ∷ []

abbrev pub add_readers : (Text → Text) → Option Text → List Text → List UserRef → List UserRef
add_readers name me [] out = out
add_readers name me (u ∷ us) out = add_readers name me us (add_reader name me u out)

-- The users with a receipt in a thread; a failed reading is passed over.
abbrev pub or_none : Option (List Text) → List Text
or_none none = []
or_none (some us) = us

abbrev pub over_threads :
    (Text → Text)
    → Option Text
    → (Thread → Option (List Text))
    → List Thread
    → List UserRef
    → List UserRef
over_threads name me receipts [] out = out
over_threads name me receipts (t ∷ ts) out =
    over_threads name me receipts ts (add_readers name me (or_none (receipts t)) out)

-- `read_by`; `parsed` says whether the event's id parses.
unfoldable pub read_by :
    (Text → Text) → Option Text → Bool → Option Text → (Thread → Option (List Text)) → List UserRef
unfolding add_reader
read_by name me parsed root receipts =
    if parsed then over_threads name me receipts (threads root) [] else []

ids : List UserRef → List Text
ids [] = []
ids (r ∷ rs) = r.id ∷ ids rs

-- Each once, never ourselves.
pub IsOnce : Option Text → List UserRef → Type 0
IsOnce me out = IsDistinctKeys (ids out) × All (λ r. is_me me r.id ≡ false) out

is_reader-snoc :
    (u : Text) (r : UserRef) (out : List UserRef)
    → is_reader u (out ++ r ∷ []) ≡ (is_reader u out || text_eq r.id u)
is_reader-snoc u r [] = ground arith
is_reader-snoc u r (s ∷ out) = ground (arith, is_reader-snoc u r out)

add_reader-is_reader :
    (name : Text → Text) (me : Option Text) (u v : Text) (out : List UserRef)
    → is_reader v (add_reader name me u out)
      ≡ (is_reader v out || (not (is_me me u) && text_eq u v))
unfolding add_reader
add_reader-is_reader name me u v out = elim (Bool-cases (text_eq u v)) [
  | inl e ↦
      let same : is_reader u out ≡ is_reader v out =
        ap (λ w. is_reader w out) ((text_eq_iff u v).0 e) in
      ground (arith, is_reader-snoc v (record { id = u; name = name u }) out)
  | inr e ↦ ground (arith, is_reader-snoc v (record { id = u; name = name u }) out)
]

is_me_same :
    (me : Option Text) (u v : Text)
    → (not (is_me me u) && text_eq u v) ≡ (not (is_me me v) && text_eq u v)
is_me_same me u v = elim (Bool-cases (text_eq u v)) [
  | inl e ↦ ap (λ w. not (is_me me w) && text_eq u v) ((text_eq_iff u v).0 e)
  | inr e ↦ ground arith
]

add_readers-is_reader :
    (name : Text → Text) (me : Option Text) (us : List Text) (v : Text) (out : List UserRef)
    → is_reader v (add_readers name me us out)
      ≡ (is_reader v out || (not (is_me me v) && any (λ u. text_eq u v) us))
add_readers-is_reader name me [] v out = ground arith
add_readers-is_reader name me (u ∷ us) v out = ground (
  arith,
  add_readers-is_reader name me us v (add_reader name me u out),
  add_reader-is_reader name me u v out,
  is_me_same me u v,
)

over_threads-is_reader :
    (name : Text → Text) (me : Option Text) (receipts : Thread → Option (List Text))
    (ts : List Thread) (v : Text) (out : List UserRef)
    → is_reader v (over_threads name me receipts ts out) ≡ (
        is_reader v out
        || (not (is_me me v) && any (λ t. any (λ u. text_eq u v) (or_none (receipts t))) ts))
over_threads-is_reader name me receipts [] v out = ground arith
over_threads-is_reader name me receipts (t ∷ ts) v out = ground (
  arith,
  over_threads-is_reader name me receipts ts v (add_readers name me (or_none (receipts t)) out),
  add_readers-is_reader name me (or_none (receipts t)) v out,
)

ids-any : (u : Text) (out : List UserRef) → any (text_eq u) (ids out) ≡ is_reader u out
unfolding ids
ids-any u [] = refl
ids-any u (r ∷ out) = ground (arith, ids-any u out, text_eq_sym u r.id)

ids-snoc : (r : UserRef) (out : List UserRef) → ids (out ++ r ∷ []) ≡ ids out ++ r.id ∷ []
unfolding ids
ids-snoc r [] = refl
ids-snoc r (s ∷ out) = ap (λ l. s.id ∷ l) (ids-snoc r out)

add_reader-IsOnce :
    (name : Text → Text) (me : Option Text) (u : Text) (out : List UserRef)
    → IsOnce me out
    → IsOnce me (add_reader name me u out)
unfolding add_reader IsOnce
add_reader-IsOnce name me u out (d, n) = elim (Bool-cases (is_me me u || is_reader u out)) [
  | inl e ↦ rw e (d, n)
  | inr e ↦
      let new : is_reader u out ≡ false = ground arith in
      let other : is_me me u ≡ false = ground arith in
      let r : UserRef = record { id = u; name = name u } in
      rw e (
        subst IsDistinctKeys (sym (ids-snoc r out))
            (snoc-IsDistinctKeys u (ids out) (ids-any u out ∙ new) d),
        All-append (λ s. is_me me s.id ≡ false) out (r ∷ []) n (other, tt),
      )
]

add_readers-IsOnce :
    (name : Text → Text) (me : Option Text) (us : List Text) (out : List UserRef)
    → IsOnce me out
    → IsOnce me (add_readers name me us out)
add_readers-IsOnce name me [] out h = h
add_readers-IsOnce name me (u ∷ us) out h =
    add_readers-IsOnce name me us (add_reader name me u out) (add_reader-IsOnce name me u out h)

over_threads-IsOnce :
    (name : Text → Text) (me : Option Text) (receipts : Thread → Option (List Text))
    (ts : List Thread) (out : List UserRef)
    → IsOnce me out
    → IsOnce me (over_threads name me receipts ts out)
over_threads-IsOnce name me receipts [] out h = h
over_threads-IsOnce name me receipts (t ∷ ts) out h =
    over_threads-IsOnce name me receipts ts (add_readers name me (or_none (receipts t)) out)
      (add_readers-IsOnce name me (or_none (receipts t)) out h)

-- The readers of a message whose id parses are the others with a receipt in one of its threads that
-- could be read, each once.
pub read_by-IsOnce :
    (name : Text → Text) (me : Option Text) (root : Option Text)
    (receipts : Thread → Option (List Text)) (v : Text)
    → let out = read_by name me true root receipts in
      IsOnce me out
      × (is_reader v out ≡ (
          not (is_me me v)
          && any (λ t. any (λ u. text_eq u v) (or_none (receipts t))) (threads root)))
unfolding read_by
read_by-IsOnce name me root receipts v = (
  over_threads-IsOnce name me receipts (threads root) [] (unfold IsOnce ids in (tt, tt)),
  over_threads-is_reader name me receipts (threads root) v [],
)
