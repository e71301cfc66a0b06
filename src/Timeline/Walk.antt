-- ===== src/Timeline/Walk.antt =====
-- What the walk over a page takes (src/core.rs: the second half of `timeline`).
use omarchy_chatd.Base.{
  ℕ, suc, ◌+◌, ◌≤◌, ◌<◌, ◌≡◌, refl, sym, ap, ◌∙◌, ◌⊎◌, inl, inr, Bool, true, false, not, ◌&&◌, List,
  [], ◌∷◌, ◌++◌, arith, leb, leb→le, Bool-cases, is_some, length, take, keep,
}
use mathlib.Core.List.{append-nil, append_assoc}
use omarchy_chatd.Timeline.Events.{Event, is_message_like}
use omarchy_chatd.Timeline.Page.{text_of, Walk, walk_from}

-- An event that becomes a line: no redaction, and one that is shown.
abbrev pub shows : (Event → Bool) → Event → Bool
shows is_shown ev = not (is_some ev.redacts) && is_shown ev

-- A line of the room.
abbrev pub is_line : Event → Bool
is_line ev = shows is_message_like ev

module _ (is_shown : Event → Bool) where
  -- The walk from `acc` over `evs` to `acc'` consumes the first `taken` events, gathers the lines
  -- among them in order, and stops only when the page is full or nothing is left.
  pub record IsWalked (limit : ℕ) (evs : List Event) (acc acc' : Walk) : Type 0 where
    pub taken : ℕ
    pub within : taken ≤ length evs
    pub consumed : acc'.consumed ≡ acc.consumed + taken
    pub gathered : acc'.to_convert ≡ acc.to_convert ++ keep (shows is_shown) (take taken evs)
    pub counted : acc'.messages ≡ acc.messages + length (keep (shows is_shown) (take taken evs))
    pub ended : (limit ≤ acc'.messages) ⊎ (taken ≡ length evs)
    pub bounded : acc.messages ≤ limit → acc'.messages ≤ limit

  -- One event that is no line, before a walk.
  IsWalked-other :
      (limit : ℕ) (ev : Event) (evs : List Event) (acc next end : Walk)
      → shows is_shown ev ≡ false
      → acc.messages < limit
      → next.to_convert ≡ acc.to_convert
      → next.consumed ≡ acc.consumed + 1
      → next.messages ≡ acc.messages
      → IsWalked limit evs next end
      → IsWalked limit (ev ∷ evs) acc end
  IsWalked-other limit ev evs acc next end l m t c n w = record {
    taken = suc w.taken;
    within = omega arith;
    consumed = omega (arith, w.consumed);
    gathered = rw l (w.gathered ∙ ap (λ r. r ++ keep (shows is_shown) (take w.taken evs)) t);
    counted = rw l (omega (arith, w.counted));
    ended = ground (arith, w.ended);
    bounded = λ h. w.bounded (omega arith);
  }

  -- One line, before a walk.
  IsWalked-line :
      (limit : ℕ) (ev : Event) (evs : List Event) (acc next end : Walk)
      → shows is_shown ev ≡ true
      → acc.messages < limit
      → next.to_convert ≡ acc.to_convert ++ ev ∷ []
      → next.consumed ≡ acc.consumed + 1
      → next.messages ≡ acc.messages + 1
      → IsWalked limit evs next end
      → IsWalked limit (ev ∷ evs) acc end
  IsWalked-line limit ev evs acc next end l m t c n w = record {
    taken = suc w.taken;
    within = omega arith;
    consumed = omega (arith, w.consumed);
    gathered = rw l (
        w.gathered
        ∙ ap (λ r. r ++ keep (shows is_shown) (take w.taken evs)) t
        ∙ append_assoc acc.to_convert (ev ∷ []) (keep (shows is_shown) (take w.taken evs)));
    counted = rw l (omega (arith, w.counted));
    ended = ground (arith, w.ended);
    bounded = λ h. w.bounded (omega arith);
  }

  pub walk_from-IsWalked :
      (limit : ℕ) (evs : List Event) (acc : Walk)
      → IsWalked limit evs acc (walk_from is_shown limit evs acc)
  unfolding walk_from
  walk_from-IsWalked limit [] acc = record {
    taken = 0;
    within = omega arith;
    consumed = omega arith;
    gathered = sym (append-nil _);
    counted = omega arith;
    ended = inr refl;
    bounded = λ h. h;
  }
  walk_from-IsWalked limit (ev ∷ evs) acc = elim (Bool-cases (leb limit acc.messages)) [
    | inl full ↦ rw full (record {
      taken = 0;
      within = omega arith;
      consumed = omega arith;
      gathered = sym (append-nil _);
      counted = omega arith;
      ended = inl (leb→le _ _ full);
      bounded = λ h. h;
    })
    | inr room ↦ elim (Bool-cases (is_some ev.redacts)) [
      | inl r ↦
          rw (room, r)
            (IsWalked-other limit ev evs acc _ _ (rw r) (ground arith) refl refl refl (
              walk_from-IsWalked limit evs (record acc {
                redacted = text_of ev.redacts ∷ acc.redacted;
                consumed = acc.consumed + 1;
              })))
      | inr n ↦ elim (Bool-cases (is_shown ev)) [
        | inl l ↦
            rw (room, n, l)
              (IsWalked-line limit ev evs acc _ _ (rw (n, l)) (ground arith) refl refl refl (
                walk_from-IsWalked limit evs (record acc {
                  to_convert = acc.to_convert ++ ev ∷ [];
                  consumed = acc.consumed + 1;
                  messages = acc.messages + 1;
                })))
        | inr o ↦
            rw (room, n, o)
              (IsWalked-other limit ev evs acc _ _ (rw (n, o)) (ground arith) refl refl refl
                (walk_from-IsWalked limit evs (record acc { consumed = acc.consumed + 1 })))
      ]
    ]
  ]
