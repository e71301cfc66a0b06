-- ===== src/Connection/Drained.antt =====
-- A connection whose writer lives answers all that it has read (src/main.rs: `handle_conn`).
use omarchy_chatd.Connection.Flight.{
  Task, handling, sending, Line, response, Flight, greeted, acquire_permit, acquire, remove,
  replace, end_task, respond_task, respond, send_task, send, write_next, write, responses,
}
use omarchy_chatd.Connection.Answered.{
  Step, Reach, count, places, IsFlight, Step-IsFlight, Reach-IsFlight, greeted-IsFlight,
}
use omarchy_chatd.Base.{
  ℕ, zero, suc, ◌+◌, ◌≤◌, ◌≡◌, refl, sym, ap, ◌∙◌, ◌⊎◌, inl, inr, true, Option, none, some, List,
  [], ◌∷◌, ◌++◌, arith, ltb, if◌then◌else◌, length, get_elem?, length-append, Text,
}

-- A step that the connection makes by itself, where the core responds to every request with a text.
pub data Own (core : ℕ → Text) (s : Flight) : Flight → Type 0 where
  acquires : {t : Flight} → acquire s ≡ some t → Own core s t
  responds :
      {t : Flight} (k i : ℕ)
      → get_elem? s.running k ≡ some (handling i)
      → respond k (some (core i)) s ≡ some t
      → Own core s t
  sends : {t : Flight} (k : ℕ) → send k s ≡ some t → Own core s t
  writes : {t : Flight} → write s ≡ some t → Own core s t

-- A run of such steps, with their number.
pub data Run (core : ℕ → Text) (s : Flight) : ℕ → Flight → Type 0 where
  start : Run core s 0 s
  then_own : {n : ℕ} {t u : Flight} → Run core s n t → Own core t u → Run core s (suc n) u

-- The steps that are left to a task, and to the connection.
abbrev cost : Task → ℕ
cost (handling i) = 3
cost (sending i line) = 2

abbrev costs : List Task → ℕ
costs [] = 0
costs (t ∷ ts) = cost t + costs ts

abbrev pending : Option ℕ → ℕ
pending none = 0
pending (some i) = 4

pub work : Flight → ℕ
work s = pending s.waiting + costs s.running + length s.channel

costs-append : (ts us : List Task) → costs (ts ++ us) ≡ costs ts + costs us
costs-append [] us = omega arith
costs-append (t ∷ ts) us = omega (arith, costs-append ts us)

costs-remove :
    (k : ℕ) (t : Task) (ts : List Task)
    → get_elem? ts k ≡ some t
    → costs ts ≡ cost t + costs (remove k ts)
unfolding remove
costs-remove k t [] e = cc
costs-remove zero t (x ∷ ts) e = let same : x ≡ t = cc in rw (← same) refl
costs-remove (suc k) t (x ∷ ts) e = omega (arith, costs-remove k t ts e)

costs-replace :
    (k : ℕ) (t u : Task) (ts : List Task)
    → get_elem? ts k ≡ some t
    → costs (replace k u ts) + cost t ≡ costs ts + cost u
unfolding replace
costs-replace k t u [] e = cc
costs-replace zero t u (x ∷ ts) e = let same : x ≡ t = cc in rw same (omega arith)
costs-replace (suc k) t u (x ∷ ts) e = omega (arith, costs-replace k t u ts e)

-- What an own step of a live connection does: it reads nothing, loses nothing, and leaves less work.
record IsOwn (s t : Flight) : Type 0 where
  lives : t.writing ≡ true
  keeps : t.lost ≡ s.lost
  reads_none : t.next ≡ s.next
  less : suc (work t) ≤ work s

acquire_permit-IsOwn :
    {s t : Flight} (o : Option ℕ) (n : ℕ)
    → s.waiting ≡ o
    → acquire_permit s o n ≡ some t
    → s.writing ≡ true
    → IsOwn s t
unfolding acquire_permit work
acquire_permit-IsOwn none n w e l = cc
acquire_permit-IsOwn (some i) zero w e l = cc
acquire_permit-IsOwn {s} (some i) (suc n) w e l = record {
  lives = ground arith;
  keeps = ground arith;
  reads_none = ground arith;
  less = ground (arith, costs-append s.running (handling i ∷ []));
}

respond_task-IsOwn :
    {s t : Flight} (k i : ℕ) (line : Text)
    → get_elem? s.running k ≡ some (handling i)
    → respond_task k (some line) s (some (handling i)) ≡ some t
    → s.writing ≡ true
    → IsOwn s t
unfolding respond_task work
respond_task-IsOwn {s} k i line g e l = record {
  lives = ground arith;
  keeps = ground arith;
  reads_none = ground arith;
  less = ground (arith, costs-replace k (handling i) (sending i line) s.running g);
}

send_task-IsOwn :
    {s t : Flight} (k : ℕ) (o : Option Task)
    → get_elem? s.running k ≡ o
    → send_task k s o ≡ some t
    → s.writing ≡ true
    → IsOwn s t
unfolding send_task end_task work
send_task-IsOwn k none g e l = cc
send_task-IsOwn k (some (handling i)) g e l = cc
send_task-IsOwn {s} k (some (sending i line)) g e l = record {
  lives = ground arith;
  keeps = ground arith;
  reads_none = ground arith;
  less = ground (
    arith,
    costs-remove k (sending i line) s.running g,
    length-append s.channel (response i line ∷ []),
  );
}

write_next-IsOwn :
    {s t : Flight} (lines : List Line)
    → s.channel ≡ lines
    → write_next s lines ≡ some t
    → s.writing ≡ true
    → IsOwn s t
unfolding write_next work
write_next-IsOwn [] c e l = cc
write_next-IsOwn {s} (line ∷ lines) c e l = record {
  lives = ground arith;
  keeps = ground arith;
  reads_none = ground arith;
  less = ground arith;
}

Own-IsOwn : {core : ℕ → Text} {s t : Flight} → Own core s t → s.writing ≡ true → IsOwn s t
unfolding acquire respond send write
Own-IsOwn {s = s} (acquires e) l = acquire_permit-IsOwn s.waiting s.permits refl e l
Own-IsOwn {core} {s} {t} (responds k i g e) l =
    respond_task-IsOwn k i (core i) g (ap (respond_task k (some (core i)) s) (sym g) ∙ e) l
Own-IsOwn {s = s} (sends k e) l = send_task-IsOwn k (get_elem? s.running k) refl e l
Own-IsOwn {s = s} (writes e) l = write_next-IsOwn s.channel refl e l

Own-Step : {core : ℕ → Text} {s t : Flight} → Own core s t → Step s t
Own-Step (acquires e) = Step.acquires e
Own-Step {core} (responds k i g e) = Step.responds k (some (core i)) e
Own-Step (sends k e) = Step.sends k e
Own-Step (writes e) = Step.writes e

-- Every request read has its response among the lines written, once, and nothing else has.
abbrev pub IsAnswered : Flight → Type 0
IsAnswered s = (i : ℕ) → count i (responses s.written) ≡ (if ltb i s.next then 1 else 0)

-- A live connection has answered all, or makes a step by itself.
progress_with :
    (core : ℕ → Text) (s : Flight) (lines : List Line) (tasks : List Task) (o : Option ℕ)
    → s.channel ≡ lines
    → s.running ≡ tasks
    → s.waiting ≡ o
    → IsFlight s
    → s.writing ≡ true
    → s.lost ≡ []
    → IsAnswered s ⊎ ((u : Flight) × Own core s u)
unfolding places responses write respond send acquire
progress_with core s (line ∷ lines) tasks o c r w v l n =
    inr
      (record s { channel = lines; written = s.written ++ line ∷ [] }, writes (ap (write_next s) c))
progress_with core s [] (handling i ∷ tasks) o c r w v l n =
    let g : get_elem? s.running 0 ≡ some (handling i) = rw r refl in
    inr (
      record s { running = replace 0 (sending i (core i)) s.running },
      responds 0 i g (ap (respond_task 0 (some (core i)) s) g),
    )
progress_with core s [] (sending i line ∷ tasks) o c r w v l n =
    let g : get_elem? s.running 0 ≡ some (sending i line) = rw r refl in
    inr (
      record (end_task 0 s) { channel = s.channel ++ response i line ∷ [] },
      sends 0 (ap (send_task 0 s) g ∙ ground arith),
    )
progress_with core s [] [] (some i) c r w v l n =
    let p : s.permits ≡ suc 7 = omega (arith, v.conserved, ap length r) in
    inr (
      record s { waiting = none; permits = 7; running = s.running ++ handling i ∷ [] },
      acquires (ap (λ o. acquire_permit s o s.permits) w ∙ ap (acquire_permit s (some i)) p),
    )
progress_with core s [] [] none c r w v l n = inl (λ i. ground (arith, v.once i))

pub Run-IsOwn :
    {core : ℕ → Text} {s t : Flight} {n : ℕ}
    → Run core s n t
    → IsFlight s
    → s.writing ≡ true
    → IsFlight t
      × (t.writing ≡ true)
      × (t.lost ≡ s.lost)
      × (t.next ≡ s.next)
      × (n + work t ≤ work s)
Run-IsOwn start v l = (v, l, refl, refl, omega arith)
Run-IsOwn (then_own r o) v l =
    let (v', l', k, x, b) = Run-IsOwn r v l in
    let q = Own-IsOwn o l' in
    (Step-IsFlight (Own-Step o) v', q.lives, q.keeps ∙ k, q.reads_none ∙ x, omega (arith, q.less))

-- While its writer lives and the core responds, a connection is never stuck, whatever it has queued:
-- from any state reached in which no response was lost, its own steps in any order are at most as
-- many as its work, and where they end every request read has exactly one response written.
pub answers_all :
    (core : ℕ → Text) (line : Text) {s t : Flight} {n : ℕ}
    → Reach (greeted line) s
    → s.writing ≡ true
    → s.lost ≡ []
    → Run core s n t
    → (n + work t ≤ work s) × (t.next ≡ s.next) × (IsAnswered t ⊎ ((u : Flight) × Own core t u))
answers_all core line {s} {t} reach l none_lost run =
    let (v, l', k, x, b) = Run-IsOwn run (Reach-IsFlight (greeted-IsFlight line) reach) l in
    (b, x, progress_with core t t.channel t.running t.waiting refl refl refl v l' (k ∙ none_lost))
