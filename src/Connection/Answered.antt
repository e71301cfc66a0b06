-- ===== src/Connection/Answered.antt =====
-- What the runs of a connection keep, and that it answers every request (src/main.rs:
-- `handle_conn`).
use omarchy_chatd.Connection.Flight.{
  max_in_flight, channel_capacity, Task, handling, sending, Line, response, event, Flight, greeted,
  read_request, stop_reading, acquire_permit, acquire, remove, replace, end_task, respond_task,
  respond, send_task, send, push_event, write_next, write, responses, fail_write,
}
use omarchy_chatd.Base.{
  ℕ, zero, suc, ◌+◌, ◌≤◌, ◌≡◌, refl, false, Option, none, some, List, [], ◌∷◌, ◌++◌, arith, ltb,
  ◌==◌, if◌then◌else◌, length, get_elem?, length-append, Text,
}

-- One step of a connection: of its client and the core, or of its own tasks and its writer.
pub data Step (s : Flight) : Flight → Type 0 where
  reads : {t : Flight} → read_request s ≡ some t → Step s t
  stops : {t : Flight} → stop_reading s ≡ some t → Step s t
  acquires : {t : Flight} → acquire s ≡ some t → Step s t
  responds : {t : Flight} (k : ℕ) (answer : Option Text) → respond k answer s ≡ some t → Step s t
  sends : {t : Flight} (k : ℕ) → send k s ≡ some t → Step s t
  pushes : {t : Flight} (line : Text) → push_event line s ≡ some t → Step s t
  writes : {t : Flight} → write s ≡ some t → Step s t
  breaks : {t : Flight} → fail_write s ≡ some t → Step s t

pub data Reach (s : Flight) : Flight → Type 0 where
  here : Reach s s
  further : {t u : Flight} → Reach s t → Step t u → Reach s u

-- How often a number is in a list.
abbrev pub count : ℕ → List ℕ → ℕ
count i [] = 0
count i (j ∷ js) = (if j == i then 1 else 0) + count i js

abbrev pub request_of : Task → ℕ
request_of (handling i) = i
request_of (sending i line) = i

abbrev pub count_option : ℕ → Option ℕ → ℕ
count_option i none = 0
count_option i (some j) = if j == i then 1 else 0

abbrev pub tasks_of : ℕ → List Task → ℕ
tasks_of i [] = 0
tasks_of i (t ∷ ts) = (if request_of t == i then 1 else 0) + tasks_of i ts

-- In how many places a request is.
unfoldable pub places : ℕ → Flight → ℕ
places i s =
    count_option i s.waiting
    + tasks_of i s.running
    + count i (responses s.channel)
    + count i (responses s.written)
    + count i s.lost

-- Of the 8 permits each is free or held by one task; the channel is within its capacity; each
-- request read is in one place, and no other is in any.
pub record IsFlight (s : Flight) : Type 0 where
  pub conserved : s.permits + length s.running ≡ max_in_flight
  pub within : length s.channel ≤ channel_capacity
  pub once : (i : ℕ) → places i s ≡ (if ltb i s.next then 1 else 0)
  pub cut_off : s.writing ≡ false → s.channel ≡ []

count-append : (i : ℕ) (xs ys : List ℕ) → count i (xs ++ ys) ≡ count i xs + count i ys
count-append i [] ys = omega arith
count-append i (x ∷ xs) ys = omega (arith, count-append i xs ys)

tasks_of-append :
    (i : ℕ) (xs ys : List Task) → tasks_of i (xs ++ ys) ≡ tasks_of i xs + tasks_of i ys
tasks_of-append i [] ys = omega arith
tasks_of-append i (x ∷ xs) ys = omega (arith, tasks_of-append i xs ys)

responses-append :
    (i : ℕ) (xs ys : List Line)
    → count i (responses (xs ++ ys)) ≡ count i (responses xs) + count i (responses ys)
unfolding responses
responses-append i [] ys = omega arith
responses-append i (response j line ∷ xs) ys = omega (arith, responses-append i xs ys)
responses-append i (event line ∷ xs) ys = responses-append i xs ys

-- Removing the task at a place, and replacing it by one of the same request.
record IsRemoved (k : ℕ) (t : Task) (ts : List Task) : Type 0 where
  fewer : length ts ≡ suc (length (remove k ts))
  held : (i : ℕ) → tasks_of i ts ≡ (if request_of t == i then 1 else 0) + tasks_of i (remove k ts)

remove-IsRemoved : (k : ℕ) (t : Task) (ts : List Task) → get_elem? ts k ≡ some t → IsRemoved k t ts
unfolding remove
remove-IsRemoved k t [] e = cc
remove-IsRemoved zero t (x ∷ ts) e =
    let same : x ≡ t = cc in record { fewer = refl; held = λ i. rw (← same) refl }
remove-IsRemoved (suc k) t (x ∷ ts) e =
    let ih = remove-IsRemoved k t ts e in
    record { fewer = omega (arith, ih.fewer); held = λ i. omega (arith, ih.held i) }

record IsReplaced (k : ℕ) (u : Task) (ts : List Task) : Type 0 where
  same_length : length (replace k u ts) ≡ length ts
  same_held : (i : ℕ) → tasks_of i (replace k u ts) ≡ tasks_of i ts

replace-IsReplaced :
    (k : ℕ) (t u : Task) (ts : List Task)
    → get_elem? ts k ≡ some t
    → request_of u ≡ request_of t
    → IsReplaced k u ts
unfolding replace
replace-IsReplaced k t u [] e r = cc
replace-IsReplaced zero t u (x ∷ ts) e r =
    let same : x ≡ t = cc in record { same_length = refl; same_held = λ i. rw (same, r) refl }
replace-IsReplaced (suc k) t u (x ∷ ts) e r =
    let ih = replace-IsReplaced k t u ts e r in
    record {
      same_length = omega (arith, ih.same_length);
      same_held = λ i. omega (arith, ih.same_held i);
    }

read-IsFlight : {s t : Flight} → read_request s ≡ some t → IsFlight s → IsFlight t
unfolding read_request places
read-IsFlight {s} {t} e v = record {
  conserved = ground (arith, v.conserved);
  within = ground (arith, v.within);
  once = λ i. ground (arith, v.once i);
  cut_off = ground (arith, v.cut_off);
}

stop-IsFlight : {s t : Flight} → stop_reading s ≡ some t → IsFlight s → IsFlight t
unfolding stop_reading places
stop-IsFlight {s} {t} e v = record {
  conserved = ground (arith, v.conserved);
  within = ground (arith, v.within);
  once = λ i. ground (arith, v.once i);
  cut_off = ground (arith, v.cut_off);
}

acquire_permit-IsFlight :
    {s t : Flight} (o : Option ℕ) (n : ℕ)
    → s.waiting ≡ o
    → s.permits ≡ n
    → acquire_permit s o n ≡ some t
    → IsFlight s
    → IsFlight t
unfolding acquire_permit places
acquire_permit-IsFlight {s} none n w p e v = cc
acquire_permit-IsFlight {s} (some i) zero w p e v = cc
acquire_permit-IsFlight {s} (some i) (suc n) w p e v = record {
  conserved = ground (arith, v.conserved, length-append s.running (handling i ∷ []));
  within = ground (arith, v.within);
  once = λ j. ground (arith, v.once j, tasks_of-append j s.running (handling i ∷ []));
  cut_off = ground (arith, v.cut_off);
}

respond_task-IsFlight :
    {s t : Flight} (k : ℕ) (answer : Option Text) (o : Option Task)
    → get_elem? s.running k ≡ o
    → respond_task k answer s o ≡ some t
    → IsFlight s
    → IsFlight t
unfolding respond_task end_task places
respond_task-IsFlight {s} k (some line) (some (handling i)) g e v =
    let r = replace-IsReplaced k (handling i) (sending i line) s.running g refl in
    record {
      conserved = ground (arith, v.conserved, r.same_length);
      within = ground (arith, v.within);
      once = λ j. ground (arith, v.once j, r.same_held j);
      cut_off = ground (arith, v.cut_off);
    }
respond_task-IsFlight {s} k none (some (handling i)) g e v =
    let r = remove-IsRemoved k (handling i) s.running g in
    record {
      conserved = ground (arith, v.conserved, r.fewer);
      within = ground (arith, v.within);
      once = λ j. ground (arith, v.once j, r.held j);
      cut_off = ground (arith, v.cut_off);
    }
respond_task-IsFlight {s} k (some line) (some (sending i l)) g e v = cc
respond_task-IsFlight {s} k none (some (sending i l)) g e v = cc
respond_task-IsFlight {s} k (some line) none g e v = cc
respond_task-IsFlight {s} k none none g e v = cc

send_task-IsFlight :
    {s t : Flight} (k : ℕ) (o : Option Task)
    → get_elem? s.running k ≡ o
    → send_task k s o ≡ some t
    → IsFlight s
    → IsFlight t
unfolding send_task end_task places responses
send_task-IsFlight {s} k none g e v = cc
send_task-IsFlight {s} k (some (handling i)) g e v = cc
send_task-IsFlight {s} k (some (sending i line)) g e v =
    let r = remove-IsRemoved k (sending i line) s.running g in
    record {
      conserved = ground (arith, v.conserved, r.fewer);
      within = ground (arith, v.within, length-append s.channel (response i line ∷ []));
      once = λ j.
          ground (arith, v.once j, r.held j, responses-append j s.channel (response i line ∷ []));
      cut_off = ground (arith, v.cut_off);
    }

push-IsFlight : {s t : Flight} (line : Text) → push_event line s ≡ some t → IsFlight s → IsFlight t
unfolding push_event places responses
push-IsFlight {s} line e v = record {
  conserved = ground (arith, v.conserved);
  within = ground (arith, v.within, length-append s.channel (event line ∷ []));
  once = λ j. ground (arith, v.once j, responses-append j s.channel (event line ∷ []));
  cut_off = ground (arith, v.cut_off);
}

write_next-IsFlight :
    {s t : Flight} (lines : List Line)
    → s.channel ≡ lines
    → write_next s lines ≡ some t
    → IsFlight s
    → IsFlight t
unfolding write_next places responses
write_next-IsFlight {s} [] c e v = cc
write_next-IsFlight {s} (response i line ∷ lines) c e v = record {
  conserved = ground (arith, v.conserved);
  within = ground (arith, v.within);
  once = λ j. ground (arith, v.once j, responses-append j s.written (response i line ∷ []));
  cut_off = ground (arith, v.cut_off);
}
write_next-IsFlight {s} (event line ∷ lines) c e v = record {
  conserved = ground (arith, v.conserved);
  within = ground (arith, v.within);
  once = λ j. ground (arith, v.once j, responses-append j s.written (event line ∷ []));
  cut_off = ground (arith, v.cut_off);
}

fail-IsFlight : {s t : Flight} → fail_write s ≡ some t → IsFlight s → IsFlight t
unfolding fail_write places responses
fail-IsFlight {s} e v = record {
  conserved = ground (arith, v.conserved);
  within = ground (arith, v.within);
  once = λ j. ground (arith, v.once j, count-append j (responses s.channel) s.lost);
  cut_off = ground (arith, v.cut_off);
}

pub Step-IsFlight : {s t : Flight} → Step s t → IsFlight s → IsFlight t
unfolding acquire respond send write
Step-IsFlight (reads e) v = read-IsFlight e v
Step-IsFlight (stops e) v = stop-IsFlight e v
Step-IsFlight {s} (acquires e) v = acquire_permit-IsFlight s.waiting s.permits refl refl e v
Step-IsFlight {s} (responds k answer e) v =
    respond_task-IsFlight k answer (get_elem? s.running k) refl e v
Step-IsFlight {s} (sends k e) v = send_task-IsFlight k (get_elem? s.running k) refl e v
Step-IsFlight (pushes line e) v = push-IsFlight line e v
Step-IsFlight {s} (writes e) v = write_next-IsFlight s.channel refl e v
Step-IsFlight (breaks e) v = fail-IsFlight e v

pub Reach-IsFlight : {s t : Flight} → IsFlight s → Reach s t → IsFlight t
Reach-IsFlight v here = v
Reach-IsFlight v (further r st) = Step-IsFlight st (Reach-IsFlight v r)

pub greeted-IsFlight : (line : Text) → IsFlight (greeted line)
unfolding greeted places responses
greeted-IsFlight line = record {
  conserved = refl;
  within = omega arith;
  once = λ i. ground arith;
  cut_off = λ h. cc;
}

-- Whatever the client, the core and the tasks do: at most 8 requests of a connection run at once, at
-- most 64 lines wait for its writer, and no request is answered twice or without having been read.
pub greeted_bounds :
    (line : Text) {t : Flight}
    → Reach (greeted line) t
    → (length t.running ≤ max_in_flight)
      × (length t.channel ≤ channel_capacity)
      × ((i : ℕ) → count i (responses t.written) ≤ (if ltb i t.next then 1 else 0))
unfolding places
greeted_bounds line {t} r =
    let v = Reach-IsFlight (greeted-IsFlight line) r in
    (omega (arith, v.conserved), v.within, λ i. omega (arith, v.once i))
