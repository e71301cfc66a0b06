-- ===== src/Connection/Flight.antt =====
-- The requests of one connection that run at once, and the lines that go back to the client
-- (src/main.rs: `handle_conn`, its tasks, its writer and its pusher of events).
use omarchy_chatd.Base.{
  ℕ, zero, suc, ◌+◌, Bool, true, false, not, ◌&&◌, Option, none, some, List, [], ◌∷◌, ◌++◌, ltb,
  if◌then◌else◌, is_some, length, get_elem?, Text,
}

-- `MAX_IN_FLIGHT`, and the capacity of the channel to the writer.
abbrev pub max_in_flight : ℕ
max_in_flight = 8

abbrev pub channel_capacity : ℕ
channel_capacity = 64

-- The task of a request, by the number of its line: it waits for the core's response, or for room in
-- the channel. It holds its permit until it ends.
pub data Task : Type 0 where
  handling : ℕ → Task
  sending : ℕ → Text → Task

-- A line for the client: the response to a request, or an event.
pub data Line : Type 0 where
  response : ℕ → Text → Line
  event : Text → Line

-- A connection after its greeting is queued: how many requests were read, the one that waits for a
-- permit, the free permits of the semaphore, the tasks that run, the lines in the channel and those
-- written, and the requests whose response went nowhere; then whether the writer and the reading
-- loop still run.
pub record Flight : Type 0 where
  pub next : ℕ
  pub waiting : Option ℕ
  pub permits : ℕ
  pub running : List Task
  pub channel : List Line
  pub written : List Line
  pub lost : List ℕ
  pub writing : Bool
  pub reading : Bool

unfoldable pub greeted : Text → Flight
greeted line = record {
  next = 0;
  waiting = none;
  permits = max_in_flight;
  running = [];
  channel = event line ∷ [];
  written = [];
  lost = [];
  writing = true;
  reading = true;
}

-- The loop reads a request; it then waits for a permit before it reads on.
unfoldable pub read_request : Flight → Option Flight
read_request s =
    if s.reading && not (is_some s.waiting)
    then some (record s { next = s.next + 1; waiting = some s.next })
    else none

-- The loop ends: the client closed the connection, or sent a line that is too long.
unfoldable pub stop_reading : Flight → Option Flight
stop_reading s =
    if s.reading && not (is_some s.waiting) then some (record s { reading = false }) else none

-- `acquire_owned`, then the spawn of the task.
unfoldable pub acquire_permit : Flight → Option ℕ → ℕ → Option Flight
acquire_permit s (some i) (suc free) =
    some (record s { waiting = none; permits = free; running = s.running ++ handling i ∷ [] })
acquire_permit s _ _ = none

unfoldable pub acquire : Flight → Option Flight
unfolding acquire_permit
acquire s = acquire_permit s s.waiting s.permits

-- The list without the item at a place, and with another item there.
unfoldable pub remove {ℓ} : {A : Type ℓ} → ℕ → List A → List A
remove k [] = []
remove zero (x ∷ xs) = xs
remove (suc k) (x ∷ xs) = x ∷ remove k xs

unfoldable pub replace {ℓ} : {A : Type ℓ} → ℕ → A → List A → List A
replace k y [] = []
replace zero y (x ∷ xs) = y ∷ xs
replace (suc k) y (x ∷ xs) = x ∷ replace k y xs

-- The task at a place ends and gives its permit back.
unfoldable pub end_task : ℕ → Flight → Flight
end_task k s = record s { running = remove k s.running; permits = s.permits + 1 }

-- The core responds to the task at a place; `none` is a response that cannot be serialised.
unfoldable pub respond_task : ℕ → Option Text → Flight → Option Task → Option Flight
respond_task k (some line) s (some (handling i)) =
    some (record s { running = replace k (sending i line) s.running })
respond_task k none s (some (handling i)) = some (record (end_task k s) { lost = i ∷ s.lost })
respond_task k _ s _ = none

unfoldable pub respond : ℕ → Option Text → Flight → Option Flight
unfolding respond_task end_task
respond k answer s = respond_task k answer s (get_elem? s.running k)

-- The task at a place sends its line: it waits while the channel is full, and fails where the
-- writer is gone.
unfoldable pub send_task : ℕ → Flight → Option Task → Option Flight
send_task k s (some (sending i line)) =
    if not s.writing
    then some (record (end_task k s) { lost = i ∷ s.lost })
    else (if ltb (length s.channel) channel_capacity
        then some (record (end_task k s) { channel = s.channel ++ response i line ∷ [] })
        else none)
send_task k s _ = none

unfoldable pub send : ℕ → Flight → Option Flight
unfolding send_task end_task
send k s = send_task k s (get_elem? s.running k)

-- The pusher sends an event, until the reading loop ends and aborts it.
unfoldable pub push_event : Text → Flight → Option Flight
push_event line s =
    if s.reading && s.writing && ltb (length s.channel) channel_capacity
    then some (record s { channel = s.channel ++ event line ∷ [] })
    else none

-- The writer writes the next line of the channel.
unfoldable pub write_next : Flight → List Line → Option Flight
write_next s [] = none
write_next s (line ∷ lines) = some (record s { channel = lines; written = s.written ++ line ∷ [] })

unfoldable pub write : Flight → Option Flight
unfolding write_next
write s = write_next s s.channel

-- The requests that a list of lines responds to.
unfoldable pub responses : List Line → List ℕ
responses [] = []
responses (response i line ∷ lines) = i ∷ responses lines
responses (event line ∷ lines) = responses lines

-- A write fails: the writer ends, and what is in the channel is lost.
unfoldable pub fail_write : Flight → Option Flight
fail_write s =
    if s.writing
    then some (record s { writing = false; channel = []; lost = responses s.channel ++ s.lost })
    else none
