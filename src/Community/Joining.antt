-- ===== src/Community/Joining.antt =====
-- The joining of the community's rooms in the background (src/community.rs: `retry_after_of`,
-- `join_patiently` and the loop of `join_rooms`).
use mathlib.Core.List.{append_assoc, append-nil}
use omarchy_chatd.Base.{
  ℕ, zero, suc, ◌+◌, ◌-◌, ◌%◌, ◌≤◌, ◌<◌, min, ◌≡◌, refl, sym, ap, ◌∙◌, ◌≢◌, inl, inr, Bool, true,
  false, Option, none, some, List, [], ◌∷◌, ◌++◌, arith, ltb, if◌then◌else◌, Bool-cases, length,
  keep, length-append, All, keep-append, Text,
}

-- The wait that a rate limit asks for: a number of seconds, a time (`none`: gone by), or nothing.
pub data RetryAfter : Type 0 where
  delay : ℕ → RetryAfter
  date_time : Option ℕ → RetryAfter
  not_said : RetryAfter

-- The server's answer to a join.
pub data Answer : Type 0 where
  joined : Answer
  limited : RetryAfter → Answer
  refused : Answer

-- `MAX_RETRY_AFTER`, `JOIN_ATTEMPTS` and `JOIN_SPACING`.
abbrev pub max_retry_after : ℕ
max_retry_after = 300

abbrev pub join_attempts : ℕ
join_attempts = 5

abbrev pub join_spacing : ℕ
join_spacing = 5

abbrev asked_wait : RetryAfter → ℕ
asked_wait (delay d) = d
asked_wait (date_time none) = 1
asked_wait (date_time (some d)) = d
asked_wait not_said = 30

-- `retry_after_of`, for an answer that says to wait.
unfoldable pub retry_after_of : RetryAfter → ℕ
retry_after_of r = min (asked_wait r) max_retry_after + 1

pub data Outcome : Type 0 where
  done failed gave_up : Outcome

abbrev pub waited : ℕ → Outcome × List ℕ → Outcome × List ℕ
waited w (o, ws) = (o, w ∷ ws)

-- The loop of `join_patiently` with the attempts that are left; `answer` is the server's by the
-- number of the attempt; the list has the waits made.
unfoldable pub join_from : (ℕ → Answer) → ℕ → ℕ → Outcome × List ℕ
unfolding retry_after_of
join_from answer zero attempt = (gave_up, [])
join_from answer (suc left) attempt =
    let rest = join_from answer left (attempt + 1) in
    elim (answer attempt) [
      | joined ↦ (done, [])
      | refused ↦ (failed, [])
      | limited r ↦
          if ltb attempt join_attempts then waited (retry_after_of r) rest else (failed, [])
    ]

-- `join_patiently`.
unfoldable pub join_patiently : (ℕ → Answer) → Outcome × List ℕ
unfolding join_from
join_patiently answer = join_from answer join_attempts 1

abbrev pub is_done : Outcome → Bool
is_done done = true
is_done _ = false

-- 2^32: `joining` is an `AtomicU32`, whose `fetch_sub` wraps.
abbrev pub u32_mod : ℕ
u32_mod = 4294967296

abbrev pub fetch_sub : ℕ → ℕ
fetch_sub n = (n + (u32_mod - 1)) % u32_mod

-- What the joiner leaves: the count of rooms to join, the rooms joined, and how many times the
-- change of the rooms was announced.
pub record Joiner : Type 0 where
  pub joining : ℕ
  pub landed : List Text
  pub announced : ℕ

-- One room.
unfoldable pub join_room : (Text → ℕ → Answer) → Text → Joiner → Joiner
join_room answer room s =
    let s' =
      if is_done (join_patiently (answer room)).0
      then record s { landed = s.landed ++ room ∷ []; announced = s.announced + 1 }
      else s in
    record s' { joining = fetch_sub s'.joining }

abbrev pub join_each : (Text → ℕ → Answer) → List Text → Joiner → Joiner
join_each answer [] s = s
join_each answer (room ∷ rooms) s = join_each answer rooms (join_room answer room s)

-- The loop of `join_rooms` over the rooms that are pending, with the count before it.
unfoldable pub join_pending : (Text → ℕ → Answer) → List Text → Joiner → Joiner
unfolding join_room
join_pending answer pending s =
    join_each answer pending (record s { joining = length pending % u32_mod })

abbrev pub IsWait : ℕ → Type 0
IsWait w = (1 ≤ w) × (w ≤ 301)

-- An answer that is not the last one asked for.
abbrev pub is_limited : Answer → Bool
is_limited (limited r) = true
is_limited _ = false

-- What a patient join comes to, from an attempt on: it never gives up beyond its attempts; each wait
-- is between 1 and 301 seconds, and there are fewer than the attempts left.
pub record IsPatient (left : ℕ) (r : Outcome × List ℕ) : Type 0 where
  pub settled : r.0 ≢ gave_up
  pub few : length r.1 < left
  pub short : All IsWait r.1

join_from-IsPatient :
    (answer : ℕ → Answer) (left attempt : ℕ)
    → attempt + left ≡ join_attempts
    → IsPatient (suc left) (join_from answer (suc left) attempt)
unfolding join_from
join_from-IsPatient answer zero attempt h = ground arith
join_from-IsPatient answer (suc left) attempt h =
    let ih = join_from-IsPatient answer left (attempt + 1) (omega arith) in ground (arith, ih)

-- A join ends after at most 5 attempts, joined or failed, with at most 4 waits of 1 to 301 seconds,
-- whatever the server answers.
pub join_patiently-IsPatient : (answer : ℕ → Answer) → IsPatient 5 (join_patiently answer)
unfolding join_patiently
join_patiently-IsPatient answer = join_from-IsPatient answer 4 1 refl

abbrev pub joins : (Text → ℕ → Answer) → Text → Bool
joins answer room = is_done (join_patiently (answer room)).0

-- What joining a list of rooms leaves: the count at what it was before them, the rooms that can be
-- joined landed in order, and each announced.
pub record IsJoined (answer : Text → ℕ → Answer) (rooms : List Text) (n : ℕ) (s s' : Joiner)
    : Type 0 where
  pub counted : s'.joining ≡ n
  pub in_order : s'.landed ≡ s.landed ++ keep (joins answer) rooms
  pub told : s'.announced ≡ s.announced + length (keep (joins answer) rooms)

join_room-IsJoined :
    (answer : Text → ℕ → Answer) (room : Text) (n : ℕ) (s : Joiner)
    → s.joining ≡ n + 1
    → n + 1 < u32_mod
    → IsJoined answer (room ∷ []) n s (join_room answer room s)
unfolding join_room
join_room-IsJoined answer room n s h b =
    elim (Bool-cases (is_done (join_patiently (answer room)).0)) [
      | inl e ↦ record { counted = rw e (omega arith); in_order = rw e refl; told = rw e refl }
      | inr e ↦ record {
        counted = rw e (omega arith);
        in_order = rw e (sym (append-nil s.landed));
        told = rw e (omega arith);
      }
    ]

join_each-IsJoined :
    (answer : Text → ℕ → Answer) (rooms : List Text) (n : ℕ) (s : Joiner)
    → s.joining ≡ n + length rooms
    → n + length rooms < u32_mod
    → IsJoined answer rooms n s (join_each answer rooms s)
join_each-IsJoined answer [] n s h b = record {
  counted = omega arith;
  in_order = sym (append-nil s.landed);
  told = omega arith;
}
join_each-IsJoined answer (room ∷ rooms) n s h b =
    let one = join_room-IsJoined answer room (n + length rooms) s (omega arith) (omega arith) in
    let t = join_room answer room s in
    let rest = join_each-IsJoined answer rooms n t one.counted (omega arith) in
    record {
      counted = rest.counted;
      in_order =
          rest.in_order
          ∙ ap (λ l. l ++ keep (joins answer) rooms) one.in_order
          ∙ append_assoc s.landed (keep (joins answer) (room ∷ [])) (keep (joins answer) rooms)
          ∙ ap (λ l. s.landed ++ l) (sym (keep-append (joins answer) (room ∷ []) rooms));
      told = omega (
        arith,
        one.told,
        rest.told,
        ap length (keep-append (joins answer) (room ∷ []) rooms),
        length-append (keep (joins answer) (room ∷ [])) (keep (joins answer) rooms),
      );
    }

pub join_pending-IsJoined :
    (answer : Text → ℕ → Answer) (pending : List Text) (s : Joiner)
    → length pending < u32_mod
    → IsJoined answer pending 0 s (join_pending answer pending s)
unfolding join_pending
join_pending-IsJoined answer pending s h =
    let start : Joiner = record s { joining = length pending % u32_mod } in
    let r = join_each-IsJoined answer pending 0 start (omega arith) (omega arith) in
    record { counted = r.counted; in_order = r.in_order; told = r.told }
