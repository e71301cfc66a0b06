-- ===== src/Connection/Tests.antt =====
-- Concrete runs of the connection's theorems.
use omarchy_chatd.Connection.Flight.{
  max_in_flight, channel_capacity, handling, sending, response, event, Flight, greeted,
  read_request, acquire, remove, replace, respond, send, responses,
}
use omarchy_chatd.Connection.Answered.{Step, reads, Reach, here, further, count, greeted_bounds}
use omarchy_chatd.Connection.Drained.{Own, Run, start, then_own, work, IsAnswered, answers_all}
use omarchy_chatd.Base.{
  ℕ, ◌+◌, ◌≤◌, ◌≡◌, refl, ◌⊎◌, true, false, none, some, List, [], ◌∷◌, arith, ltb, if◌then◌else◌,
  length, codes,
}
use omarchy_chatd.Connection.Reader.{is_blank, too_long, failed, read_lines}
use omarchy_chatd.Connection.Bounds.{lines_of, serve, read_lines-eq-serve}

-- Two requests, a blank line between them, and a third that is over a limit of 4.
abbrev stream : List ℕ
stream = codes "ab\n \ncd\nefghij\nk"

read_lines-eq-serve_example :
    read_lines 4 false 20 stream ≡ some (codes "ab\n" ∷ codes "cd\n" ∷ [], too_long)
unfolding lines_of serve is_blank
read_lines-eq-serve_example = read_lines-eq-serve 4 false 20 stream (omega arith)

-- A stream that breaks within its second line.
cut_off : read_lines 4 true 20 (codes "ab\nc") ≡ some (codes "ab\n" ∷ [], failed)
unfolding lines_of serve is_blank
cut_off = read_lines-eq-serve 4 true 20 (codes "ab\nc") (omega arith)

-- A connection that has read one request, and one whose task for it runs.
abbrev one_read : Flight
one_read = record {
  next = 1;
  waiting = some 0;
  permits = 8;
  running = [];
  channel = event (codes "state") ∷ [];
  written = [];
  lost = [];
  writing = true;
  reading = true;
}

abbrev one_runs : Flight
one_runs = record one_read { waiting = none; permits = 7; running = handling 0 ∷ [] }

abbrev one_responded : Flight
one_responded = record one_runs { running = sending 0 (codes "ok") ∷ [] }

abbrev one_sent : Flight
one_sent = record one_runs {
  running = [];
  permits = 8;
  channel = event (codes "state") ∷ response 0 (codes "ok") ∷ [];
}

one_runs_reached : Reach (greeted (codes "state")) one_runs
unfolding greeted read_request acquire
one_runs_reached =
    further (further here (reads {t = one_read} refl)) (Step.acquires {t = one_runs} refl)

one_sent_run : Run (λ _. codes "ok") one_runs 2 one_sent
unfolding respond send replace remove
one_sent_run =
    then_own (then_own start (Own.responds {t = one_responded} 0 0 refl refl))
      (Own.sends {t = one_sent} 0 refl)

greeted_bounds_example :
    (length one_runs.running ≤ max_in_flight)
    × (length one_runs.channel ≤ channel_capacity)
    × ((i : ℕ) → count i (responses one_runs.written) ≤ (if ltb i one_runs.next then 1 else 0))
greeted_bounds_example = greeted_bounds (codes "state") one_runs_reached

answers_all_example :
    (2 + work one_sent ≤ work one_runs)
    × (one_sent.next ≡ one_runs.next)
    × (IsAnswered one_sent ⊎ ((u : Flight) × Own (λ _. codes "ok") one_sent u))
answers_all_example =
    answers_all (λ _. codes "ok") (codes "state") one_runs_reached refl refl one_sent_run
