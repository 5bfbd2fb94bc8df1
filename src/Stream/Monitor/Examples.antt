-- ===== src/Stream/Monitor/Examples.antt =====
-- A monitor of ten ticks: the caller's code takes five, and then nothing arrives.
use omnigent_go_sdk.Prelude.{ℕ, refl, Bool, true, false, List, [], ◌∷◌, arith}
use omnigent_go_sdk.Stream.Monitor.{
  Timer, armed, spent, alive, suspend, unpause, new_idle_monitor, Check, at_rest, begun, running,
  measured, cancelling, see_paused, judge, Look, no_look, Loop, reading, in_caller, waking, woken,
  Watch, watch_from, passes, suspends, wakes, restores, unpauses, expires, looks, measures, judges,
  cancels, Reaches, here, further,
}
use omnigent_go_sdk.Stream.Monitor.Silence.{WasSilent}
use omnigent_go_sdk.Stream.Monitor.Fires.{fired-WasSilent}
use omnigent_go_sdk.Stream.Monitor.Alert.{Alert, Reaches-Alert}

-- The states from the call of the caller's code to the end of `resume`.
abbrev calling :
    (last : ℕ) (paused : Bool) → Loop → (now : ℕ) → (activity away : List (ℕ × ℕ)) → Watch
calling last paused loop now activity away = record {
  monitor = record { timeout = 10; last = last; paused = paused; fired = false; timer = armed 10 };
  check = at_rest;
  loop = loop;
  now = now;
  activity = activity;
  away = away;
  look = no_look;
  verdict = no_look;
}

abbrev one_call : List (ℕ × ℕ)
one_call = (0, 5) ∷ []

abbrev one_return : List (ℕ × ℕ)
one_return = (5, 5) ∷ (0, 0) ∷ []

-- The states at the time 15.
abbrev later_on : Timer → (fired : Bool) → Check → Look → (verdict : Look) → Watch
later_on timer fired check look verdict = record {
  monitor = record { timeout = 10; last = 5; paused = false; fired = fired; timer = timer };
  check = check;
  loop = reading;
  now = 15;
  activity = one_return;
  away = one_call;
  look = look;
  verdict = verdict;
}

abbrev at_fifteen : Look
at_fifteen = record { looked = 15; read = 15; loaded = 15 }

caller-returns : Reaches (watch_from 10 0) (calling 5 false reading 5 one_return one_call)
unfolding watch_from new_idle_monitor alive suspend unpause
caller-returns =
    further (calling 5 true woken 5 one_return one_call) _
      (further (calling 0 true (waking 5) 5 ((0, 0) ∷ []) one_call) _
        (further (calling 0 true in_caller 5 ((0, 0) ∷ []) one_call) _
          (further (calling 0 true in_caller 0 ((0, 0) ∷ []) []) _
            (further (watch_from 10 0) _ here (suspends (watch_from 10 0) refl))
            (passes (calling 0 true in_caller 0 ((0, 0) ∷ []) []) 5))
          (wakes (calling 0 true in_caller 5 ((0, 0) ∷ []) one_call) refl))
        (restores (calling 0 true (waking 5) 5 ((0, 0) ∷ []) one_call) 5 refl))
      (unpauses (calling 5 true woken 5 one_return one_call) refl)

abbrev look_only : Look
look_only = record { looked = 15; read = 0; loaded = 0 }

abbrev look_and_read : Look
look_and_read = record { looked = 15; read = 15; loaded = 0 }

quiet-cancels : Reaches (watch_from 10 0) (later_on spent true at_rest at_fifteen at_fifteen)
unfolding see_paused judge
quiet-cancels =
    further (later_on spent false cancelling at_fifteen no_look) _
      (further (later_on spent false (measured 15) look_and_read no_look) _
        (further (later_on spent false running look_only no_look) _
          (further (later_on spent false begun no_look no_look) _
            (further (later_on (armed 10) false at_rest no_look no_look) _
              (further (calling 5 false reading 5 one_return one_call) _ caller-returns
                (passes (calling 5 false reading 5 one_return one_call) 10))
              (expires (later_on (armed 10) false at_rest no_look no_look) 10 refl refl
                (omega arith)))
            (looks (later_on spent false begun no_look no_look) refl))
          (measures (later_on spent false running look_only no_look) refl))
        (judges (later_on spent false (measured 15) look_and_read no_look) 15 refl))
      (cancels (later_on spent false cancelling at_fifteen no_look) refl)

fired-WasSilent_example : WasSilent 10 0 15 at_fifteen one_return one_call
fired-WasSilent_example =
    fired-WasSilent 10 0 (later_on spent true at_rest at_fifteen at_fifteen) quiet-cancels refl

Reaches-Alert_example : Alert at_rest true spent
Reaches-Alert_example =
    Reaches-Alert 10 0 (later_on spent true at_rest at_fifteen at_fifteen) quiet-cancels
