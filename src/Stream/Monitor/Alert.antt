-- ===== src/Stream/Monitor/Alert.antt =====
-- stream.go: the timer of the monitor.
use omnigent_go_sdk.Prelude.{ℕ, ◌+◌, ◌-◌, ◌≡◌, refl, Bool, true, false, ltb, if_intro}
use omnigent_go_sdk.Stream.Monitor.{
  Timer, gone, spent, armed, IdleMonitor, alive, new_idle_monitor, suspend, unpause, reset, rearm,
  stop, Check, at_rest, begun, measured, see_paused, judge, Watch, watch_from, Moves, passes,
  arrives, stores, suspends, wakes, restores, unpauses, stops, expires, looks, measures, judges,
  rearms, cancels, Reaches, here, further,
}

abbrev rests : Check → Bool
rests at_rest = true
rests c = false

-- The timer is armed, or `check` is on its way, or else the monitor has fired or was stopped.
pub data Alert : Check → Bool → Timer → Type 0 where
  stopped : (c : Check) (fired : Bool) → Alert c fired gone
  waits : (c : Check) (fired : Bool) (due : ℕ) → Alert c fired (armed due)
  has_fired : (c : Check) (timer : Timer) → Alert c true timer
  looking : (c : Check) (fired : Bool) (timer : Timer) → rests c ≡ false → Alert c fired timer

abbrev Watchful : Watch → Type 0
Watchful s = Alert s.check s.monitor.fired s.monitor.timer

see_paused-rests : (w : IdleMonitor) → rests (see_paused w) ≡ false
unfolding see_paused
see_paused-rests w = if_intro (λ c. rests c ≡ false) w.paused (λ _. refl) (λ _. refl)

judge-rests : (w : IdleMonitor) (e : ℕ) → rests (judge w e) ≡ false
unfolding judge
judge-rests w e =
    if_intro (λ c. rests c ≡ false) (ltb 0 ((w.timeout + w.last) - e)) (λ _. refl) (λ _. refl)

reset-Alert : (fired : Bool) (timer : Timer) (due : ℕ) → Alert at_rest fired (reset timer due)
unfolding reset
reset-Alert fired gone due = stopped at_rest fired
reset-Alert fired spent due = waits at_rest fired due
reset-Alert fired (armed old) due = waits at_rest fired due

Moves-Alert : (s u : Watch) → Watchful s → Moves s u → Watchful u
unfolding alive suspend unpause stop rearm
Moves-Alert _ _ h (passes s d) = h
Moves-Alert _ _ h (arrives s at) = h
Moves-Alert _ _ h (stores s t at) = h
Moves-Alert _ _ h (suspends s at) = h
Moves-Alert _ _ h (wakes s at) = h
Moves-Alert _ _ h (restores s t at) = h
Moves-Alert _ _ h (unpauses s at) = h
Moves-Alert _ _ h (stops s) = stopped s.check s.monitor.fired
Moves-Alert _ _ h (expires s due at on late) = looking begun s.monitor.fired spent refl
Moves-Alert _ _ h (looks s at) =
    looking (see_paused s.monitor) s.monitor.fired s.monitor.timer (see_paused-rests s.monitor)
Moves-Alert _ _ h (measures s at) = looking (measured s.now) s.monitor.fired s.monitor.timer refl
Moves-Alert _ _ h (judges s e at) =
    looking (judge s.monitor e) s.monitor.fired s.monitor.timer (judge-rests s.monitor e)
Moves-Alert _ _ h (rearms s a at) = reset-Alert s.monitor.fired s.monitor.timer (s.now + a)
Moves-Alert _ _ h (cancels s at) = has_fired at_rest s.monitor.timer

-- The monitor never goes deaf: in every state that it may come to, its timer is armed, or `check`
-- is under way, or else it has fired or was stopped.
pub Reaches-Alert :
    (timeout start : ℕ) (s : Watch)
    → Reaches (watch_from timeout start) s
    → Alert s.check s.monitor.fired s.monitor.timer
unfolding watch_from new_idle_monitor alive
Reaches-Alert timeout start _ here = waits at_rest false (start + timeout)
Reaches-Alert timeout start _ (further t u h m) =
    Moves-Alert t u (Reaches-Alert timeout start t h) m
