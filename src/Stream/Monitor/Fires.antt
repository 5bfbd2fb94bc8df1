-- ===== src/Stream/Monitor/Fires.antt =====
-- stream.go: the monitor over all interleavings of its steps.
use omnigent_go_sdk.Prelude.{
  ℕ, ◌+◌, ◌≤◌, ◌≡◌, refl, sym, subst, Bool, true, false, ◌∷◌, All, arith, true≢false,
}
use omnigent_go_sdk.Stream.Monitor.{
  Timer, gone, spent, alive, new_idle_monitor, suspend, unpause, reset, rearm, stop, Check, at_rest,
  begun, running, measured, cancelling, Loop, reading, in_caller, woken, returned, noting, waking,
  is_away, Look, see_paused, judge, Watch, watch_from, Moves, passes, arrives, stores, suspends,
  wakes, restores, unpauses, stops, expires, looks, measures, judges, rearms, cancels, Reaches,
  here, further,
}
use omnigent_go_sdk.Stream.Monitor.Silence.{
  WasSilent, Just, Grounds, Pending, after, All-weaken, All-after,
}
use omnigent_go_sdk.Stream.Monitor.Grounds.{
  later_silent, later-Grounds, later-Pending, later_back, more_silent, more-Grounds,
  see_paused-Grounds, judge-Grounds,
}

-- The store of a reading of the clock.
stored-Just :
    (timeout start : ℕ) (s : Watch) (t : ℕ) (l : Loop)
    → Just timeout start s
    → s.monitor.last ≤ t
    → t ≤ s.now
    → (s.monitor.paused ≡ false → All (λ (span : ℕ × ℕ). span.1 ≤ t) s.away)
    → Pending t s.now s.monitor.paused s.away l
    → Just timeout start (record s {
      monitor = record s.monitor { last = t };
      loop = l;
      activity = (t, s.now) ∷ s.activity;
    })
stored-Just timeout start s t l h forward past back pending = record {
  same_timeout = h.same_timeout;
  since = omega (arith, h.since, forward);
  past = past;
  latest = (omega arith, All-weaken (λ a k. omega (arith, k, forward)) s.activity h.latest);
  spent_away = h.spent_away;
  back = back;
  pending = pending;
  grounds =
      more-Grounds timeout start s.now s.activity s.away s.look s.monitor.last t s.check forward
        h.grounds;
  reason = λ e. more_silent timeout start s.now s.activity s.away s.verdict t (h.reason e);
}

passes-Just :
    (timeout start : ℕ) (s : Watch) (d : ℕ)
    → Just timeout start s
    → Just timeout start
        (record s { now = s.now + d; away = after (is_away s.loop) s.now d s.away })
passes-Just timeout start s d h = record {
  same_timeout = h.same_timeout;
  since = h.since;
  past = omega (arith, h.past);
  latest = h.latest;
  spent_away =
      All-after _ (is_away s.loop) s.now d s.away (omega arith)
        (All-weaken (λ span k. omega (arith, k)) s.away h.spent_away);
  back =
      λ e. later_back s.monitor.last s.now d s.monitor.paused s.away s.loop e h.pending (h.back e);
  pending = later-Pending s.monitor.last s.now d s.monitor.paused s.away s.loop h.pending;
  grounds =
      later-Grounds timeout start s.now d s.loop s.activity s.away s.look s.monitor.last s.check
        h.grounds;
  reason = λ e. later_silent timeout start s.now d s.loop s.activity s.away s.verdict (h.reason e);
}

-- A step of the read loop other than a store of the clock.
looped :
    (timeout start : ℕ) (s : Watch) (paused : Bool) (timer : Timer) (l : Loop)
    → Just timeout start s
    → (paused ≡ false → All (λ (span : ℕ × ℕ). span.1 ≤ s.monitor.last) s.away)
    → Pending s.monitor.last s.now paused s.away l
    → Just timeout start
        (record s { monitor = record s.monitor { paused = paused; timer = timer }; loop = l })
looped timeout start s paused timer l h back pending = record {
  same_timeout = h.same_timeout;
  since = h.since;
  past = h.past;
  latest = h.latest;
  spent_away = h.spent_away;
  back = back;
  pending = pending;
  grounds = h.grounds;
  reason = h.reason;
}

-- A step of `check`, or of the timer, and the grounds of the check it leads to.
checked :
    (timeout start : ℕ) (s : Watch) (timer : Timer) (check : Check) (v : Look)
    → Just timeout start s
    → Grounds timeout start s.monitor.last s.now v s.activity s.away check
    → Just timeout start
        (record s { monitor = record s.monitor { timer = timer }; check = check; look = v })
checked timeout start s timer check v h grounds = record {
  same_timeout = h.same_timeout;
  since = h.since;
  past = h.past;
  latest = h.latest;
  spent_away = h.spent_away;
  back = h.back;
  pending = h.pending;
  grounds = grounds;
  reason = h.reason;
}

-- What is known of the read loop, or of the check, where it has come to a place.
module _ (timeout start : ℕ) (s : Watch) (h : Just timeout start s) where
  Pending-at : (l : Loop) → s.loop ≡ l → Pending s.monitor.last s.now s.monitor.paused s.away l
  Pending-at l at = subst (Pending s.monitor.last s.now s.monitor.paused s.away) at h.pending

  Grounds-at :
      (c : Check)
      → s.check ≡ c
      → Grounds timeout start s.monitor.last s.now s.look s.activity s.away c
  Grounds-at c at =
      subst (Grounds timeout start s.monitor.last s.now s.look s.activity s.away) at h.grounds

Moves-Just :
    (timeout start : ℕ) (s u : Watch) → Just timeout start s → Moves s u → Just timeout start u
unfolding alive suspend unpause stop rearm
Moves-Just timeout start _ _ h (passes s d) = passes-Just timeout start s d h
Moves-Just timeout start _ _ h (arrives s at) =
    looped timeout start s s.monitor.paused s.monitor.timer (noting s.now) h h.back
      (h.past, omega arith)
Moves-Just timeout start _ _ h (stores s t at) =
    let (forward, past) = Pending-at timeout start s h (noting t) at in
    stored-Just timeout start s t reading h forward past
      (λ e. All-weaken (λ span k. omega (arith, k, forward)) s.away (h.back e)) tt
Moves-Just timeout start _ _ h (suspends s at) =
    looped timeout start s true s.monitor.timer in_caller h (λ e. absurd (true≢false e)) refl
Moves-Just timeout start _ _ h (wakes s at) =
    looped timeout start s s.monitor.paused s.monitor.timer (waking s.now) h h.back
      (h.past, omega arith, h.spent_away)
Moves-Just timeout start _ _ h (restores s t at) =
    let (forward, past, ends) = Pending-at timeout start s h (waking t) at in
    stored-Just timeout start s t woken h forward past (λ _. ends) ends
Moves-Just timeout start _ _ h (unpauses s at) =
    looped timeout start s false s.monitor.timer reading h
      (λ _. Pending-at timeout start s h woken at) tt
Moves-Just timeout start _ _ h (stops s) =
    looped timeout start s s.monitor.paused gone returned h h.back tt
Moves-Just timeout start _ _ h (expires s due at on late) =
    checked timeout start s spent begun s.look h tt
Moves-Just timeout start _ _ h (looks s at) =
    checked timeout start s s.monitor.timer (see_paused s.monitor)
      (record s.look { looked = s.now }) h
      (see_paused-Grounds timeout start s.now s.activity s.away s.look s.monitor h.back)
Moves-Just timeout start _ _ h (measures s at) =
    let seen = Grounds-at timeout start s h running at in
    checked timeout start s s.monitor.timer (measured s.now) (record s.look { read = s.now }) h
      (refl, record { in_order = seen.in_order; reading = seen.reading }, omega arith)
Moves-Just timeout start _ _ h (judges s e at) =
    let (read_at, seen, past) = Grounds-at timeout start s h (measured e) at in
    checked timeout start s s.monitor.timer (judge s.monitor e) (record s.look { loaded = s.now }) h
      (judge-Grounds timeout start s.now s.activity s.away s.look e s.monitor h.same_timeout h.since
        read_at past seen h.latest)
Moves-Just timeout start _ _ h (rearms s a at) =
    checked timeout start s (reset s.monitor.timer (s.now + a)) at_rest s.look h tt
Moves-Just timeout start _ _ h (cancels s at) = record {
  same_timeout = h.same_timeout;
  since = h.since;
  past = h.past;
  latest = h.latest;
  spent_away = h.spent_away;
  back = h.back;
  pending = h.pending;
  grounds = tt;
  reason = λ _. Grounds-at timeout start s h cancelling at;
}

start-Just : (timeout start : ℕ) → Just timeout start (watch_from timeout start)
unfolding watch_from new_idle_monitor alive
start-Just timeout start = record {
  same_timeout = refl;
  since = omega arith;
  past = omega arith;
  latest = (omega arith, tt);
  spent_away = tt;
  back = λ _. tt;
  pending = tt;
  grounds = tt;
  reason = λ e. absurd (true≢false (sym e));
}

Reaches-Just :
    (timeout start : ℕ) (s : Watch) → Reaches (watch_from timeout start) s → Just timeout start s
Reaches-Just timeout start _ here = start-Just timeout start
Reaches-Just timeout start _ (further t u h m) =
    Moves-Just timeout start t u (Reaches-Just timeout start t h) m

-- However the steps of the read loop, of the clock, of the timer and of its callback interleave, single
-- loads, stores and readings of the clock: where the monitor has fired, the run of the callback that
-- cancelled looked, read the clock and loaded the last activity in this order, and read the clock at
-- least a timeout after the monitor began. Each activity (bytes, or a return from the caller's code)
-- was recorded at least a timeout before that reading of the clock, or not before the load, or else
-- was on its way from the clock to the store at the load; and any time spent in the caller's code was
-- over at least a timeout before the reading, or began at or after the look.
pub fired-WasSilent :
    (timeout start : ℕ) (s : Watch)
    → Reaches (watch_from timeout start) s
    → s.monitor.fired ≡ true
    → WasSilent timeout start s.now s.verdict s.activity s.away
fired-WasSilent timeout start s h e = (Reaches-Just timeout start s h).reason e
