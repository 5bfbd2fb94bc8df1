-- ===== src/Stream/Monitor.antt =====
-- stream.go: the monitor of silence. The loop that reads and the timer's callback interleave: each
-- load, each store and each reading of the clock is a step of its own, on either side, and what is
-- done under the mutex is one. Time is a count of ticks of the monotonic clock, and `remaining` is a
-- difference of such counts, which stops at 0 where the code tests it.
pub mod Silence
pub mod Grounds
pub mod Fires
pub mod Alert
mod Examples
use omnigent_go_sdk.Prelude.{
  ℕ, ◌+◌, ◌-◌, ◌≤◌, Bool, true, false, List, [], ◌∷◌, ltb, if◌then◌else◌, ◌≡◌,
}

-- time.Timer: nil after `stop`, armed for a time, or expired and not armed again.
pub data Timer : Type 0 where
  gone spent : Timer
  armed : ℕ → Timer

pub record IdleMonitor : Type 0 where
  pub timeout : ℕ
  pub last : ℕ
  pub paused : Bool
  pub fired : Bool
  pub timer : Timer

-- The store of `alive`, after its reading of `elapsed`.
unfoldable pub alive : (elapsed : ℕ) → IdleMonitor → IdleMonitor
alive elapsed w = record w { last = elapsed }

unfoldable pub new_idle_monitor : (timeout now : ℕ) → IdleMonitor
unfolding alive
new_idle_monitor timeout now = alive now (record {
  timeout = timeout;
  last = 0;
  paused = false;
  fired = false;
  timer = armed (now + timeout);
})

unfoldable pub suspend : IdleMonitor → IdleMonitor
suspend w = record w { paused = true }

-- The store of `resume` that comes after its call of `alive`.
unfoldable pub unpause : IdleMonitor → IdleMonitor
unpause w = record w { paused = false }

unfoldable pub reset : Timer → ℕ → Timer
reset gone due = gone
reset spent due = armed due
reset (armed old) due = armed due

unfoldable pub rearm : (now after : ℕ) → IdleMonitor → IdleMonitor
unfolding reset
rearm now after w = record w { timer = reset w.timer (now + after) }

unfoldable pub stop : IdleMonitor → IdleMonitor
stop w = record w { timer = gone }

-- How far a run of `check` has come: it has begun, found the monitor running, read the clock,
-- decided to arm the timer, or decided to cancel.
pub data Check : Type 0 where
  at_rest begun running cancelling : Check
  measured rearming : ℕ → Check

-- The test of w.paused.
unfoldable pub see_paused : IdleMonitor → Check
see_paused w = if w.paused then rearming w.timeout else running

-- The test of what remains, the clock's reading behind it.
unfoldable pub judge : IdleMonitor → (elapsed : ℕ) → Check
judge w elapsed =
    let remaining = (w.timeout + w.last) - elapsed in
    if ltb 0 remaining then rearming remaining else cancelling

-- Where the read loop is: it reads, or `alive` has read the clock for bytes that arrived (`noting`);
-- it is in the caller's code; in `resume`, `alive` has read the clock (`waking`) or has stored it
-- (`woken`); or it has returned.
pub data Loop : Type 0 where
  reading in_caller woken returned : Loop
  noting waking : ℕ → Loop

abbrev pub is_away : Loop → Bool
is_away in_caller = true
is_away l = false

-- The times at which a run of `check` looked whether the monitor is paused, read the clock, and loaded
-- the last activity.
pub record Look : Type 0 where
  pub looked : ℕ
  pub read : ℕ
  pub loaded : ℕ

abbrev pub no_look : Look
no_look = record { looked = 0; read = 0; loaded = 0 }

-- The monitor, its callback, the read loop and the clock; with the activity that was recorded, each
-- by the time at which the clock was read and the one at which the reading was stored, the spans of
-- time that the loop was in the caller's code, and the times of the run of `check` that is under way
-- and of the one that cancelled.
pub record Watch : Type 0 where
  pub monitor : IdleMonitor
  pub check : Check
  pub loop : Loop
  pub now : ℕ
  pub activity : List (ℕ × ℕ)
  pub away : List (ℕ × ℕ)
  pub look : Look
  pub verdict : Look

unfoldable pub watch_from : (timeout now : ℕ) → Watch
unfolding new_idle_monitor
watch_from timeout now = record {
  monitor = new_idle_monitor timeout now;
  check = at_rest;
  loop = reading;
  now = now;
  activity = (now, now) ∷ [];
  away = [];
  look = no_look;
  verdict = no_look;
}

-- The steps of the clock, of the read loop, of the timer, and of `check`.
pub data Moves : Watch → Watch → Type 0 where
  passes :
      (s : Watch) (ticks : ℕ)
      → Moves s (record s {
        now = s.now + ticks;
        away = (if is_away s.loop then (s.now, s.now + ticks) ∷ s.away else s.away);
      })
  arrives : (s : Watch) → s.loop ≡ reading → Moves s (record s { loop = noting s.now })
  stores :
      (s : Watch) (t : ℕ)
      → s.loop ≡ noting t
      → Moves s (record s {
        monitor = alive t s.monitor;
        loop = reading;
        activity = (t, s.now) ∷ s.activity;
      })
  suspends :
      (s : Watch)
      → s.loop ≡ reading
      → Moves s (record s { monitor = suspend s.monitor; loop = in_caller })
  wakes : (s : Watch) → s.loop ≡ in_caller → Moves s (record s { loop = waking s.now })
  restores :
      (s : Watch) (t : ℕ)
      → s.loop ≡ waking t
      → Moves s (record s {
        monitor = alive t s.monitor;
        loop = woken;
        activity = (t, s.now) ∷ s.activity;
      })
  unpauses :
      (s : Watch)
      → s.loop ≡ woken
      → Moves s (record s { monitor = unpause s.monitor; loop = reading })
  stops : (s : Watch) → Moves s (record s { monitor = stop s.monitor; loop = returned })
  expires :
      (s : Watch) (due : ℕ)
      → s.check ≡ at_rest
      → s.monitor.timer ≡ armed due
      → due ≤ s.now
      → Moves s (record s { monitor = record s.monitor { timer = spent }; check = begun })
  looks :
      (s : Watch)
      → s.check ≡ begun
      → Moves s (record s { check = see_paused s.monitor; look = record s.look { looked = s.now } })
  measures :
      (s : Watch)
      → s.check ≡ running
      → Moves s (record s { check = measured s.now; look = record s.look { read = s.now } })
  judges :
      (s : Watch) (elapsed : ℕ)
      → s.check ≡ measured elapsed
      → Moves s
          (record s { check = judge s.monitor elapsed; look = record s.look { loaded = s.now } })
  rearms :
      (s : Watch) (after : ℕ)
      → s.check ≡ rearming after
      → Moves s (record s { monitor = rearm s.now after s.monitor; check = at_rest })
  cancels :
      (s : Watch)
      → s.check ≡ cancelling
      → Moves s (record s {
        monitor = record s.monitor { fired = true };
        check = at_rest;
        verdict = s.look;
      })

-- The states that a monitor may come to.
pub data Reaches (s : Watch) : Watch → Type 0 where
  here : Reaches s s
  further : (t u : Watch) → Reaches s t → Moves t u → Reaches s u
