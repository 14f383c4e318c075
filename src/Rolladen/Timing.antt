-- ===== src/Rolladen/Timing.antt =====
-- How far apart the relays of a roller shutter (rolladen.c) switch, in calls of the timer handler
-- (100 ms each), over any sequence of timer calls and frames.
use hcan.Prelude.{ℕ, ◌+◌, ◌≤◌, ◌≡◌, ◌≢◌, Bool, true, false, List, [], ◌∷◌, arith, if◌then◌else◌}
use hcan.Board.{Frame}
use hcan.Rolladen.State.{
  State, stop, auf_wait, auf, stop_wait_1, ab_wait_1, ab_wait_2, ab, stop_wait_2, stop_wait_3,
  dir_change_wait_1, dir_change_wait_2, dir_change_wait_3, Rolladen, laufzeit_align,
  send_changed_info, init, set_soll_laufzeit, define_position,
}
use hcan.Rolladen.Lowlevel.{tick_wait, advance, timer_handler}
use hcan.Rolladen.Callback.{can_callback}
use hcan.Rolladen.Relays.{
  Relays, power_on, dir_on, timer_handler-Relays, timer_handler-Same, can_callback_pins,
}

-- A shutter with two clocks: `off` counts the timer calls since the power relay was switched off,
-- `still` those since the direction relay was moved.
pub record Monitor : Type 0 where
  pub shutter : Rolladen
  pub off : ℕ
  pub still : ℕ

abbrev eqb : Bool → Bool → Bool
eqb true b = b
eqb false true = false
eqb false false = true

unfoldable pub tick : Monitor → Monitor
tick m =
    let q = timer_handler m.shutter in
    record {
      shutter = q;
      off = if power_on m.shutter then 0 else m.off + 1;
      still = if eqb (dir_on m.shutter) (dir_on q) then m.still + 1 else 0;
    }

pub data Event : Type 0 where
  timer : Event
  frame : Frame → Event

unfoldable pub step : Monitor → Event → Monitor
unfolding tick
step m timer = tick m
step m (frame f) = record m { shutter = can_callback m.shutter f }

unfoldable pub run : Monitor → List Event → Monitor
run m [] = m
run m (e ∷ es) = run (step m e) es

-- the clocks of each state, beside its wait counter
abbrev pub Waited : State → ℕ → ℕ → ℕ → Type 0
Waited stop wait off still = (3 ≤ off) × (2 ≤ still)
Waited auf_wait wait off still = 2 ≤ still
Waited auf wait off still = 2 ≤ still
Waited stop_wait_1 wait off still = (3 ≤ off + wait) × (2 ≤ still)
Waited ab_wait_1 wait off still = 2 ≤ still + wait
Waited ab_wait_2 wait off still = 2 ≤ still
Waited ab wait off still = 2 ≤ still
Waited stop_wait_2 wait off still = (6 ≤ off + wait) × (2 ≤ still)
Waited stop_wait_3 wait off still = (6 ≤ off) × (3 ≤ still + wait)
Waited dir_change_wait_1 wait off still = (6 ≤ off + wait) × (2 ≤ still)
Waited dir_change_wait_2 wait off still = (6 ≤ off + wait) × (2 ≤ still)
Waited dir_change_wait_3 wait off still = (6 ≤ off) × (3 ≤ still + wait)

pub record Spaced (m : Monitor) : Type 0 where
  pub relays : Relays m.shutter
  pub waited : Waited m.shutter.state m.shutter.wait_counter m.off m.still

-- The wait counter and the state after a timer call are those after the `switch`.
pub timer_handler_wait :
    (p : Rolladen)
    → let q = tick_wait p in (timer_handler p).wait_counter ≡ (advance q.state q).wait_counter
unfolding timer_handler
timer_handler_wait p = ground arith

tick-Waited :
    (m : Monitor)
    → Spaced m
    → Waited (tick m).shutter.state (tick m).shutter.wait_counter (tick m).off (tick m).still
unfolding tick advance tick_wait laufzeit_align send_changed_info
tick-Waited m s = ground (
  arith,
  timer_handler_wait m.shutter,
  timer_handler-Same m.shutter,
  timer_handler-Relays m.shutter s.relays,
)

callback-Relays : (p : Rolladen) (f : Frame) → Relays p → Relays (can_callback p f)
callback-Relays p f r = ground (arith, can_callback_pins p f)

can_callback_wait : (p : Rolladen) (f : Frame) → (can_callback p f).wait_counter ≡ p.wait_counter
unfolding can_callback set_soll_laufzeit define_position
can_callback_wait p f = ground arith

tick-Relays : (m : Monitor) → Relays m.shutter → Relays (tick m).shutter
unfolding tick
tick-Relays m r = timer_handler-Relays m.shutter r

step-Spaced : (m : Monitor) (e : Event) → Spaced m → Spaced (step m e)
unfolding step
step-Spaced m timer s = record { relays = tick-Relays m s.relays; waited = tick-Waited m s }
step-Spaced m (frame f) s = record {
  relays = callback-Relays m.shutter f s.relays;
  waited = ground (arith, can_callback_pins m.shutter f, can_callback_wait m.shutter f);
}

pub run-Spaced : (m : Monitor) (es : List Event) → Spaced m → Spaced (run m es)
unfolding run
run-Spaced m [] s = s
run-Spaced m (e ∷ es) s = run-Spaced (step m e) es (step-Spaced m e s)

-- The clocks at power-up: both relays have been at rest.
unfoldable pub boot : Rolladen → Monitor
boot p = record { shutter = init p; off = 3; still = 2 }

boot-Spaced :
    (p : Rolladen)
    → p.config.port_power ≢ p.config.port_dir
    → power_on p ≡ false
    → dir_on p ≡ false
    → Spaced (boot p)
unfolding boot init
boot-Spaced p d pw dr = ground arith

tick_dir :
    (m : Monitor)
    → Spaced m
    → dir_on (tick m).shutter ≢ dir_on m.shutter
    → (power_on m.shutter ≡ false) × (power_on (tick m).shutter ≡ false) × (4 ≤ (tick m).off)
unfolding tick advance tick_wait laufzeit_align send_changed_info
tick_dir m s moved = ground (
  arith,
  timer_handler_wait m.shutter,
  timer_handler-Same m.shutter,
  timer_handler-Relays m.shutter s.relays,
)

tick_power :
    (m : Monitor)
    → Spaced m
    → power_on m.shutter ≡ false
    → power_on (tick m).shutter ≡ true
    → (dir_on (tick m).shutter ≡ dir_on m.shutter) × (2 ≤ (tick m).still)
unfolding tick advance tick_wait laufzeit_align send_changed_info
tick_power m s was on = ground (
  arith,
  timer_handler_wait m.shutter,
  timer_handler-Same m.shutter,
  timer_handler-Relays m.shutter s.relays,
)

-- After any timer calls and frames from power-up, with both relays off and on different ports, a timer
-- call that moves the direction relay finds the power off and leaves it off, and comes at least four
-- calls after the power went off.
pub dir_moves_unpowered :
    (p : Rolladen) (es : List Event)
    → p.config.port_power ≢ p.config.port_dir
    → power_on p ≡ false
    → dir_on p ≡ false
    → let m = run (boot p) es in
      dir_on (tick m).shutter ≢ dir_on m.shutter
      → (power_on m.shutter ≡ false) × (power_on (tick m).shutter ≡ false) × (4 ≤ (tick m).off)
dir_moves_unpowered p es d pw dr moved =
    tick_dir (run (boot p) es) (run-Spaced (boot p) es (boot-Spaced p d pw dr)) moved

-- After any timer calls and frames from power-up, with both relays off and on different ports, a timer
-- call that switches the power on leaves the direction relay alone, and comes at least two calls
-- after that relay moved.
pub power_waits :
    (p : Rolladen) (es : List Event)
    → p.config.port_power ≢ p.config.port_dir
    → power_on p ≡ false
    → dir_on p ≡ false
    → let m = run (boot p) es in
      power_on m.shutter ≡ false
      → power_on (tick m).shutter ≡ true
      → (dir_on (tick m).shutter ≡ dir_on m.shutter) × (2 ≤ (tick m).still)
power_waits p es d pw dr was on =
    tick_power (run (boot p) es) (run-Spaced (boot p) es (boot-Spaced p d pw dr)) was on
