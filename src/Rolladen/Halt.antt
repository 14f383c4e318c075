-- ===== src/Rolladen/Halt.antt =====
-- A button press halts a moving roller shutter (rolladen.c) in a bounded number of timer calls.
use hcan.Prelude.{ℕ, zero, suc, ◌≡◌, Bool, true, false, arith}
use hcan.Board.{Frame, byte}
use hcan.Rolladen.State.{
  State, stop, auf, stop_wait_1, ab, stop_wait_2, stop_wait_3, Rolladen, laufzeit_align,
  command_stop, send_changed_info,
}
use hcan.Rolladen.Lowlevel.{tick_wait, advance, timer_handler}
use hcan.Rolladen.Callback.{can_callback, taster_down}
use hcan.Rolladen.Relays.{
  Relays, power_on, timer_handler-Relays, timer_handler-Same, can_callback_pins,
}
use hcan.Rolladen.Timing.{timer_handler_wait}

-- n calls of the timer handler
unfoldable pub ticks : ℕ → Rolladen → Rolladen
ticks zero p = p
ticks (suc n) p = ticks n (timer_handler p)

module _ (p : Rolladen) where
  enter_stop_wait_1 :
      p.state ≡ auf
      → p.command ≡ command_stop
      → ((timer_handler p).state ≡ stop_wait_1) × ((timer_handler p).wait_counter ≡ 3)
  unfolding advance tick_wait
  enter_stop_wait_1 s c = ground (arith, timer_handler_wait p, timer_handler-Same p)

  enter_stop_wait_2 :
      p.state ≡ ab
      → p.command ≡ command_stop
      → ((timer_handler p).state ≡ stop_wait_2) × ((timer_handler p).wait_counter ≡ 6)
  unfolding advance tick_wait
  enter_stop_wait_2 s c = ground (arith, timer_handler_wait p, timer_handler-Same p)

  wait_in_1 :
      (k : ℕ)
      → p.state ≡ stop_wait_1
      → p.wait_counter ≡ suc (suc k)
      → ((timer_handler p).state ≡ stop_wait_1) × ((timer_handler p).wait_counter ≡ suc k)
  unfolding advance tick_wait
  wait_in_1 k s w = ground (arith, timer_handler_wait p, timer_handler-Same p)

  leave_1 : p.state ≡ stop_wait_1 → p.wait_counter ≡ 1 → (timer_handler p).state ≡ stop
  unfolding advance tick_wait laufzeit_align send_changed_info
  leave_1 s w = ground (arith, timer_handler-Same p)

  wait_in_2 :
      (k : ℕ)
      → p.state ≡ stop_wait_2
      → p.wait_counter ≡ suc (suc k)
      → ((timer_handler p).state ≡ stop_wait_2) × ((timer_handler p).wait_counter ≡ suc k)
  unfolding advance tick_wait
  wait_in_2 k s w = ground (arith, timer_handler_wait p, timer_handler-Same p)

  leave_2 :
      p.state ≡ stop_wait_2
      → p.wait_counter ≡ 1
      → ((timer_handler p).state ≡ stop_wait_3) × ((timer_handler p).wait_counter ≡ 3)
  unfolding advance tick_wait
  leave_2 s w = ground (arith, timer_handler_wait p, timer_handler-Same p)

  wait_in_3 :
      (k : ℕ)
      → p.state ≡ stop_wait_3
      → p.wait_counter ≡ suc (suc k)
      → ((timer_handler p).state ≡ stop_wait_3) × ((timer_handler p).wait_counter ≡ suc k)
  unfolding advance tick_wait
  wait_in_3 k s w = ground (arith, timer_handler_wait p, timer_handler-Same p)

  leave_3 : p.state ≡ stop_wait_3 → p.wait_counter ≡ 1 → (timer_handler p).state ≡ stop
  unfolding advance tick_wait laufzeit_align send_changed_info
  leave_3 s w = ground (arith, timer_handler-Same p)

from_1 :
    (k : ℕ) (p : Rolladen)
    → p.state ≡ stop_wait_1
    → p.wait_counter ≡ suc k
    → (ticks (suc k) p).state ≡ stop
unfolding ticks
from_1 zero p s w = leave_1 p s w
from_1 (suc k) p s w = let (s', w') = wait_in_1 p k s w in from_1 k (timer_handler p) s' w'

from_3 :
    (k : ℕ) (p : Rolladen)
    → p.state ≡ stop_wait_3
    → p.wait_counter ≡ suc k
    → (ticks (suc k) p).state ≡ stop
unfolding ticks
from_3 zero p s w = leave_3 p s w
from_3 (suc k) p s w = let (s', w') = wait_in_3 p k s w in from_3 k (timer_handler p) s' w'

-- stop_wait_2 goes through stop_wait_3, whose wait is 3
abbrev longer : ℕ → ℕ
longer zero = 4
longer (suc k) = suc (longer k)

from_2 :
    (k : ℕ) (p : Rolladen)
    → p.state ≡ stop_wait_2
    → p.wait_counter ≡ suc k
    → (ticks (longer k) p).state ≡ stop
unfolding ticks
from_2 zero p s w = let (s', w') = leave_2 p s w in from_3 2 (timer_handler p) s' w'
from_2 (suc k) p s w = let (s', w') = wait_in_2 p k s w in from_2 k (timer_handler p) s' w'

-- the states of a moving shutter, and the timer calls that each needs to halt
abbrev pub is_moving : State → Bool
is_moving auf = true
is_moving ab = true
is_moving _ = false

abbrev pub halt_time : State → ℕ
halt_time auf = 4
halt_time ab = 10
halt_time _ = 0

halts_in :
    (p : Rolladen) (s : State)
    → p.state ≡ s
    → is_moving s ≡ true
    → p.command ≡ command_stop
    → (ticks (halt_time s) p).state ≡ stop
unfolding ticks
halts_in p auf e m c = let (s', w') = enter_stop_wait_1 p e c in from_1 2 (timer_handler p) s' w'
halts_in p ab e m c = let (s', w') = enter_stop_wait_2 p e c in from_2 5 (timer_handler p) s' w'
halts_in p _ e m c = cc

pressed_stops :
    (p : Rolladen) (f : Frame)
    → byte f 1 ≡ taster_down
    → byte f 2 ≡ p.config.taster
    → is_moving p.state ≡ true
    → (can_callback p f).command ≡ command_stop
unfolding can_callback
pressed_stops p f d t m = ground arith

power_cut :
    (p : Rolladen)
    → Relays p
    → p.command ≡ command_stop
    → is_moving p.state ≡ true
    → power_on (timer_handler p) ≡ false
unfolding advance tick_wait
power_cut p r c m = ground (arith, timer_handler-Same p, timer_handler-Relays p r)

-- If a shutter moves (state AUF or AB), its relays fit the state, and its own button goes down, then
-- the next timer call switches the power off, and the machine is in STOP after 4 calls where it
-- moved up and after 10 calls where it moved down.
pub taster_halts :
    (p : Rolladen) (f : Frame)
    → Relays p
    → byte f 1 ≡ taster_down
    → byte f 2 ≡ p.config.taster
    → is_moving p.state ≡ true
    → let q = can_callback p f in
      (power_on (timer_handler q) ≡ false) × ((ticks (halt_time p.state) q).state ≡ stop)
taster_halts p f r d t m =
    let q = can_callback p f in
    let command = pressed_stops p f d t m in
    let (_, same, _) = can_callback_pins p f in
    let relays : Relays q = ground (arith, can_callback_pins p f) in
    (power_cut q relays command (rw same m), halts_in q p.state same m command)
