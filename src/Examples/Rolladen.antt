-- ===== src/Examples/Rolladen.antt =====
-- A roller shutter that takes 20 s, on the ports 4 and 5 (rolladen.c).
use hcan.Prelude.{◌≤◌, ◌≡◌, refl, false, List, [], ◌∷◌, arith}
use hcan.Prelude.Int.{pos, negsuc}
use hcan.Board.{Frame}
use hcan.Rolladen.State.{
  stop, auf, ready, dir_ab, Rolladen, get_position, define_position, init, laufzeit_align,
  send_changed_info,
}
use hcan.Rolladen.Lowlevel.{timer_handler}
use hcan.Rolladen.Callback.{can_callback}
use hcan.Rolladen.Relays.{Relays, power_on, dir_on}
use hcan.Rolladen.Timing.{
  Event, timer, frame, tick, run, boot, dir_moves_unpowered, power_waits, step,
}
use hcan.Rolladen.Halt.{ticks, halt_time, taster_halts}
use hcan.Rolladen.Position.{define_position_two_up}

abbrev shutter : Rolladen
shutter = record {
  config = record {
    port_power = 4;
    port_dir = 5;
    taster = 17;
    laufzeit = 200;
    max_rekalib = 1000;
    gruppen = 30 ∷ 31 ∷ 255 ∷ 255 ∷ [];
  };
  summe_laufzeit = 0;
  laufzeit = pos 0;
  soll_laufzeit = negsuc 0;
  cmdsrc = 0;
  last_dir = dir_ab;
  state = stop;
  command = ready;
  wait_counter = 0;
  up_event_counter = negsuc 0;
  board = record { self = 100; pins = λ k. false; sent = [] };
}

abbrev press : Frame
press = record { src = 7; dst = 35; proto = 1; size = 3; bytes = 5 ∷ 1 ∷ 17 ∷ [] }

-- A press starts the shutter upwards, and four calls later it moves.
moving : Rolladen
unfolding ticks timer_handler can_callback
moving = ticks 4 (can_callback shutter press)

moving_auf : moving.state ≡ auf
unfolding moving
moving_auf = refl

halts_again : (ticks 4 (can_callback moving press)).state ≡ stop
unfolding moving ticks timer_handler can_callback laufzeit_align send_changed_info
halts_again = refl

-- moving up, then stopped by a button, then sent down by the next press
abbrev up_stop_down : List Event
up_stop_down =
    frame press
    ∷ timer
    ∷ timer
    ∷ timer
    ∷ timer
    ∷ frame press
    ∷ timer
    ∷ timer
    ∷ timer
    ∷ timer
    ∷ frame press
    ∷ []

dir_moves_unpowered_example :
    let m = run (boot shutter) up_stop_down in
    (power_on m.shutter ≡ false) × (power_on (tick m).shutter ≡ false) × (4 ≤ (tick m).off)
unfolding run boot step tick timer_handler can_callback laufzeit_align send_changed_info init
dir_moves_unpowered_example =
    dir_moves_unpowered shutter up_stop_down (omega arith) refl refl (λ e. cc)

power_waits_example :
    let m = run (boot shutter) (frame press ∷ []) in
    (dir_on (tick m).shutter ≡ dir_on m.shutter) × (2 ≤ (tick m).still)
unfolding run boot step tick timer_handler can_callback init
power_waits_example = power_waits shutter (frame press ∷ []) (omega arith) refl refl refl refl

moving-Relays : Relays moving
unfolding moving
moving-Relays = record { ports_differ = omega arith; power_follows = refl; dir_follows = refl }

taster_halts_example :
    let q = can_callback moving press in
    (power_on (timer_handler q) ≡ false) × ((ticks (halt_time moving.state) q).state ≡ stop)
taster_halts_example =
    taster_halts moving press moving-Relays refl (unfold moving in refl) (unfold moving in refl)

define_position_two_up_example : get_position (define_position shutter 40) ≡ 42
define_position_two_up_example =
    define_position_two_up shutter 40 2 refl (omega arith) (omega arith)
