-- ===== src/Examples/Usv.antt =====
-- A power failure and its end (usvstatemachine.c).
use hcan.Prelude.{ℕ, ◌≤◌, ◌≡◌, ◌≢◌, false, refl, [], ◌∷◌, arith}
use hcan.Board.{getpin}
use hcan.Usv.State.{Usv, relais}
use hcan.Usv.Machine.{Readings, state_handler, timer_handler}
use hcan.Usv.Dwell.{Monitor, tick, run, step, dwell, dwell_before_switch}

abbrev supply : Usv
supply = record {
  on_battery = false;
  usv_timer = 0;
  switch_back_counter = 0;
  led_timer = 5;
  timer_counter = 0;
  u_min = 1023 ∷ 1023 ∷ 1023 ∷ 1023 ∷ 1023 ∷ [];
  u_max = 0 ∷ 0 ∷ 0 ∷ 0 ∷ 0 ∷ [];
  leds = λ k. 0;
  board = record { self = 9; pins = λ k. false; sent = [] };
}

abbrev readings : ℕ → ℕ → ℕ → Readings
readings nt bat puffer = record {
  channels = nt ∷ 400 ∷ bat ∷ puffer ∷ 12 ∷ [];
  puffer = puffer;
  bat = bat;
  nt = nt;
  led_puffer = puffer;
  led_nt = nt;
  led_warning = bat;
  led_critical = bat;
}

-- the mains are gone, the battery is charged
abbrev failure : Readings
failure = readings 10 850 700

abbrev powered : Monitor
powered = record { usv = supply; since = 10 }

battery_on :
    (state_handler (run powered (tick ∷ tick ∷ [])).usv failure).on_battery
    ≢ (run powered (tick ∷ tick ∷ [])).usv.on_battery
unfolding run step timer_handler state_handler
battery_on h = ground arith

dwell_before_switch_example :
    let n = run powered (tick ∷ tick ∷ []) in
    (getpin relais n.usv.board ≡ n.usv.on_battery) × (dwell n.usv.on_battery ≤ n.since)
dwell_before_switch_example =
    dwell_before_switch powered (tick ∷ tick ∷ []) failure
      (record { relay = refl; clock = omega arith }) battery_on
