-- ===== src/Examples/Heizung.antt =====
-- A heating circuit with a period of ten seconds (heizung.c).
use hcan.Prelude.{ℕ, ◌≡◌, ◌==◌, true, false, refl, [], ◌∷◌, arith}
use hcan.Board.{Frame}
use hcan.Canix.Clock.{Clock}
use hcan.Heizung.State.{manual, Line, Heizung, get_pwm, set_pwm}
use hcan.Heizung.Duty.{valve_of, open_time, pwm_seconds, open_for_rate}
use hcan.Heizung.Stop.{Second, seconds, stop_shuts}
use hcan.Heizung.TwoPoint.{follow, hysteresis, switch, two_point_refines}

abbrev line : ℕ → Line
line n = record { id = n; temp = 320 }

abbrev circuit : ℕ → ℕ → Heizung
circuit stop width = record {
  config = record {
    id = 67;
    port = 2;
    pwm_periode = 10;
    sensor_id = 4;
    lines = line 1 ∷ line 2 ∷ line 3 ∷ line 4 ∷ line 5 ∷ line 6 ∷ line 7 ∷ line 8 ∷ [];
    feature = 0;
    hysterese = 8;
    reeds = 30 ∷ 255 ∷ 255 ∷ 255 ∷ 255 ∷ 255 ∷ 255 ∷ 255 ∷ [];
  };
  it = 40;
  mode = manual;
  manual_rate = 50;
  timer_counter = 0;
  pwm_counter = 9;
  pwm_width = width;
  pwm_end = 10;
  waermebedarf_counter = 30;
  received_interval_counter = 0;
  measure_value = 300;
  duration_counter = 0;
  thermostat_temp = 0;
  reed_heiz_stop_counter = stop;
  ventilpflege_counter = 0;
  eeprom = λ k. 13;
  board = record { self = 100; pins = λ k. true; sent = [] };
}

open_for_rate_example :
    (open_time 10 (set_pwm (circuit 0 10) 33) ≡ 3)
    × ((pwm_seconds 10 (set_pwm (circuit 0 10) 33)).pwm_counter ≡ 9)
open_for_rate_example = open_for_rate (circuit 0 10) 9 33 refl refl (omega arith) refl (omega arith)

-- Sunday, 15:21
abbrev noon : Clock
noon = record {
  day_of_week = 7;
  hour = 15;
  minute = 21;
  second = 0;
  last_date_update = 0;
  day_of_month = 3;
  month_of_year = 4;
  year = 11;
}

-- the zone 1 ends after the first second
abbrev in_zone : Second
in_zone = record { clock = noon; zones = λ n. n == 1 }

abbrev no_zone : Second
no_zone = record { clock = noon; zones = λ n. false }

stop_shuts_example : valve_of (seconds (in_zone ∷ no_zone ∷ no_zone ∷ []) (circuit 60 10)) ≡ false
stop_shuts_example = stop_shuts (circuit 60 10) in_zone no_zone (no_zone ∷ []) refl (omega arith)

abbrev write : Frame
write = record { src = 7; dst = 100; proto = 1; size = 6; bytes = 5 ∷ 68 ∷ 67 ∷ 2 ∷ 1 ∷ 64 ∷ [] }

abbrev read : Frame
read = record { src = 7; dst = 100; proto = 1; size = 4; bytes = 5 ∷ 66 ∷ 67 ∷ 2 ∷ [] }

-- 20 degrees, in sixteenths, with half a degree on both sides
two_point_refines_example : get_pwm (follow 320 (325 ∷ 329 ∷ 315 ∷ []) (circuit 0 10)) ≡ 0
unfolding hysteresis switch
two_point_refines_example =
    two_point_refines 320 (325 ∷ 329 ∷ 315 ∷ []) (circuit 0 10) true (record {
      wanted = refl;
      runs = refl;
      periode = omega arith;
      small = omega arith;
      end = refl;
      width = refl;
    })
