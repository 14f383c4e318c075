-- ===== src/Examples/Lichtzone.antt =====
-- A staircase light with a timer of 90 seconds (lichtzone.c).
use hcan.Prelude.{ℕ, ◌+◌, ◌≡◌, refl, false, [], ◌∷◌}
use hcan.Board.{Frame}
use hcan.Lichtzone.State.{off, on, Lichtzone}
use hcan.Lichtzone.Presses.{seconds, timer_runs_out}

abbrev stairs : Lichtzone
stairs = record {
  config = record {
    toggle_gruppen = 20 ∷ 255 ∷ 255 ∷ 255 ∷ [];
    off_gruppen = 21 ∷ 255 ∷ [];
    on_gruppen = 255 ∷ 255 ∷ [];
    timer_delay = 0x80 + 90;
    action_gruppen = 50 ∷ 255 ∷ [];
  };
  state = on;
  timer_counter = 90;
  exton_taster_down_counter = 2;
  exton_sec_counter = 1;
  board = record { self = 100; pins = λ k. false; sent = [] };
}

abbrev press : ℕ → Frame
press n = record { src = 7; dst = 35; proto = 1; size = 3; bytes = 5 ∷ 1 ∷ n ∷ [] }

timer_runs_out_example :
    ((seconds 30 stairs).state ≡ on)
    × ((seconds 90 stairs).state ≡ off)
    × ((seconds 90 stairs).timer_counter ≡ 0)
timer_runs_out_example = timer_runs_out 30 59 stairs refl refl
