-- ===== src/Examples/Schlitz.antt =====
-- The shutter's gap of a window with two contacts (rolladenSchlitzpos.c).
use hcan.Prelude.{ℕ, ◌≡◌, false, refl, List, [], ◌∷◌, ◌++◌, replicate}
use hcan.Board.{Frame}
use hcan.Schlitz.State.{Schlitz, send_queries, timer_handler, can_callback}
use hcan.Schlitz.Query.{no_change, Event, tick, frame, run, asks_in_two_seconds}

abbrev window : Schlitz
window = record {
  config = record { reed0 = 30; reed1 = 31; rolladen = 60 };
  rolladen_schlitz_job = 255;
  rolladen_istposition = 0;
  state_1st_reedkontakt = 255;
  board = record { self = 100; pins = λ k. false; sent = [] };
}

abbrev frame_with : ℕ → ℕ → ℕ → Frame
frame_with kind group x = record {
  src = 50;
  dst = 36;
  proto = 1;
  size = 4;
  bytes = 5 ∷ kind ∷ group ∷ x ∷ [];
}

abbrev later : List Event
later = replicate 12 tick ++ (frame (frame_with 22 60 40) ∷ replicate 7 tick)

asks_in_two_seconds_example :
    (timer_handler (run later (can_callback window (frame_with 43 31 1)))).board
    ≡ send_queries window.config (run later (can_callback window (frame_with 43 31 1))).board
unfolding no_change
asks_in_two_seconds_example = asks_in_two_seconds window (frame_with 43 31 1) later refl refl
