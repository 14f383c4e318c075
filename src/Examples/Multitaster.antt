-- ===== src/Examples/Multitaster.antt =====
-- A button with three groups and its potentiometer (multitaster.c, poti.c).
use hcan.Prelude.{ℕ, ◌≡◌, false, refl, List, [], ◌∷◌, arith}
use hcan.Board.{Frame, send, hi}
use hcan.Multitaster.State.{divisions, Multitaster, can_callback, init}
use hcan.Multitaster.Poti.{Poti}
use hcan.Multitaster.Select.{press_30ms, down_frame, group_of_section}

abbrev button : List ℕ → Multitaster
button groups = record {
  config = record { taster_port = 9; poti_gruppe = 40; feature = 0; gruppen = groups };
  pressed = 0;
  last_poti_pos = 0;
  one_scale = 0;
  board = record { self = 100; pins = λ k. false; sent = [] };
}

abbrev two_groups : Multitaster
two_groups = button (51 ∷ 52 ∷ 255 ∷ 255 ∷ 255 ∷ 255 ∷ 255 ∷ 255 ∷ 255 ∷ 255 ∷ [])

abbrev value : ℕ → ℕ → Frame
value high lesser = record {
  src = 101;
  dst = 35;
  proto = 1;
  size = 5;
  bytes = 5 ∷ 70 ∷ 40 ∷ high ∷ lesser ∷ [];
}

-- 600 lies in the second half of the scale
group_of_section_example :
    (press_30ms (can_callback (init two_groups) (value 2 88))).board
    ≡ send (down_frame two_groups 52) hi two_groups.board
unfolding divisions
group_of_section_example =
    group_of_section two_groups (value 2 88) 1 (record { kind = refl; group = refl })
      (record { no_wait = refl; not_zu = refl; not_auf = refl; not_pressed = refl }) (omega arith)
      (record { above = omega arith; below = omega arith })

abbrev poti : Poti
poti = record {
  config = record { port = 8; gruppe = 40 };
  last_poti_value = 500;
  poti_telegram_countdown = 4;
  board = record { self = 100; pins = λ k. false; sent = [] };
}
