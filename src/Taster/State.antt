-- ===== src/Taster/State.antt =====
-- taster.c: the data of a push button and its timer handler, called every 10 ms. The level of the pin,
-- tasterport_read(p->config.port) != 0, is an argument; a pressed button has the level 0.
use hcan.Prelude.{ℕ, zero, suc, ◌+◌, Bool, true, false, [], ◌∷◌, ◌||◌, if◌then◌else◌, ◌==◌, ltb}
use hcan.Board.{Board, hes_frame, send, hi, multicast_control, bit}

-- eds_taster_block_t
pub record Config : Type 0 where
  pub port : ℕ
  pub feature : ℕ
  pub gruppe : ℕ

-- device_data_taster, with the board that it acts on
pub record Taster : Type 0 where
  pub config : Config
  pub pressed : ℕ  -- uint8_t
  pub board : Board

-- FEATURE_TASTER_*: the numbers of the bits
abbrev pub entprell_1s : ℕ
entprell_1s = 0

abbrev pub rolladen_auf : ℕ
rolladen_auf = 1

abbrev pub rolladen_zu : ℕ
rolladen_zu = 2

abbrev pub has : Taster → ℕ → Bool
has p k = bit p.config.feature k

abbrev pub taster_down : ℕ
taster_down = 1

abbrev pub taster_up : ℕ
taster_up = 2

abbrev pub rolladen_position_set : ℕ
rolladen_position_set = 20

-- a frame of the kind and with the value at the end
abbrev pub send_message : ℕ → ℕ → Taster → Taster
send_message kind value p = record p {
  board =
      send (hes_frame p.board multicast_control 4 (kind ∷ p.config.gruppe ∷ value ∷ [])) hi p.board;
}

-- a handler's first part, where the button is not pressed
unfoldable pub release : Taster → Taster
release p =
    let q : Taster =
      if ltb 3 p.pressed
      then if has p rolladen_zu || has p rolladen_auf
        then p
        else send_message taster_up p.config.port p
      else p in
    record q { pressed = 0 }

abbrev pub count_up : Taster → Taster
count_up p = record p { pressed = if ltb p.pressed 255 then p.pressed + 1 else p.pressed }

-- how long the button is pressed when it is reported
abbrev pub time_of : Taster → ℕ
time_of p = if has p entprell_1s then 100 else 3

-- a handler's second part
unfoldable pub report : Taster → Taster
report p =
    if p.pressed == time_of p
    then if has p rolladen_zu
      then send_message rolladen_position_set 200 p
      else if has p rolladen_auf
      then send_message rolladen_position_set 201 p
      else send_message taster_down p.config.port p
    else p

-- taster_timer_handler
unfoldable pub timer_handler : Bool → Taster → Taster
unfolding release report
timer_handler true p = report (release p)
timer_handler false p = report (count_up p)

-- calls while the button is pressed
unfoldable pub hold : ℕ → Taster → Taster
unfolding timer_handler
hold zero p = p
hold (suc n) p = timer_handler false (hold n p)

-- a press of `n` times 10 ms, and the button released
unfoldable pub press : ℕ → Taster → Taster
unfolding hold
press n p = timer_handler true (hold n p)
