-- ===== src/Multitaster/State.antt =====
-- multitaster.c: the data of a button with up to ten groups, its handlers. The level of the pin,
-- tasterport_read(p->config.taster_port) != 0, is an argument; a pressed button has the level 0.
use hcan.Prelude.{
  ℕ, zero, suc, ◌+◌, ◌*◌, ◌/◌, ◌%◌, ◌^◌, Bool, true, false, List, [], ◌∷◌, ◌||◌, if◌then◌else◌,
  ◌==◌, ltb, leb, get_or,
}
use hcan.Board.{Frame, byte, Board, hes_frame, send, hi, multicast_control, bit, word}

-- eds_multitaster_block_t; `gruppen` is gruppe0 to gruppe9
pub record Config : Type 0 where
  pub taster_port : ℕ
  pub poti_gruppe : ℕ
  pub feature : ℕ
  pub gruppen : List ℕ

-- device_data_multitaster, with the board that it acts on
pub record Multitaster : Type 0 where
  pub config : Config
  pub pressed : ℕ  -- uint8_t
  pub last_poti_pos : ℕ  -- uint8_t
  pub one_scale : ℕ  -- uint16_t
  pub board : Board

-- MAX_MULTITASTER_GROUPS
abbrev pub max_groups : ℕ
max_groups = 10

-- FEATURE_MULTITASTER_*: the numbers of the bits
abbrev pub entprell_1s : ℕ
entprell_1s = 0

abbrev pub rolladen_auf : ℕ
rolladen_auf = 1

abbrev pub rolladen_zu : ℕ
rolladen_zu = 2

abbrev pub has : Multitaster → ℕ → Bool
has p k = bit p.config.feature k

abbrev pub taster_down : ℕ
taster_down = 1

abbrev pub taster_up : ℕ
taster_up = 2

abbrev pub rolladen_position_set : ℕ
rolladen_position_set = 20

abbrev pub poti_pos_changed : ℕ
poti_pos_changed = 70

-- the loop of detectAndSetOneScale: the groups before the first 255
unfoldable pub divisions : List ℕ → ℕ
divisions [] = 0
divisions (g ∷ gs) = let rest = divisions gs in if g == 255 then 0 else rest + 1

-- detectAndSetOneScale; a division by 0 is undefined
unfoldable pub detect_and_set_one_scale : Multitaster → Multitaster
detect_and_set_one_scale p = record p { one_scale = 1023 / divisions p.config.gruppen }

-- multitaster_init
unfoldable pub init : Multitaster → Multitaster
unfolding detect_and_set_one_scale
init p = record (detect_and_set_one_scale p) { last_poti_pos = 0 }

-- getGroup
unfoldable pub get_group : Multitaster → ℕ
get_group p =
    if ltb p.last_poti_pos max_groups then get_or p.config.gruppen p.last_poti_pos 255 else 255

-- a frame of the kind and with the value at the end
abbrev pub send_message : ℕ → ℕ → Multitaster → Multitaster
send_message kind value p = record p {
  board = send (hes_frame p.board multicast_control 4 (kind ∷ get_group p ∷ value ∷ [])) hi p.board;
}

-- the first part of the handler, where the button is not pressed
unfoldable pub release : Multitaster → Multitaster
release p =
    let q : Multitaster =
      if ltb 3 p.pressed
      then if has p rolladen_zu || has p rolladen_auf
        then p
        else send_message taster_up p.config.taster_port p
      else p in
    record q { pressed = 0 }

abbrev pub count_up : Multitaster → Multitaster
count_up p = record p { pressed = if ltb p.pressed 255 then p.pressed + 1 else p.pressed }

-- how long the button is pressed when it is reported
abbrev pub time_of : Multitaster → ℕ
time_of p = if has p entprell_1s then 100 else 3

-- the second part of the handler
unfoldable pub report : Multitaster → Multitaster
report p =
    if p.pressed == time_of p
    then if has p rolladen_zu
      then send_message rolladen_position_set 200 p
      else if has p rolladen_auf
      then send_message rolladen_position_set 201 p
      else send_message taster_down p.config.taster_port p
    else p

-- multitaster_timer_handler
unfoldable pub timer_handler : Bool → Multitaster → Multitaster
unfolding release report
timer_handler true p = report (release p)
timer_handler false p = report (count_up p)

-- the loop of the callback from `i` on, with so many steps left: i - 1 as a uint8_t, or the old position
unfoldable pub find_pos : ℕ → ℕ → ℕ → ℕ → ℕ → ℕ
find_pos zero i scale value old = old
find_pos (suc left) i scale value old =
    let rest = find_pos left (i + 1) scale value old in
    if leb value (i * scale % 2 ^ 16) then (i + 255) % 256 else rest

-- multitaster_can_callback
unfoldable pub can_callback : Multitaster → Frame → Multitaster
can_callback p f =
    if byte f 1 == poti_pos_changed
    then if byte f 2 == p.config.poti_gruppe
      then record p {
        last_poti_pos =
            find_pos max_groups 0 p.one_scale (word (byte f 3) (byte f 4)) p.last_poti_pos;
      }
      else p
    else p
