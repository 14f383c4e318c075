-- ===== src/Schlitz/State.antt =====
-- rolladenSchlitzpos.c: when a window is opened, two seconds later the shutter is moved from shut to a gap,
-- and shut again when the window is closed. All fields are uint8_t.
use hcan.Prelude.{ℕ, ◌+◌, ◌-◌, ◌%◌, Bool, [], ◌∷◌, ◌&&◌, ◌||◌, not, if◌then◌else◌, ◌==◌, ltb, leb}
use hcan.Board.{Frame, byte, Board, hes_frame, send, Prio, hi, low, multicast_control}

-- eds_rolladenSchlitzpos_block_t
pub record Config : Type 0 where
  pub reed0 : ℕ
  pub reed1 : ℕ
  pub rolladen : ℕ

-- device_data_rolladenSchlitzpos, with the board that it acts on
pub record Schlitz : Type 0 where
  pub config : Config
  pub rolladen_schlitz_job : ℕ
  pub rolladen_istposition : ℕ
  pub state_1st_reedkontakt : ℕ
  pub board : Board

abbrev pub schlitz_pos : ℕ
schlitz_pos = 17

-- SCHLITZ_JOB_ABGEMELDET
abbrev pub abgemeldet : ℕ
abgemeldet = 255

-- SCHLITZ_JOB_TIMER_LOAD
abbrev pub timer_load : ℕ
timer_load = 20

abbrev pub position_set : ℕ
position_set = 20

abbrev pub position_request : ℕ
position_request = 21

abbrev pub position_replay : ℕ
position_replay = 22

abbrev pub state_query : ℕ
state_query = 41

abbrev pub state_replay : ℕ
state_replay = 42

abbrev pub state_change : ℕ
state_change = 43

-- rolladenSchlitzpos_init
unfoldable pub init : Schlitz → Schlitz
init p = record p { rolladen_schlitz_job = abgemeldet; state_1st_reedkontakt = 255 }

-- send_rolladen_position_set
abbrev pub send_position_set : ℕ → Schlitz → Schlitz
send_position_set position p = record p {
  board =
      send
        (hes_frame p.board multicast_control 4 (position_set ∷ p.config.rolladen ∷ position ∷ []))
        low p.board;
}

abbrev pub ask : ℕ → ℕ → Prio → Board → Board
ask kind group prio b = send (hes_frame b multicast_control 3 (kind ∷ group ∷ [])) prio b

-- the questions to the shutter and the contacts
unfoldable pub send_queries : Config → Board → Board
send_queries c b =
    let asked = ask state_query c.reed0 low (ask position_request c.rolladen hi b) in
    if not (c.reed1 == 255) then ask state_query c.reed1 low asked else asked

-- rolladenSchlitzpos_timer_handler, called every 100 ms
unfoldable pub timer_handler : Schlitz → Schlitz
timer_handler p =
    let job : ℕ = (p.rolladen_schlitz_job + 255) % 256 in
    if ltb p.rolladen_schlitz_job abgemeldet
    then if job == 0
      then record p { rolladen_schlitz_job = abgemeldet; board = send_queries p.config p.board }
      else record p { rolladen_schlitz_job = job }
    else p

-- a frame of one of the contacts
abbrev pub is_reed : Schlitz → Frame → Bool
is_reed p f = p.config.reed0 == byte f 2 || p.config.reed1 == byte f 2

-- a window is open, or all are closed
unfoldable pub move : Bool → Schlitz → Schlitz
move auf p =
    if auf
    then if ltb p.rolladen_istposition (schlitz_pos - 5) then send_position_set schlitz_pos p else p
    else if leb (schlitz_pos - 2) p.rolladen_istposition
        && leb p.rolladen_istposition (schlitz_pos + 2)
    then send_position_set 0 p
    else p

-- the reply of a contact
unfoldable pub on_state_replay : Schlitz → Frame → Schlitz
on_state_replay p f =
    let auf = not (byte f 3 == 0) in
    if p.config.reed1 == 255
    then move auf p
    else if p.state_1st_reedkontakt == 255
    then record p { state_1st_reedkontakt = byte f 3 }
    else record (move (auf || not (p.state_1st_reedkontakt == 0)) p) { state_1st_reedkontakt = 255 }

-- rolladenSchlitzpos_can_callback
unfoldable pub can_callback : Schlitz → Frame → Schlitz
can_callback p f =
    if byte f 1 == state_change
    then if is_reed p f then record p { rolladen_schlitz_job = timer_load } else p
    else if byte f 1 == position_replay
    then if p.config.rolladen == byte f 2 then record p { rolladen_istposition = byte f 3 } else p
    else if byte f 1 == state_replay
    then if is_reed p f then on_state_replay p f else p
    else p
