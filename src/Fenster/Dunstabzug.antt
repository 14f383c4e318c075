-- ===== src/Fenster/Dunstabzug.antt =====
-- dunstabzugport.c: the socket of the kitchen hood.
use hcan.Prelude.{ℕ, ◌-◌, ◌*◌, ◌%◌, Bool, true, false, not, if◌then◌else◌, ◌==◌, ltb}
use hcan.Board.{Frame, byte, Board, setpin}
use hcan.Fenster.Reedkontakt.{reedkontakt_offen, state_change}

-- eds_dunstabzugport_block_t
pub record Config : Type 0 where
  pub port : ℕ
  pub reed_gruppe0 : ℕ
  pub freischalt_taster : ℕ
  pub freischalt_zeit : ℕ
  pub reed_gruppe1 : ℕ

-- device_data_dunstabzugport, with the board that it acts on
pub record Dunstabzug : Type 0 where
  pub config : Config
  pub counter : ℕ  -- uint16_t
  pub state_reed0 : Bool
  pub state_reed1 : Bool
  pub state_dunst : Bool
  pub board : Board

abbrev pub taster_down : ℕ
taster_down = 1

-- The socket is switched, and the counter set.
abbrev pub switch : Bool → ℕ → Dunstabzug → Dunstabzug
switch v n p = record p { counter = n; state_dunst = v; board = setpin p.config.port v p.board }

unfoldable pub init : Dunstabzug → Dunstabzug
init p = switch false 0 (record p { state_reed0 = false; state_reed1 = false })

unfoldable pub on_offen : ℕ → Dunstabzug → Dunstabzug
on_offen group p =
    if p.config.reed_gruppe0 == group
    then switch true 7 (record p { state_reed0 = true })
    else if p.config.reed_gruppe1 == group
    then switch true 7 (record p { state_reed1 = true })
    else p

-- the reaction to a change of one contact, where `other_open` is the state of the other one
abbrev pub on_change : ℕ → Bool → Dunstabzug → Dunstabzug
on_change level other_open p =
    if not (level == 0) then switch true 7 p else if not other_open then switch false 0 p else p

unfoldable pub on_state_change : ℕ → ℕ → Dunstabzug → Dunstabzug
on_state_change group level p =
    let q = if p.config.reed_gruppe0 == group then on_change level p.state_reed1 p else p in
    if q.config.reed_gruppe1 == group then on_change level q.state_reed0 q else q

unfoldable pub on_taster_down : ℕ → Dunstabzug → Dunstabzug
on_taster_down group p =
    if p.config.freischalt_taster == group
    then switch true (p.config.freischalt_zeit * 60 % 65536) p
    else p

unfoldable pub can_callback : Dunstabzug → Frame → Dunstabzug
unfolding on_offen on_state_change on_taster_down
can_callback p f =
    if byte f 1 == reedkontakt_offen
    then on_offen (byte f 2) p
    else if byte f 1 == state_change
    then on_state_change (byte f 2) (byte f 3) p
    else if byte f 1 == taster_down
    then on_taster_down (byte f 2) p
    else p

-- dunstabzugport_timer_handler, called every second
unfoldable pub timer_handler : Dunstabzug → Dunstabzug
timer_handler p =
    if ltb 0 p.counter
    then if p.counter == 1 then switch false 0 p else record p { counter = p.counter - 1 }
    else p
