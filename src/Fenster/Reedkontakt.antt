-- ===== src/Fenster/Reedkontakt.antt =====
-- reedkontakt.c: a window contact. The level of its pin, tasterport_read(p->config.port) != 0, is an
-- argument of each operation and is the same for the whole call.
use hcan.Prelude.{ℕ, ◌-◌, ◌%◌, Bool, true, false, [], ◌∷◌, ◌&&◌, not, if◌then◌else◌, ◌==◌}
use hcan.Board.{Frame, byte, Board, hes_frame, send, hi, low, multicast_info}

-- eds_reedkontakt_block_t
pub record Config : Type 0 where
  pub port : ℕ
  pub gruppe : ℕ
  pub modus : ℕ
  pub feature : ℕ

-- device_data_reedkontakt, with the board that it acts on
pub record Reedkontakt : Type 0 where
  pub config : Config
  pub timer_counter : ℕ
  pub last_state : Bool
  pub board : Board

abbrev pub reedkontakt_offen : ℕ
reedkontakt_offen = 40

abbrev pub state_query : ℕ
state_query = 41

abbrev pub state_replay : ℕ
state_replay = 42

abbrev pub state_change : ℕ
state_change = 43

abbrev pub one_if : Bool → ℕ
one_if true = 1
one_if false = 0

unfoldable pub init : Bool → Reedkontakt → Reedkontakt
init level p = record p { timer_counter = p.config.gruppe % 8; last_state = level }

abbrev pub differ : Bool → Bool → Bool
differ true b = not b
differ false b = b

abbrev pub send_state_change : Bool → Reedkontakt → Reedkontakt
send_state_change level p = record p {
  last_state = level;
  board =
      send (hes_frame p.board multicast_info 4 (state_change ∷ p.config.gruppe ∷ one_if level ∷ []))
        hi p.board;
}

abbrev pub send_offen : Reedkontakt → Reedkontakt
send_offen p = record p {
  timer_counter = 5;
  board =
      send (hes_frame p.board multicast_info 3 (reedkontakt_offen ∷ p.config.gruppe ∷ [])) low
        p.board;
}

abbrev pub count_down : Reedkontakt → Reedkontakt
count_down p = record p { timer_counter = p.timer_counter - 1 }

-- the second part of the timer handler: while the contact is open, a frame each five seconds
unfoldable pub report_open : Bool → Reedkontakt → Reedkontakt
report_open level p =
    if not (p.config.modus == 0) && level
    then count_down (if p.timer_counter == 0 then send_offen p else p)
    else record p { timer_counter = 0 }

-- reedkontakt_timer_handler, called every second
unfoldable pub timer_handler : Bool → Reedkontakt → Reedkontakt
unfolding report_open
timer_handler level p =
    report_open level (if differ level p.last_state then send_state_change level p else p)

unfoldable pub can_callback : Bool → Reedkontakt → Frame → Reedkontakt
can_callback level p f =
    if (p.config.gruppe == byte f 2) && (byte f 1 == state_query)
    then record p {
      board =
          send (hes_frame p.board f.src 4 (state_replay ∷ byte f 2 ∷ one_if level ∷ [])) hi p.board;
    }
    else p
