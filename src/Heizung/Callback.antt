-- ===== src/Heizung/Callback.antt =====
-- heizung.c: heizung_can_callback, one function for each `case`. eeprom_write_word stores the low byte
-- first.
use hcan.Prelude.{
  ℕ, ◌+◌, ◌*◌, Bool, true, false, Option, none, some, List, [], ◌∷◌, ◌&&◌, not, if◌then◌else◌, ◌==◌,
  leb, get_or, set,
}
use hcan.Board.{Frame, byte, hes_frame, send, Prio, hi, low, msb, lsb, word}
use hcan.Heizung.State.{Mode, off, manual, thermostat, automatik, Line, Heizung}
use hcan.Heizung.Control.{matching_line}

-- EDS_heizung_BLOCK_ID
abbrev pub block_id : ℕ
block_id = 13

abbrev pub temperature : ℕ
temperature = 34

abbrev pub reedkontakt_offen : ℕ
reedkontakt_offen = 40

abbrev pub details_request : ℕ
details_request = 50

abbrev pub set_mode_off : ℕ
set_mode_off = 52

abbrev pub set_mode_manual : ℕ
set_mode_manual = 54

abbrev pub set_mode_thermostat : ℕ
set_mode_thermostat = 56

abbrev pub set_mode_automatik : ℕ
set_mode_automatik = 58

abbrev pub tist_request : ℕ
tist_request = 59

abbrev pub line_request : ℕ
line_request = 66

abbrev pub line_replay : ℕ
line_replay = 67

abbrev pub write_line : ℕ
write_line = 68

abbrev pub write_line_ack : ℕ
write_line_ack = 69

-- an answer to the sender of a frame
abbrev pub answer : Heizung → Frame → ℕ → List ℕ → Prio → Heizung
answer p f size rest prio = record p {
  board = send (hes_frame p.board f.src size rest) prio p.board;
}

unfoldable pub on_temperature : Heizung → Frame → Heizung
on_temperature p f =
    if byte f 2 == p.config.sensor_id
    then record p { measure_value = word (byte f 3) (byte f 4); received_interval_counter = 0 }
    else p

unfoldable pub on_set_mode_manual : Heizung → Frame → Heizung
on_set_mode_manual p f = record p {
  mode = manual;
  manual_rate = byte f 3;
  duration_counter = word (byte f 4) (byte f 5);
}

unfoldable pub on_set_mode_thermostat : Heizung → Frame → Heizung
on_set_mode_thermostat p f = record p {
  mode = thermostat;
  thermostat_temp = word (byte f 3) (byte f 4);
  duration_counter = word (byte f 5) (byte f 6);
}

-- the line of HCAN_HES_HEIZUNG_SOLLTEMP_*, of eight
abbrev no_line : Line
no_line = record { id = 0; temp = 0 }

abbrev pub line_at : Heizung → ℕ → Line
line_at p i = get_or p.config.lines i no_line

unfoldable pub on_line_request : Heizung → Frame → Heizung
on_line_request p f =
    let i = byte f 3 in
    let l = line_at p i in
    if leb i 7
    then answer p f 7 (line_replay ∷ p.config.id ∷ i ∷ msb l.temp ∷ lsb l.temp ∷ l.id ∷ []) low
    else p

abbrev pub write_word : ℕ → ℕ → (ℕ → ℕ) → ℕ → ℕ
write_word a w e = λ k. if k == a then lsb w else if k == a + 1 then msb w else e k

abbrev pub with_temp : Heizung → ℕ → ℕ → Heizung
with_temp p i t =
    let l = line_at p i in
    record p {
      config = record p.config { lines = set p.config.lines i (record l { temp = t }) };
      eeprom = write_word (p.it + 6 + i * 3 + 1) t p.eeprom;
    }

unfoldable pub on_write_line : Heizung → Frame → Heizung
on_write_line p f =
    let i = byte f 3 in
    let q = with_temp p i (word (byte f 4) (byte f 5)) in
    if leb i 7 && (not (p.it == 0) && p.eeprom p.it == block_id)
    then answer q f 4 (write_line_ack ∷ p.config.id ∷ i ∷ []) low
    else p

-- the loop over the reed groups; a hit returns
unfoldable pub reed_listed : List ℕ → ℕ → Bool
reed_listed [] n = false
reed_listed (r ∷ rs) n = if r == n then true else reed_listed rs n

unfoldable pub on_reedkontakt_offen : Heizung → Frame → Heizung
unfolding reed_listed
on_reedkontakt_offen p f =
    if reed_listed p.config.reeds (byte f 2) then record p { reed_heiz_stop_counter = 60 } else p

module _ (zeitzone_matches : ℕ → Bool) where
  abbrev line_details : Option Line → List ℕ
  line_details none = 0 ∷ 0 ∷ 0 ∷ []
  line_details (some l) = msb l.temp ∷ lsb l.temp ∷ l.id ∷ []

  -- HCAN_HES_HEIZUNG_DETAILS_REQUEST
  unfoldable pub details : Mode → Heizung → Frame → Heizung
  details off p f = answer p f 3 (51 ∷ p.config.id ∷ []) hi
  details manual p f =
      answer p f 6
        (53 ∷ p.config.id ∷ p.manual_rate ∷ msb p.duration_counter ∷ lsb p.duration_counter ∷ []) hi
  details thermostat p f =
      answer p f 7
        (55
          ∷ p.config.id
          ∷ msb p.thermostat_temp
          ∷ lsb p.thermostat_temp
          ∷ msb p.duration_counter
          ∷ lsb p.duration_counter
          ∷ [])
        hi
  details automatik p f =
      answer p f 6 (57 ∷ byte f 2 ∷ line_details (matching_line zeitzone_matches p.config.lines)) hi

  -- the cases that ask for this circuit's id
  unfoldable pub addressed : Heizung → Frame → Heizung
  unfolding on_set_mode_manual on_set_mode_thermostat details on_line_request on_write_line
  addressed p f =
      let kind : ℕ = byte f 1 in
      if kind == set_mode_off
      then record p { mode = off }
      else if kind == set_mode_manual
      then on_set_mode_manual p f
      else if kind == set_mode_thermostat
      then on_set_mode_thermostat p f
      else if kind == set_mode_automatik
      then record p { mode = automatik }
      else if kind == details_request
      then details p.mode p f
      else if kind == tist_request
      then answer p f 5 (60 ∷ p.config.id ∷ msb p.measure_value ∷ lsb p.measure_value ∷ []) hi
      else if kind == line_request
      then on_line_request p f
      else if kind == write_line
      then on_write_line p f
      else p

  unfoldable pub can_callback : Heizung → Frame → Heizung
  unfolding on_temperature on_reedkontakt_offen addressed
  can_callback p f =
      if byte f 1 == temperature
      then on_temperature p f
      else if byte f 1 == reedkontakt_offen
      then on_reedkontakt_offen p f
      else if byte f 2 == p.config.id
      then addressed p f
      else p
