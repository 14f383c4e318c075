-- ===== src/Heizung/State.antt =====
-- heizung.c: the data of a heating circuit and its pulse width modulation. Temperatures are int16_t, kept
-- as their bit patterns. A division by pwm_end = 0, undefined in C, gives 0.
use hcan.Prelude.{
  ℕ, ◌+◌, ◌*◌, ◌/◌, ◌%◌, ◌-◌, Bool, true, false, List, if◌then◌else◌, ◌==◌, ltb, leb,
}
use hcan.Prelude.Int.{ℤ, pos, negsuc}
use hcan.Board.{Board, setpin}

-- HEIZUNG_MODE_*
pub data Mode : Type 0 where
  off manual thermostat automatik : Mode

-- solltemp_line_t
pub record Line : Type 0 where
  pub id : ℕ
  pub temp : ℕ  -- int16_t

-- eds_heizung_block_t; `lines` are the eight pairs of zeitzoneN_id and zeitzoneN_temp, `reeds` the eight
-- reed groups
pub record Config : Type 0 where
  pub id : ℕ
  pub port : ℕ
  pub pwm_periode : ℕ
  pub sensor_id : ℕ
  pub lines : List Line
  pub feature : ℕ
  pub hysterese : ℕ
  pub reeds : List ℕ

-- device_data_heizung, with the board and the EEPROM that it acts on
pub record Heizung : Type 0 where
  pub config : Config
  pub it : ℕ
  pub mode : Mode
  pub manual_rate : ℕ  -- uint8_t
  pub timer_counter : ℕ  -- uint8_t
  pub pwm_counter : ℕ  -- uint16_t
  pub pwm_width : ℕ  -- uint16_t
  pub pwm_end : ℕ  -- uint16_t
  pub waermebedarf_counter : ℕ  -- uint8_t
  pub received_interval_counter : ℕ  -- uint8_t
  pub measure_value : ℕ  -- int16_t
  pub duration_counter : ℕ  -- uint16_t
  pub thermostat_temp : ℕ  -- int16_t
  pub reed_heiz_stop_counter : ℕ  -- uint8_t
  pub ventilpflege_counter : ℕ  -- uint16_t
  pub eeprom : ℕ → ℕ
  pub board : Board

-- the number that a 16-bit pattern stands for
abbrev pub signed_16 : ℕ → ℤ
signed_16 w = if ltb w 32768 then pos w else negsuc (65535 - w)

abbrev pub is_off : Mode → Bool
is_off off = true
is_off _ = false

unfoldable pub init : Heizung → ℕ → Heizung
init p it = record p {
  it = it;
  mode = off;
  manual_rate = 0;
  pwm_counter = 0;
  pwm_width = 0;
  pwm_end = 0;
  waermebedarf_counter = p.config.id % 64;
  received_interval_counter = 255;
  measure_value = 0;
  duration_counter = 0;
  thermostat_temp = 0;
  reed_heiz_stop_counter = 0;
  ventilpflege_counter = 0;
}

unfoldable pub update_heizstop : Heizung → Heizung
update_heizstop p =
    if p.reed_heiz_stop_counter == 0
    then p
    else record p { pwm_end = p.config.pwm_periode; pwm_width = 0 }

unfoldable pub set_pwm : Heizung → ℕ → Heizung
unfolding update_heizstop
set_pwm p rate =
    if p.reed_heiz_stop_counter == 0
    then record p {
      pwm_end = p.config.pwm_periode;
      pwm_width = p.config.pwm_periode * rate / 100 % 65536;
    }
    else update_heizstop p

unfoldable pub get_pwm : Heizung → ℕ
get_pwm p = if is_off p.mode then 0 else p.pwm_width * 100 / p.pwm_end % 256

abbrev pub valve : Bool → Heizung → Heizung
valve v p = record p { board = setpin p.config.port v p.board }

-- the two steps of heizung_handle_pwm
abbrev pub wrap_pwm : Heizung → Heizung
wrap_pwm p =
    let next : ℕ = (p.pwm_counter + 1) % 65536 in
    if leb p.pwm_end next
    then valve true (record p { pwm_counter = 0 })
    else record p { pwm_counter = next }

abbrev pub cut_pwm : Heizung → Heizung
cut_pwm p = if leb p.pwm_width p.pwm_counter then valve false p else p

unfoldable pub handle_pwm : Heizung → Heizung
handle_pwm p = cut_pwm (wrap_pwm p)
