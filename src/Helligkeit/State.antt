-- ===== src/Helligkeit/State.antt =====
-- floatingAverage.c: a ring of SIZE_OF_AVG values and their mean; helligkeitssensor.c: a sensor that sends
-- the mean of its last readings. The results of the converter's four measurements, ADCW with 10 bits, are
-- arguments; setADMUX chooses the pin that they come from.
use hcan.Prelude.{
  ℕ, ◌+◌, ◌-◌, ◌*◌, ◌/◌, ◌%◌, ◌^◌, List, [], ◌∷◌, if◌then◌else◌, ◌==◌, leb, set, replicate,
}
use hcan.Board.{Frame, Board, hes_frame, send, low, multicast_control, msb, lsb}

-- SIZE_OF_AVG
abbrev pub size_of_avg : ℕ
size_of_avg = 8

-- tFloatAvgFilter
pub record Filter : Type 0 where
  pub a_data : List ℕ
  pub index_next_value : ℕ

-- initFloatAvg
unfoldable pub init_float_avg : ℕ → Filter
init_float_avg default = record { a_data = replicate size_of_avg default; index_next_value = 0 }

-- addToFloatAvg
unfoldable pub add_to_float_avg : ℕ → Filter → Filter
add_to_float_avg v f = record {
  a_data = set f.a_data f.index_next_value v;
  index_next_value = (f.index_next_value + 1) % 256 % size_of_avg;
}

-- tempSum
unfoldable pub sum : List ℕ → ℕ
sum [] = 0
sum (x ∷ xs) = x + sum xs

-- getOutputValue: tTempSumType has 32 bits, tFloatAvgType 16
unfoldable pub get_output_value : Filter → ℕ
unfolding sum
get_output_value f = sum f.a_data % 2 ^ 32 / size_of_avg % 2 ^ 16

-- eds_helligkeitssensor_block_t
pub record Config : Type 0 where
  pub port : ℕ
  pub gruppe : ℕ
  pub feature : ℕ
  pub send_cycle_mins : ℕ

-- device_data_helligkeitssensor, with the board that it acts on
pub record Sensor : Type 0 where
  pub config : Config
  pub secs_until_next_send : ℕ  -- uint16_t
  pub filter_brightness : Filter
  pub board : Board

-- the results of the four measurements of getADCvalue_inverted
pub record Adc : Type 0 where
  pub first : ℕ
  pub second : ℕ
  pub third : ℕ
  pub fourth : ℕ

-- getADCvalue_inverted
unfoldable pub get_adc_value_inverted : Adc → ℕ
get_adc_value_inverted a = 1023 - (a.first + a.second + a.third + a.fourth) / 4

abbrev pub helligkeits_info : ℕ
helligkeits_info = 71

-- 60 * sendCycleMins, cast to uint16_t
abbrev pub cycle : Sensor → ℕ
cycle p = 60 * p.config.send_cycle_mins % 2 ^ 16

-- helligkeitssensor_init
unfoldable pub init : Sensor → Sensor
unfolding init_float_avg
init p = record p { secs_until_next_send = cycle p; filter_brightness = init_float_avg 511 }

-- one second less; the readings before the next frame count
unfoldable pub measure : Adc → Sensor → Sensor
measure a p =
    let secs = p.secs_until_next_send - 1 in
    record p {
      secs_until_next_send = secs;
      filter_brightness =
          if leb secs size_of_avg
          then add_to_float_avg (get_adc_value_inverted a) p.filter_brightness
          else p.filter_brightness;
    }

abbrev pub info_frame : ℕ → Sensor → Frame
info_frame mean p =
    hes_frame p.board multicast_control 5
      (helligkeits_info ∷ p.config.gruppe ∷ msb mean ∷ lsb mean ∷ [])

unfoldable pub send_info : Sensor → Sensor
send_info p = record p {
  secs_until_next_send = cycle p;
  board = send (info_frame (get_output_value p.filter_brightness) p) low p.board;
}

-- helligkeitssensor_timer_handler, called every second
unfoldable pub timer_handler : Adc → Sensor → Sensor
unfolding measure send_info
timer_handler a p = if p.secs_until_next_send == 0 then send_info p else measure a p
