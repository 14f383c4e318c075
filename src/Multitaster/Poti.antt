-- ===== src/Multitaster/Poti.antt =====
-- poti.c: a potentiometer, the mean of four measurements of the converter (ADCW with 10 bits) in each call.
-- The comparisons with the last value are in 16 bits with a sign, where nothing overflows.
use hcan.Prelude.{ℕ, ◌+◌, ◌-◌, ◌/◌, Bool, [], ◌∷◌, ◌||◌, if◌then◌else◌, ◌==◌, ltb}
use hcan.Board.{Frame, Board, hes_frame, send, low, multicast_control, msb, lsb}
use hcan.Multitaster.State.{poti_pos_changed}

-- eds_poti_block_t
pub record Config : Type 0 where
  pub port : ℕ
  pub gruppe : ℕ

-- device_data_poti, with the board that it acts on
pub record Poti : Type 0 where
  pub config : Config
  pub last_poti_value : ℕ
  pub poti_telegram_countdown : ℕ  -- uint8_t
  pub board : Board

-- POTI_VALUE_TOLERANCE
abbrev pub tolerance : ℕ
tolerance = 30

-- POTI_TELEGRAM_COUNTDOWN_INIT
abbrev pub countdown_init : ℕ
countdown_init = 4

-- getADCvalue, from the sum of the four results
abbrev pub get_adc_value : ℕ → ℕ
get_adc_value total = total / 4

-- poti_init, with the first measurement
unfoldable pub init : ℕ → Poti → Poti
init total p = record p { last_poti_value = get_adc_value total; poti_telegram_countdown = 0 }

-- a value that differs by more than the tolerance from the last one sent
abbrev pub moved : ℕ → Poti → Bool
moved value p =
    ltb (p.last_poti_value + tolerance) value || ltb (value + tolerance) p.last_poti_value

abbrev pub telegram : ℕ → Poti → Frame
telegram value p =
    hes_frame p.board multicast_control 5
      (poti_pos_changed ∷ p.config.gruppe ∷ msb value ∷ lsb value ∷ [])

-- poti_timer_handler, called every 100 ms
unfoldable pub timer_handler : ℕ → Poti → Poti
timer_handler total p =
    let value = get_adc_value total in
    if p.poti_telegram_countdown == 0
    then record p {
      last_poti_value = value;
      poti_telegram_countdown = countdown_init;
      board = send (telegram value p) low p.board;
    }
    else record p {
      poti_telegram_countdown =
          if moved value p then p.poti_telegram_countdown - 1 else countdown_init;
    }
