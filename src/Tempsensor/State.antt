-- ===== src/Tempsensor/State.antt =====
-- tempsensor.c. The commands on the 1-wire bus (onewire.c) are a list, the two bytes that the sensor answers
-- with are arguments. All fields are uint8_t but for the temperature, an int16_t that is sent as its bits.
use Prim.Native.Nat.{bit_or}
use mathlib.Core.Option
use hcan.Prelude.{
  ℕ, zero, suc, ◌+◌, ◌-◌, ◌*◌, ◌%◌, Bool, true, false, Option, none, some, List, [], ◌∷◌, ◌&&◌,
  ◌||◌, not, if◌then◌else◌, ◌==◌, leb,
}
use hcan.Board.{Frame, byte, Board, hes_frame, send, low, multicast_info, msb, lsb}

-- eds_tempsensor_block_t; `ow_id` is the string, with its end
pub record Config : Type 0 where
  pub io_pin : ℕ
  pub gruppe : ℕ
  pub modus : ℕ
  pub interval : ℕ
  pub ow_id : List ℕ

-- CONVERT_T and READ, with the id of the sensor
pub data Command : Type 0 where
  convert read : List ℕ → Command

-- device_data_tempsensor, with the board that it acts on, ow_pin and the commands sent, the newest first
pub record Tempsensor : Type 0 where
  pub config : Config
  pub timer_counter : ℕ
  pub convert_sent : Bool
  pub temperature : ℕ
  pub ow_pin : ℕ
  pub commands : List Command
  pub board : Board

abbrev pub temperature_info : ℕ
temperature_info = 34

abbrev pub temperature_query : ℕ
temperature_query = 35

abbrev pub temperature_replay : ℕ
temperature_replay = 36

-- tempsensor_init: (gruppe << 2) & 0x3f; ow_reset acts on the bus only
unfoldable pub init : Tempsensor → Tempsensor
init p = record p {
  convert_sent = false;
  timer_counter = p.config.gruppe * 4 % 64;
  temperature = 0;
}

-- ow_getpin and ow_setpin
abbrev pub get_pin : Tempsensor → ℕ
get_pin p = (15 + 256 - p.ow_pin) % 256

abbrev pub set_pin : ℕ → Tempsensor → Tempsensor
set_pin n p = record p { ow_pin = (15 + 256 - n) % 256 }

abbrev pub is_digit : ℕ → Bool
is_digit c = leb 48 c && leb c 57 || leb 97 c && leb c 102

abbrev pub digit : ℕ → ℕ
digit c = if leb 48 c && leb c 57 then c - 48 else c - 97 + 10

-- the byte of two characters; where they are no digits, `v` of the last byte stays
unfoldable pub pair : ℕ → ℕ → ℕ → ℕ
pair c d v =
    let high : ℕ = if is_digit c then digit c * 16 else v in
    if is_digit d then bit_or high (digit d) else high

-- the loop of tempsensor_str2id, for so many bytes; none where the string ends
unfoldable pub str2id_from : ℕ → List ℕ → ℕ → Option (List ℕ)
str2id_from zero str v = some []
str2id_from (suc n) [] v = none
str2id_from (suc n) (c ∷ []) v = none
str2id_from (suc n) (c ∷ d ∷ str) v =
    let rest = str2id_from n str (pair c d v) in
    if c == 0 || d == 0 then none else Option.map (λ id. pair c d v ∷ id) rest

unfoldable pub str2id : List ℕ → Option (List ℕ)
str2id str = str2id_from 8 str 0

abbrev pub temperature_frame : ℕ → ℕ → Tempsensor → Frame
temperature_frame dst kind p =
    hes_frame p.board dst 5 (kind ∷ p.config.gruppe ∷ msb p.temperature ∷ lsb p.temperature ∷ [])

-- the end of the timer handler
abbrev pub finish : ℕ → Tempsensor → Tempsensor
finish old p = set_pin old (record p { timer_counter = (p.timer_counter + 255) % 256 })

-- the second part of the timer handler, with the id and the answer of the sensor
unfoldable pub measured : Option (List ℕ) → ℕ → ℕ → Tempsensor → Tempsensor
measured none reading old p = record p { convert_sent = false }
measured (some id) reading old p =
    let q : Tempsensor = record p {
      convert_sent = false;
      commands = read id ∷ p.commands;
      temperature = reading;
    } in
    finish old (record q {
      board = send (temperature_frame multicast_info temperature_info q) low q.board;
      timer_counter = q.config.interval;
    })

abbrev pub report : ℕ → ℕ → Tempsensor → Tempsensor
report reading old p =
    if (p.timer_counter == 0) && p.convert_sent
    then measured (str2id p.config.ow_id) reading old p
    else finish old p

-- the first part, two calls before the counter is 0
unfoldable pub start_measuring : Option (List ℕ) → ℕ → ℕ → Tempsensor → Tempsensor
start_measuring none reading old p = p
start_measuring (some id) reading old p =
    report reading old (record p { commands = convert id ∷ p.commands; convert_sent = true })

-- tempsensor_timer_handler, called every second; a string that is no id ends it before its end
unfoldable pub timer_handler : ℕ → Tempsensor → Tempsensor
timer_handler reading p =
    let q = set_pin p.config.io_pin p in
    if (p.timer_counter == 2) && not (p.config.modus == 0)
    then start_measuring (str2id p.config.ow_id) reading (get_pin p) q
    else report reading (get_pin p) q

-- tempsensor_can_callback
unfoldable pub can_callback : Tempsensor → Frame → Tempsensor
can_callback p f =
    if (byte f 1 == temperature_query) && (byte f 2 == p.config.gruppe)
    then record p { board = send (temperature_frame f.src temperature_replay p) low p.board }
    else p
