-- ===== src/Schalter/State.antt =====
-- schalter.c: a switch and its timer handler. `active` is !tasterport_read(p->config.port); it is an argument
-- of each operation and is the same for the whole call.
use hcan.Prelude.{ℕ, ◌+◌, Bool, true, false, [], ◌∷◌, ◌&&◌, ◌||◌, not, if◌then◌else◌, ◌==◌, ltb}
use hcan.Board.{Board, hes_frame, send, hi, multicast_control, bit}

-- eds_schalter_block_t
pub record Config : Type 0 where
  pub port : ℕ
  pub feature : ℕ
  pub gruppe : ℕ

-- FALLING and RISING
pub data Edge : Type 0 where
  falling rising : Edge

-- device_data_schalter, with the board that it acts on
pub record Schalter : Type 0 where
  pub config : Config
  pub new_state : ℕ  -- uint8_t
  pub last_edge : Edge
  pub board : Board

-- FEATURE_SCHALTER_INVERTIEREN: the number of the bit
abbrev pub invertieren : ℕ
invertieren = 0

abbrev pub power_group_on : ℕ
power_group_on = 10

abbrev pub power_group_off : ℕ
power_group_off = 11

abbrev pub edge_of : Bool → Edge
edge_of true = rising
edge_of false = falling

abbrev pub is_rising : Edge → Bool
is_rising rising = true
is_rising falling = false

-- the group is switched on, or off
abbrev pub switches_on : Schalter → Bool → Bool
switches_on p active = if bit p.config.feature invertieren then not active else active

-- sendMessage
unfoldable pub send_message : Bool → Schalter → Schalter
send_message active p = record p {
  last_edge = edge_of active;
  board =
      send
        (hes_frame p.board multicast_control 3 (
          (if switches_on p active then power_group_on else power_group_off)
          ∷ p.config.gruppe
          ∷ []))
        hi p.board;
}

-- schalter_init
unfoldable pub init : Bool → Schalter → Schalter
init active p = send_message active p

-- the switch does not stand as it did when it was last sent
abbrev pub changed : Bool → Edge → Bool
changed active e = active && not (is_rising e) || not active && is_rising e

abbrev pub count : Bool → Schalter → Schalter
count active p = record p {
  new_state =
      if changed active p.last_edge
      then if ltb p.new_state 255 then p.new_state + 1 else p.new_state
      else p.new_state;
}

-- schalter_timer_handler
unfoldable pub timer_handler : Bool → Schalter → Schalter
timer_handler active p =
    let q = count active p in
    if q.new_state == 3 then record (send_message active q) { new_state = 0 } else q
