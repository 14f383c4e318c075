-- ===== src/Rolladen/State.antt =====
-- rolladen.c: the data of a roller shutter, its set-up, and the arithmetic of its position.
-- `laufzeit` is an int32_t; overflow of it is undefined in C, so it is a plain integer here.
use hcan.Prelude.{ℕ, ◌+◌, ◌*◌, ◌/◌, Bool, true, false, List, [], ◌∷◌, if◌then◌else◌, ◌==◌, get_or}
use hcan.Prelude.Int.{ℤ, pos, negsuc, ◌+ℤ◌, ◌*ℤ◌, ◌/ℤ◌, ◌-ℤ◌, ltb_ℤ, pos_part}
use hcan.Board.{Board, hes_frame, multicast_info, send, hi, msb, lsb}

-- ROLLADEN_STATE_*
pub data State : Type 0 where
  stop auf_wait auf stop_wait_1 ab_wait_1 ab_wait_2 ab : State
  stop_wait_2 stop_wait_3 dir_change_wait_1 dir_change_wait_2 dir_change_wait_3 : State

-- ROLLADEN_READY and ROLLADEN_COMMAND_*
pub data Command : Type 0 where
  ready command_stop command_auf command_ab command_dir_change : Command

-- ROLLADEN_DIR_*
pub data Dir : Type 0 where
  dir_auf dir_ab : Dir

-- eds_rolladen_block_t; `gruppen` is gruppe0 .. gruppe3.
pub record Config : Type 0 where
  pub port_power : ℕ
  pub port_dir : ℕ
  pub taster : ℕ
  pub laufzeit : ℕ
  pub max_rekalib : ℕ
  pub gruppen : List ℕ

-- device_data_rolladen, with the board that it acts on
pub record Rolladen : Type 0 where
  pub config : Config
  pub summe_laufzeit : ℕ  -- uint32_t
  pub laufzeit : ℤ  -- int32_t
  pub soll_laufzeit : ℤ  -- int32_t
  pub cmdsrc : ℕ  -- uint16_t
  pub last_dir : Dir
  pub state : State
  pub command : Command
  pub wait_counter : ℕ  -- uint8_t
  pub up_event_counter : ℤ  -- int8_t
  pub board : Board

unfoldable pub init : Rolladen → Rolladen
init p = record p {
  summe_laufzeit = 0;
  laufzeit = pos p.config.laufzeit;
  soll_laufzeit = negsuc 0;
  cmdsrc = 0;
  command = ready;
  state = stop;
  wait_counter = 6;
  last_dir = dir_ab;
  up_event_counter = negsuc 0;
}

unfoldable pub laufzeit_align : Rolladen → Rolladen
laufzeit_align p =
    let low = if ltb_ℤ p.laufzeit (pos 0) then pos 0 else p.laufzeit in
    record p { laufzeit = if ltb_ℤ (pos p.config.laufzeit) low then pos p.config.laufzeit else low }

-- the loop over `gruppen` of rolladen_is_in_group
unfoldable pub in_gruppen : List ℕ → ℕ → Bool
in_gruppen [] group = false
in_gruppen (g ∷ gs) group = if g == group then true else in_gruppen gs group

unfoldable pub is_in_group : Rolladen → ℕ → Bool
unfolding in_gruppen
is_in_group p group = if p.config.taster == group then true else in_gruppen p.config.gruppen group

unfoldable pub min_laufzeit : Config → ℤ
unfolding ◌-ℤ◌
min_laufzeit c = pos 0 -ℤ pos (c.laufzeit * 5 / 10)

unfoldable pub max_laufzeit : Config → ℤ
max_laufzeit c = pos (c.laufzeit * 15 / 10)

unfoldable pub set_soll_laufzeit : Rolladen → ℕ → Rolladen
unfolding min_laufzeit max_laufzeit
set_soll_laufzeit p percent = record p {
  soll_laufzeit =
      if percent == 0
      then min_laufzeit p.config
      else if percent == 100
      then max_laufzeit p.config
      else pos (p.config.laufzeit * percent / 100);
}

-- rolladen_lowlevel_get_position
unfoldable pub get_position : Rolladen → ℕ
unfolding ◌+ℤ◌ ◌*ℤ◌ ◌/ℤ◌
get_position p =
    let raw = pos 100 *ℤ p.laufzeit /ℤ p.config.laufzeit +ℤ pos 1 in
    let low = if ltb_ℤ raw (pos 0) then pos 0 else raw in
    pos_part (if ltb_ℤ (pos 100) low then pos 100 else low)

-- rolladen_lowlevel_define_position
unfoldable pub define_position : Rolladen → ℕ → Rolladen
define_position p position =
    let defined = pos ((position + 1) * p.config.laufzeit / 100) in
    record p {
      laufzeit = if ltb_ℤ (pos p.config.laufzeit) defined then pos p.config.laufzeit else defined;
    }

-- HCAN_HES_ROLLADEN_POSITION_CHANGED_INFO
abbrev pub position_changed_info : ℕ
position_changed_info = 24

unfoldable pub send_changed_info : Rolladen → Rolladen
unfolding get_position
send_changed_info p = record p {
  board =
      send
        (hes_frame p.board multicast_info 6 (
          position_changed_info
          ∷ get_or p.config.gruppen 0 0
          ∷ get_position p
          ∷ msb p.cmdsrc
          ∷ lsb p.cmdsrc
          ∷ []))
        hi p.board;
}
