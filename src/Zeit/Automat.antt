-- ===== src/Zeit/Automat.antt =====
-- rolladenAutomat.c: a shutter that is moved once in each of its two time zones, by brightness if it
-- has a sensor.
use hcan.Prelude.{ℕ, Bool, true, false, List, [], ◌∷◌, ◌||◌, ◌&&◌, not, if◌then◌else◌, ◌==◌, ltb}
use hcan.Board.{Frame, byte, Board, hes_frame, send, low, multicast_control, word}

-- eds_rolladenAutomat_block_t without feature, which is never read, and with the two zones in a list
pub record Config : Type 0 where
  pub rolladen_gruppe : ℕ
  pub rolladen_soll_position : ℕ
  pub automatik_ein_schalter_gruppe : ℕ
  pub zeitzonen_ids : List ℕ
  pub helligkeits_gruppe : ℕ
  pub helligkeitsschwelle : ℕ
  pub helligkeitswertueberschreitung : ℕ

-- device_data_rolladenAutomat, with the board that it acts on
pub record Automat : Type 0 where
  pub config : Config
  pub brightness : ℕ  -- uint16_t
  pub msg_ist_versendet : Bool
  pub automatik_ein : Bool
  pub board : Board

unfoldable pub init : Automat → Automat
init p = record p { brightness = 65535; msg_ist_versendet = false; automatik_ein = true }

abbrev pub position_set : ℕ
position_set = 20

unfoldable pub send_message : Automat → Automat
send_message p = if p.msg_ist_versendet then p else record p {
  board =
      send
        (hes_frame p.board multicast_control 4
          (position_set ∷ p.config.rolladen_gruppe ∷ p.config.rolladen_soll_position ∷ []))
        low p.board;
  msg_ist_versendet = true;
}

-- what a zone that matches does, by the brightness
unfoldable pub in_zone : Automat → Automat
unfolding send_message
in_zone p =
    if p.config.helligkeits_gruppe == 255
    then send_message p
    else if p.brightness == 65535
    then p
    else if not (p.config.helligkeitswertueberschreitung == 0)
    then if ltb p.config.helligkeitsschwelle p.brightness then send_message p else p
    else if ltb p.brightness p.config.helligkeitsschwelle
    then send_message p
    else p

module _ (zeitzone_matches : ℕ → Bool) where
  unfoldable pub any_matches : List ℕ → Bool
  any_matches [] = false
  any_matches (id ∷ ids) = let rest = any_matches ids in zeitzone_matches id || rest

  -- rolladenAutomat_timer_handler, called every second
  unfoldable pub timer_handler : Automat → Automat
  unfolding in_zone any_matches
  timer_handler p =
      if not p.automatik_ein
      then p
      else if any_matches p.config.zeitzonen_ids
      then in_zone p
      else record p { msg_ist_versendet = false }

-- HCAN_HES_HELLIGKEITS_INFO
abbrev pub helligkeits_info : ℕ
helligkeits_info = 71

unfoldable pub can_callback : Automat → Frame → Automat
can_callback p f =
    if byte f 1 == 10
    then if byte f 2 == p.config.automatik_ein_schalter_gruppe
      then record p { automatik_ein = true }
      else p
    else if byte f 1 == 11
    then if byte f 2 == p.config.automatik_ein_schalter_gruppe
      then record p { automatik_ein = false }
      else p
    else if byte f 1 == helligkeits_info
    then if not (p.config.helligkeits_gruppe == 255) && (byte f 2 == p.config.helligkeits_gruppe)
      then record p { brightness = word (byte f 3) (byte f 4) }
      else p
    else p
